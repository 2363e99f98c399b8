-- ===== src/CacheSecret/Resolution.antt =====
-- One process after another (src/user_cache_secret.rs).
use Prim.Native.String.{String}
use tinfoil_rs.Prelude.{◌≡◌, refl, true, false, none, some}
use tinfoil_rs.Outcome.{ok}
use tinfoil_rs.Text.{is_empty}
use tinfoil_rs.CacheSecret.{regular, Process, read_secret_file, has_home, load_or_generate}
use tinfoil_rs.CacheSecret.Fresh.{IsHex, hex-IsFresh}

-- The process has a home in which the directory can be made.
abbrev pub HasDirectory : Process → Type 0
HasDirectory process = (has_home process.home ≡ true) × (process.created ≡ ok tt)

-- The process has randomness, which is encoded in hexadecimal, and can write and link its file.
pub record CanPublish (process : Process) : Type 0 where
  pub secret_hex : IsHex process.secret
  pub id_full : is_empty process.candidate_id ≡ false
  pub written : process.written ≡ ok tt
  pub not_refused : process.refusal ≡ none

finds_file :
    (process : Process) (contents secret : String)
    → HasDirectory process
    → read_secret_file (some (regular (some contents))) ≡ ok (some secret)
    → load_or_generate process (some (regular (some contents)))
      ≡ (secret, some (regular (some contents)))
unfolding load_or_generate
finds_file process contents secret (at_home, created) held =
    rw (load_or_generate, at_home, created, held)

makes_file :
    (process : Process)
    → HasDirectory process
    → CanPublish process
    → load_or_generate process none ≡ (process.secret, some (regular (some process.secret)))
unfolding load_or_generate
makes_file process (at_home, created) can = rw (
  load_or_generate, at_home, created, can.secret_hex.full, can.id_full, can.written,
  can.not_refused,
)

-- Where there is no file yet, a process that can publish its secret answers it, and every later
-- process that has the directory answers the same secret and leaves the file.
pub load_or_generate-persists :
    (first later : Process)
    → HasDirectory first
    → CanPublish first
    → HasDirectory later
    → ((load_or_generate first none).0 ≡ first.secret)
      × (load_or_generate later (load_or_generate first none).1
          ≡ (first.secret, (load_or_generate first none).1))
load_or_generate-persists first later has can has_too = rw (makes_file first has can) (
  refl,
  finds_file later first.secret first.secret has_too (hex-IsFresh first.secret can.secret_hex),
)
