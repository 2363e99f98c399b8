-- ===== src/Ehbp.antt =====
-- The sealing channel of the EHBP proxy and the changes of its trust (src/ehbp_transport.rs). The
-- client of the `tinfoil_ehbp` package is a parameter: its type, and how one is made for a public
-- key at the proxy's address.
pub mod Url
pub mod Send
pub mod Changes
pub mod Concurrent
pub mod Exchange
pub mod Renewed
pub mod Answered
mod Tests
use Prim.Native.String.{String}
use text.Mathlib.Text.{◌==◌ as str_eq}
use tinfoil_rs.Prelude.{ℕ, ◌+◌, ◌%◌, ◌^◌, Bool, false, not, Option, none, some, ◌==◌, if◌then◌else◌}
use tinfoil_rs.Outcome.{Outcome, ok, err, panic}
use tinfoil_rs.Errors.{Error, ehbp, ehbp_key_mismatch, http}
use tinfoil_rs.Attestation.Complete.{GroundTruth}

-- The errors of `tinfoil_ehbp` that the code tells apart, with what they print.
pub data EhbpError : Type 0 where
  key_config_mismatch : String → EhbpError
  http_error : String → EhbpError
  other : String → EhbpError

unfoldable pub map_ehbp_error : EhbpError → Error
map_ehbp_error (key_config_mismatch title) = ehbp_key_mismatch title
map_ehbp_error (http_error text) = http text
map_ehbp_error (other text) = ehbp text

-- `map_err(map_ehbp_error)`.
unfoldable pub with_ehbp_error : {A : Type 0} → Outcome EhbpError A → Outcome Error A
unfolding map_ehbp_error
with_ehbp_error (ok a) = ok a
with_ehbp_error (err e) = err (map_ehbp_error e)
with_ehbp_error panic = panic

pub record RefreshedState : Type 0 where
  pub hpke_public_key : String
  pub ground_truth : Option GroundTruth

-- `RefreshedState::from`.
unfoldable pub from_key : String → RefreshedState
from_key key = record { hpke_public_key = key; ground_truth = none }

pub record EhbpChannel (Client : Type 0) : Type 0 where
  pub client : Option Client
  pub public_key : Option String
  pub rejected_public_key : Option String
  pub ground_truth : Option GroundTruth
  pub generation : ℕ  -- u64

-- `wrapping_add(1)` on a `u64`.
abbrev pub next_generation : ℕ → ℕ
next_generation generation = (generation + 1) % 2 ^ 64

-- `key.as_deref() == Some(other)`.
unfoldable pub is_key : Option String → String → Bool
is_key none key = false
is_key (some stated) key = str_eq stated key

module _ {Client : Type 0} where
  unfoldable pub set_active : Client → RefreshedState → EhbpChannel Client → EhbpChannel Client
  set_active client refreshed channel = record {
    client = some client;
    public_key = some refreshed.hpke_public_key;
    rejected_public_key = none;
    ground_truth = refreshed.ground_truth;
    generation = next_generation channel.generation;
  }

  unfoldable pub clear : EhbpChannel Client → EhbpChannel Client
  clear channel = record {
    client = none;
    public_key = none;
    rejected_public_key = none;
    ground_truth = none;
    generation = next_generation channel.generation;
  }

  unfoldable pub reject : EhbpChannel Client → EhbpChannel Client
  unfolding clear
  reject channel = record (clear channel) { rejected_public_key = channel.public_key }

  -- The channel that `EhbpProxy::new` starts from.
  unfoldable pub initial_channel : EhbpChannel Client
  initial_channel = record {
    client = none;
    public_key = none;
    rejected_public_key = none;
    ground_truth = none;
    generation = 0;
  }

  unfoldable pub verified_ground_truth : EhbpChannel Client → Option GroundTruth
  verified_ground_truth channel = elim channel.client [
    | none ↦ none
    | some _ ↦ channel.ground_truth
  ]

  unfoldable pub revoke : EhbpChannel Client → EhbpChannel Client
  unfolding clear
  revoke = clear

  -- The new generation, if the channel was still at the one seen.
  unfoldable pub reject_if_generation : ℕ → EhbpChannel Client → Option ℕ × EhbpChannel Client
  unfolding reject
  reject_if_generation seen channel =
      if channel.generation == seen
      then (some (reject channel).generation, reject channel)
      else (none, channel)

  -- The operations that make a client. What one of them returns comes with the channel after it.
  module _ (with_public_key : String → Outcome EhbpError Client) where
    unfoldable pub install_state :
        RefreshedState → EhbpChannel Client → Outcome Error (Unit {0}) × EhbpChannel Client
    unfolding with_ehbp_error set_active
    install_state refreshed channel = elim (with_public_key refreshed.hpke_public_key) [
      | ok client ↦ (ok tt, set_active client refreshed channel)
      | err e ↦ (err (map_ehbp_error e), channel)
      | panic ↦ (panic, channel)
    ]

    unfoldable pub rekey :
        String → EhbpChannel Client → Outcome Error (Unit {0}) × EhbpChannel Client
    unfolding install_state from_key
    rekey key = install_state (from_key key)

    unfoldable pub install_verified_state :
        String → GroundTruth → EhbpChannel Client → Outcome Error (Unit {0}) × EhbpChannel Client
    unfolding install_state
    install_verified_state key truth =
        install_state (record { hpke_public_key = key; ground_truth = some truth })

    -- The end of `refresh_after_mismatch`, under the lock of the channel.
    unfoldable pub install_refreshed :
        ℕ
        → Client
        → RefreshedState
        → EhbpChannel Client
        → Outcome Error (Unit {0}) × EhbpChannel Client
    unfolding is_key set_active clear
    install_refreshed refresh_generation client refreshed channel =
        if not (channel.generation == refresh_generation)
        then (ok tt, channel)
        else if is_key channel.rejected_public_key refreshed.hpke_public_key
        then (
          err (ehbp_key_mismatch "attestation returned the previously rejected HPKE key"),
          clear channel,
        )
        else (ok tt, set_active client refreshed channel)

    -- `refresh_after_mismatch` from the call of the refresher on: `refresher` is what it answers,
    -- and `none` if there is none; `channel` is the channel at the time of the answer.
    unfoldable pub finish_refresh :
        ℕ
        → Option (Outcome Error RefreshedState)
        → EhbpChannel Client
        → Outcome Error (Unit {0}) × EhbpChannel Client
    unfolding install_refreshed map_ehbp_error
    finish_refresh refresh_generation none channel = (
      err (ehbp_key_mismatch "EHBP key rotated; re-run verify() before retrying the request"),
      channel,
    )
    finish_refresh refresh_generation (some (err e)) channel = (err e, channel)
    finish_refresh refresh_generation (some panic) channel = (panic, channel)
    finish_refresh refresh_generation (some (ok refreshed)) channel =
        elim (with_public_key refreshed.hpke_public_key) [
          | ok client ↦ install_refreshed refresh_generation client refreshed channel
          | err e ↦ (err (map_ehbp_error e), channel)
          | panic ↦ (panic, channel)
        ]

    -- `meanwhile` is what other tasks do to the channel between its rejection and the refresher's
    -- answer.
    unfoldable pub refresh_after_mismatch :
        ℕ
        → (EhbpChannel Client → EhbpChannel Client)
        → Option (Outcome Error RefreshedState)
        → EhbpChannel Client
        → Outcome Error (Unit {0}) × EhbpChannel Client
    unfolding reject_if_generation finish_refresh
    refresh_after_mismatch seen meanwhile refresher channel =
        let (rejection, rejected) = reject_if_generation seen channel in
        elim rejection [
          | none ↦ (ok tt, rejected)
          | some refresh_generation ↦
              finish_refresh refresh_generation refresher (meanwhile rejected)
        ]
