-- ===== src/CacheSecret.antt =====
-- The secret that scopes a user's prompt cache: where it comes from, and the file that the clients of a
-- home directory share (src/user_cache_secret.rs). The file's path in its directory is a place that is
-- free or holds a node; what else the operating system answers, and fresh random secrets, are
-- arguments.
pub mod Fresh
pub mod Shared
pub mod Inject
pub mod Json
pub mod Resolution
pub mod Tests
use Prim.Native.Char.{Char, code}
use Prim.Native.String.{String}
use tinfoil_rs.Prelude.{Bool, false, not, Option, none, some, if◌then◌else◌}
use tinfoil_rs.Outcome.{Outcome, ok, err, panic, ◌>>=◌}
use tinfoil_rs.Text.{is_empty, is_whitespace}

unfoldable pub trim_start : String → String
unfolding is_whitespace
trim_start String.[] = String.[]
trim_start (String.◌∷◌ c s) = if is_whitespace (code c) then trim_start s else String.◌∷◌ c s

abbrev pub put_back : Char → String → String
put_back c String.[] = if is_whitespace (code c) then String.[] else String.◌∷◌ c String.[]
put_back c (String.◌∷◌ d s) = String.◌∷◌ c (String.◌∷◌ d s)

unfoldable pub trim_end : String → String
unfolding is_whitespace
trim_end String.[] = String.[]
trim_end (String.◌∷◌ c s) = put_back c (trim_end s)

unfoldable pub trim : String → String
unfolding trim_start trim_end
trim s = trim_end (trim_start s)

-- A regular file that can be read, with its contents if they are UTF-8, or anything else at a path.
pub data Node : Type 0 where
  regular : Option String → Node
  special : Node

-- The kinds of errors that the code tells apart.
pub data IoError : Type 0 where
  not_found already_exists invalid_data other : IoError

abbrev pub Io : Type 0 → Type 0
Io A = Outcome IoError A

unfoldable pub not_blank : String → Option String
not_blank text = if is_empty text then none else some text

-- Over the node at the path; a special node cannot be opened or is refused once open.
unfoldable pub read_secret_file : Option Node → Io (Option String)
unfolding trim not_blank
read_secret_file none = ok none
read_secret_file (some special) = err invalid_data
read_secret_file (some (regular none)) = err invalid_data
read_secret_file (some (regular (some contents))) = ok (not_blank (trim contents))

-- What a process does after it has looked for the file.
pub data Looked : Type 0 where
  use_existing : String → Looked
  publish_new : Looked
  fall_back : Looked

-- `symlink_metadata` of the path, after a read that found no secret.
unfoldable pub look_again : Option Node → Looked
look_again none = publish_new
look_again (some node) = fall_back

-- `read` is what the first look answers, `place` what is at the path at the second.
unfoldable pub look : Io (Option String) → Option Node → Looked
unfolding look_again
look (ok (some existing)) place = use_existing existing
look (ok none) place = look_again place
look (err e) place = fall_back
look panic place = fall_back

-- `hard_link` of a candidate with this text; `refusal` is an error that has nothing to do with what is
-- at the path.
unfoldable pub hard_link : String → Option IoError → Option Node → Io (Unit {0}) × Option Node
hard_link contents (some e) place = (err e, place)
hard_link contents none none = (ok tt, some (regular (some contents)))
hard_link contents none (some node) = (err already_exists, some node)

-- The answer of a publication, by the outcome of the link and what is read then.
unfoldable pub existing_secret : Io (Option String) → Io String
existing_secret (ok (some existing)) = ok existing
existing_secret (ok none) = err invalid_data
existing_secret (err e) = err e
existing_secret panic = panic

unfoldable pub linked_secret : String → Io (Unit {0}) → Io (Option String) → Io String
unfolding existing_secret
linked_secret secret (ok _) read = ok secret
linked_secret secret (err already_exists) read = existing_secret read
linked_secret secret (err e) read = err e
linked_secret secret panic read = panic

-- After the candidate is written. The candidate is removed in any case.
unfoldable pub publish_candidate : String → Option IoError → Option Node → Io String × Option Node
unfolding linked_secret hard_link read_secret_file
publish_candidate secret refusal place =
    let (linked, place') = hard_link secret refusal place in
    (linked_secret secret linked (read_secret_file place'), place')

-- `secret` and `candidate_id` are fresh, and empty where there is no randomness.
unfoldable pub publish_secret_file :
    (secret candidate_id : String)
    → Io (Unit {0})
    → Option IoError
    → Option Node
    → Io String × Option Node
unfolding publish_candidate
publish_secret_file secret candidate_id written refusal place =
    if is_empty secret
    then (ok secret, place)
    else if is_empty candidate_id
    then (ok candidate_id, place)
    else elim written [
      | ok _ ↦ publish_candidate secret refusal place
      | err e ↦ (err e, place)
      | panic ↦ (panic, place)
    ]

-- What the operating system answers one process, and its secrets. `seen` is what is at the path at
-- its second look.
pub record Process : Type 0 where
  pub home : Option String
  pub created : Io (Unit {0})
  pub secret : String
  pub candidate_id : String
  pub written : Io (Unit {0})
  pub refusal : Option IoError
  pub ephemeral : String

unfoldable pub or_ephemeral : String → Io String × Option Node → String × Option Node
or_ephemeral ephemeral (ok secret, place) = (secret, place)
or_ephemeral ephemeral (err e, place) = (ephemeral, place)
or_ephemeral ephemeral (panic, place) = (ephemeral, place)

unfoldable pub after_look : Process → Looked → Option Node → String × Option Node
unfolding or_ephemeral publish_secret_file
after_look process (use_existing existing) place = (existing, place)
after_look process fall_back place = (process.ephemeral, place)
after_look process publish_new place =
    or_ephemeral process.ephemeral (
      publish_secret_file process.secret process.candidate_id process.written process.refusal place)

unfoldable pub has_home : Option String → Bool
has_home none = false
has_home (some path) = not (is_empty path)

-- `load_or_generate` of a process that runs alone over the path.
unfoldable pub load_or_generate : Process → Option Node → String × Option Node
unfolding after_look look read_secret_file has_home
load_or_generate process place =
    if has_home process.home
    then elim process.created [
      | ok _ ↦ after_look process (look (read_secret_file place) place) place
      | err _ ↦ (process.ephemeral, place)
      | panic ↦ (process.ephemeral, place)
    ]
    else (process.ephemeral, place)

-- The environment's value, unless it is empty; then `load`.
unfoldable pub resolve_env_or_file : Option String → String → String
resolve_env_or_file none load = load
resolve_env_or_file (some env) load = if is_empty env then load else env

-- A source is resolved at the first request, or chosen by the caller.
pub data UserCacheSecret : Type 0 where
  deferred : Option String → UserCacheSecret
  chosen : String → UserCacheSecret

unfoldable pub explicit : String → UserCacheSecret
explicit secret = if is_empty secret then deferred none else chosen secret

-- `get`, with what the default resolution would answer now, and the source after it.
unfoldable pub get : String → UserCacheSecret → Option String × UserCacheSecret
unfolding not_blank
get resolved (chosen secret) = (not_blank secret, chosen secret)
get resolved (deferred none) = (not_blank resolved, deferred (some resolved))
get resolved (deferred (some memo)) = (not_blank memo, deferred (some memo))
