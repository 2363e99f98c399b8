-- ===== src/CacheSecret/Tests.antt =====
-- Two processes over one home, and bodies of requests, run.
use Prim.Native.String.{String}
use tinfoil_rs.Prelude.{◌≡◌, refl, ℕ, Bool, true, false, List, [], ◌∷◌, Option, none, some}
use tinfoil_rs.Outcome.{ok}
use tinfoil_rs.Text.{as_bytes, is_empty}
use tinfoil_rs.Attestation.Bytes.{bytes_eq}
use tinfoil_rs.CacheSecret.{
  Node, regular, special, Process, deferred, read_secret_file, publish_candidate, load_or_generate,
  has_home, resolve_env_or_file, explicit,
}
use tinfoil_rs.CacheSecret.Fresh.{IsHex}
use tinfoil_rs.CacheSecret.Shared.{reads, publishes, Reach, here, next, Agree, Reach-Agree}
use tinfoil_rs.CacheSecret.Resolution.{HasDirectory, CanPublish, load_or_generate-persists}
use tinfoil_rs.CacheSecret.Json.{done, top_level_value_range, json_value_end}
use tinfoil_rs.CacheSecret.Json.Loop.{IsScanned, top_level_value_range-IsScanned}
use tinfoil_rs.CacheSecret.Inject.{
  JsonPackage, CacheRequest, inject_user_cache_secret, provision_request,
}
use tinfoil_rs.CacheSecret.Inject.Values.{
  ValuePackage, provision_value, IsProvisioned, provision_value-IsProvisioned,
}
use tinfoil_rs.CacheSecret.Inject.Kept.{IsKept, inject_user_cache_secret-IsKept}

abbrev secret_file : String → Option Node
secret_file contents = some (regular (some contents))

ab-IsHex : IsHex "ab"
ab-IsHex = record { full = refl; digits = (refl, (refl, tt)) }

cd-IsHex : IsHex "cd"
cd-IsHex = record { full = refl; digits = (refl, (refl, tt)) }

-- One process publishes, a second one loses the race, a third one reads.
published :
    Reach IsHex
      (record { place = none; answers = [] })
      (record { place = secret_file "ab"; answers = "ab" ∷ "ab" ∷ "ab" ∷ [] })
unfolding publish_candidate read_secret_file
published =
    next {h = record { place = secret_file "ab"; answers = "ab" ∷ "ab" ∷ [] }}
      (next {h = record { place = secret_file "ab"; answers = "ab" ∷ [] }}
        (next here (publishes "ab" "ab" none ab-IsHex refl refl))
        (publishes "cd" "ab" none cd-IsHex refl refl))
      (reads "ab" refl refl)

Reach-Agree_example : Agree (record { place = secret_file "ab"; answers = "ab" ∷ "ab" ∷ "ab" ∷ [] })
Reach-Agree_example = Reach-Agree IsHex (λ secret hex. hex) none published

abbrev process : String → Process
process secret = record {
  home = some "/home/user";
  created = ok tt;
  secret = secret;
  candidate_id = "7f";
  written = ok tt;
  refusal = none;
  ephemeral = "ephemeral";
}

process-HasDirectory : (secret : String) → HasDirectory (process secret)
unfolding has_home
process-HasDirectory secret = (refl, refl)

ab_CanPublish : CanPublish (process "ab")
ab_CanPublish = record { secret_hex = ab-IsHex; id_full = refl; written = refl; not_refused = refl }

load_or_generate-persists_example :
    ((load_or_generate (process "ab") none).0 ≡ "ab")
    × (load_or_generate (process "cd") (load_or_generate (process "ab") none).1
        ≡ ("ab", (load_or_generate (process "ab") none).1))
load_or_generate-persists_example =
    load_or_generate-persists (process "ab") (process "cd") (process-HasDirectory "ab")
      ab_CanPublish (process-HasDirectory "cd")

special_is_left : load_or_generate (process "ab") (some special) ≡ ("ephemeral", some special)
unfolding load_or_generate
special_is_left = refl

blank_is_left : load_or_generate (process "ab") (secret_file " ") ≡ ("ephemeral", secret_file " ")
unfolding load_or_generate
blank_is_left = refl

trims : read_secret_file (secret_file " ab\n") ≡ ok (some "ab")
unfolding read_secret_file
trims = refl

env_first : resolve_env_or_file (some "env") "file" ≡ "env"
unfolding resolve_env_or_file
env_first = refl

explicit_empty : explicit "" ≡ deferred none
unfolding explicit
explicit_empty = refl

abbrev key_of : List ℕ → Option String
key_of raw = some "user_cache_secret"

abbrev blank_body : List ℕ
blank_body = as_bytes "{\"user_cache_secret\": \"\"}"

top_level_value_range-IsScanned_example :
    IsScanned key_of blank_body "user_cache_secret"
      (top_level_value_range key_of blank_body "user_cache_secret")
top_level_value_range-IsScanned_example =
    top_level_value_range-IsScanned key_of blank_body "user_cache_secret"

finds_blank : top_level_value_range key_of blank_body "user_cache_secret" ≡ done (some (22, 24))
unfolding top_level_value_range as_bytes
finds_blank = refl

nested_value_ends : json_value_end (as_bytes "{\"}\": [1, {}]}, 2") 0 ≡ some 14
unfolding json_value_end as_bytes
nested_value_ends = refl

scalar_ends : json_value_end (as_bytes "12 , 3") 0 ≡ some 2
unfolding json_value_end as_bytes
scalar_ends = refl

-- A package that reads each body as the object with these fields.
abbrev package_of : List (String × List ℕ) → JsonPackage
package_of fields = record {
  parse_object = λ raw. some fields;
  parse_key = key_of;
  to_json = λ secret. some (0x22 ∷ 115 ∷ 0x22 ∷ []);
}

abbrev model_field : List (String × List ℕ)
model_field = ("model", 49 ∷ []) ∷ []

adds_field :
    inject_user_cache_secret (package_of model_field) (as_bytes "{\"model\":1} ") "s"
    ≡ some (as_bytes "{\"model\":1,\"user_cache_secret\":\"s\"} ")
unfolding inject_user_cache_secret as_bytes
adds_field = refl

inject_user_cache_secret-IsKept_example :
    IsKept
      (package_of model_field)
      (as_bytes "{\"model\":1} ")
      (as_bytes "{\"model\":1,\"user_cache_secret\":\"s\"} ")
      "s"
inject_user_cache_secret-IsKept_example =
    inject_user_cache_secret-IsKept (package_of model_field) (as_bytes "{\"model\":1} ")
      (as_bytes "{\"model\":1,\"user_cache_secret\":\"s\"} ") "s" adds_field

replaces_blank :
    inject_user_cache_secret
      (package_of (("user_cache_secret", 0x22 ∷ 0x22 ∷ []) ∷ []))
      blank_body
      "s"
    ≡ some (as_bytes "{\"user_cache_secret\": \"s\"}")
unfolding inject_user_cache_secret top_level_value_range as_bytes bytes_eq
replaces_blank = refl

never_clobbers :
    inject_user_cache_secret (package_of (("user_cache_secret", 49 ∷ []) ∷ [])) blank_body "s"
    ≡ none
unfolding inject_user_cache_secret as_bytes bytes_eq
never_clobbers = refl

abbrev request : Bool → List ℕ → CacheRequest
request is_post body = record {
  is_post = is_post;
  path = "/v1/chat/completions";
  bytes = some body;
  content_length = some 12;
}

provisions :
    provision_request
      (package_of model_field)
      (λ path suffix. true)
      (request true (as_bytes "{\"model\":1} "))
      "s"
    ≡ record {
      is_post = true;
      path = "/v1/chat/completions";
      bytes = some (as_bytes "{\"model\":1,\"user_cache_secret\":\"s\"} ");
      content_length = some 36;
    }
unfolding provision_request as_bytes
provisions = refl

passes_others :
    provision_request (package_of model_field) (λ path suffix. true) (request false blank_body) "s"
    ≡ request false blank_body
unfolding provision_request as_bytes
passes_others = refl

-- Values that are all texts.
abbrev texts : ValuePackage
texts = record { Value = String; string = λ secret. secret; is_blank = is_empty }

abbrev blank_field : List (String × String)
blank_field = ("model", "m") ∷ ("user_cache_secret", "") ∷ []

provision_value-IsProvisioned_example :
    IsProvisioned texts "now" blank_field
      (deferred none)
      (provision_value texts "now" (some blank_field) (deferred none))
provision_value-IsProvisioned_example =
    provision_value-IsProvisioned texts "now" blank_field (deferred none)

sets_blank :
    provision_value texts "now" (some blank_field) (deferred none)
    ≡ (some (("model", "m") ∷ ("user_cache_secret", "now") ∷ []), deferred (some "now"))
unfolding provision_value
sets_blank = refl

does_not_resolve :
    provision_value texts "now" (some (("user_cache_secret", "mine") ∷ [])) (deferred none)
    ≡ (some (("user_cache_secret", "mine") ∷ []), deferred none)
unfolding provision_value
does_not_resolve = refl
