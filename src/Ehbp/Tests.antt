-- ===== src/Ehbp/Tests.antt =====
-- Requests over a toy transport, and the theorems of the channel at it. A client is its key, a request
-- its body, and the enclave answers with the key that the body was sealed to.
use Prim.Native.String.{String}
use text.Mathlib.Text.{◌==◌ as str_eq}
use tinfoil_rs.Prelude.{
  ℕ, ◌<◌, ◌≡◌, ◌≢◌, refl, ap, true, List, [], ◌∷◌, Option, none, some, arith, if◌then◌else◌,
}
use tinfoil_rs.Outcome.{Outcome, ok, err}
use tinfoil_rs.Decides.{Decides}
use tinfoil_rs.Errors.{ehbp}
use tinfoil_rs.Ehbp.{
  EhbpError, key_config_mismatch, other, EhbpChannel, RefreshedState, initial_channel, revoke,
  install_state, reject_if_generation, finish_refresh, set_active,
}
use tinfoil_rs.Ehbp.Url.{Url, IsAllowed, validate_proxy_url, validate_proxy_url-Decides}
use tinfoil_rs.Ehbp.Send.{Transport, Others, new, send, send_replayable, call, unprotected, revoked}
use tinfoil_rs.Ehbp.Changes.{unchanged, changed, installed, Ends, finish_refresh-Ends_fresh}
use tinfoil_rs.Ehbp.Concurrent.{Shared, start, next, install, IsConsistent, Reach-IsConsistent}
use tinfoil_rs.Ehbp.Answered.{AreChanges, IsAnswered, send_replayable-IsAnswered}

make_client : String → Outcome EhbpError String
make_client key = if str_eq key "" then err (other "empty key") else ok key

web : String → String → Url
web scheme host = record {
  scheme = scheme;
  username = "";
  password = none;
  host_str = some host;
  query = none;
  fragment = none;
}

parse_toy : String → Outcome String Url
parse_toy text =
    if str_eq text "http://LocalHost:80"
    then ok (web "http" "LocalHost")
    else if str_eq text "http://[::1]"
    then ok (web "http" "[::1]")
    else ok (web "https" text)

abbrev toy : Transport
toy = record {
  HttpClient = Unit {0};
  Client = String;
  Request = Option (Option (List ℕ));
  Response = String;
  HeaderValue = String;
  body = λ request. request;
  contains_header = λ name request. true;
  header_value = λ text. ok text;
  insert_header = λ name value request. request;
  build_http_client = ok tt;
  parse_url = parse_toy;
  is_loopback_address = λ text. str_eq text "::1";
  with_public_key = λ base_url http_client. make_client;
}

-- The enclave has the key "new".
enclave : String → Option (Option (List ℕ)) → Outcome EhbpError String
enclave key request = if str_eq key "new" then ok key else err (key_config_mismatch "unknown key")

abbrev chat : Option (Option (List ℕ))
chat = some (some (b'a' ∷ []))

abbrev opened : EhbpChannel String
opened = record {
  client = some "old";
  public_key = some "old";
  rejected_public_key = none;
  ground_truth = none;
  generation = 1;
}

abbrev refreshed : RefreshedState
refreshed = record { hpke_public_key = "new"; ground_truth = none }

made :
    new toy "http://LocalHost:80//" "https://enclave" "old"
    ≡ ok (record {
      base_url = "http://LocalHost:80";
      enclave_url = "https://enclave";
      http_client = tt;
      channel = opened;
    })
unfolding new make_client parse_toy web
made = refl

mistyped : new toy "http://LocalHost:80" "https://enclave" "" ≡ err (ehbp "empty key")
unfolding new make_client parse_toy web
mistyped = refl

no_body : send toy "https://enclave" enclave opened none ≡ err unprotected
unfolding send
no_body = refl

after_revoke : send toy "https://enclave" enclave (revoke opened) chat ≡ err revoked
unfolding send revoke
after_revoke = refl

abbrev reopened : EhbpChannel String
reopened = record {
  client = some "new";
  public_key = some "new";
  rejected_public_key = none;
  ground_truth = none;
  generation = 3;
}

abbrev alone : Others String
alone = record {
  before_send = λ c. c;
  during_attempt = λ c. c;
  during_refresh = λ c. c;
  before_retry = λ c. c;
}

-- Another task installs the new key while the refresh waits.
abbrev overtaking : Others String
overtaking = record alone { during_refresh = set_active "new" refreshed }

abbrev stale : RefreshedState
stale = record { hpke_public_key = "stale"; ground_truth = none }

rotated :
    send_replayable toy "https://enclave" make_client
      (ok chat)
      (ok chat)
      enclave
      enclave
      alone
      (some (ok refreshed))
      opened
    ≡ (ok "new", reopened)
unfolding send_replayable make_client enclave
rotated = refl

stale_refresh_overtaken :
    send_replayable toy "https://enclave" make_client
      (ok chat)
      (ok chat)
      enclave
      enclave
      overtaking
      (some (ok stale))
      opened
    ≡ (ok "new", reopened)
unfolding send_replayable make_client enclave set_active
stale_refresh_overtaken = refl

called :
    call toy "https://enclave" make_client
      (ok chat)
      (ok chat)
      enclave
      enclave
      alone
      (some (ok refreshed))
      opened
    ≡ (ok "new", reopened)
unfolding call make_client enclave
called = refl

new_made : make_client "new" ≡ ok "new"
unfolding make_client
new_made = refl

overtaking-AreChanges : AreChanges toy "https://enclave" make_client overtaking
overtaking-AreChanges = record {
  before_send = λ c. (0, omega arith, unchanged);
  during_attempt = λ c. (0, omega arith, unchanged);
  during_refresh =
      λ c. (1, omega arith, changed unchanged (installed "new" refreshed new_made refl));
}

send_replayable-IsAnswered_example :
    IsAnswered toy "https://enclave" make_client
      (ok chat)
      (ok chat)
      enclave
      enclave
      overtaking
      (some (ok stale))
      opened
      "old"
      "new"
send_replayable-IsAnswered_example =
    send_replayable-IsAnswered toy "https://enclave" make_client (ok chat) (ok chat) enclave enclave
      overtaking (some (ok stale)) opened "old" "new" (omega arith) refl overtaking-AreChanges
      (ap (λ p. p.0) stale_refresh_overtaken)

finish_refresh-Ends_fresh_example :
    (g : ℕ) × ((reject_if_generation 1 opened).0 ≡ some g)
    × (0 < 0
        → (finish_refresh make_client g (some (ok refreshed)) (reject_if_generation 1 opened).1).1
          ≡ (reject_if_generation 1 opened).1)
    × Ends make_client "old"
        (some (ok refreshed))
        (reject_if_generation 1 opened).1
        (finish_refresh make_client g (some (ok refreshed)) (reject_if_generation 1 opened).1).1
finish_refresh-Ends_fresh_example =
    finish_refresh-Ends_fresh make_client "old" (some (ok refreshed)) opened
      (reject_if_generation 1 opened).1 1 0 refl refl unchanged (omega arith)

abbrev quiet : Shared String
quiet = record { channel = initial_channel; refreshing = none }

abbrev installed_once : Shared String
installed_once = record quiet { channel = (install_state make_client refreshed initial_channel).1 }

Reach-IsConsistent_example : IsConsistent make_client installed_once.channel
Reach-IsConsistent_example = Reach-IsConsistent make_client (next start (install refreshed refl))

parses : parse_toy "http://[::1]" ≢ Outcome.panic
unfolding parse_toy
parses h = cc

validate_proxy_url-Decides_example :
    Decides
      (validate_proxy_url toy.is_loopback_address parse_toy "http://[::1]")
      ((url : Url) × (parse_toy "http://[::1]" ≡ ok url) × IsAllowed toy.is_loopback_address url)
validate_proxy_url-Decides_example =
    validate_proxy_url-Decides toy.is_loopback_address parse_toy "http://[::1]" parses
