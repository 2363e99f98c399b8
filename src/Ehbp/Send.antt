-- ===== src/Ehbp/Send.antt =====
-- Sending a request through the EHBP proxy, with one retry after a rotation of the key
-- (src/ehbp_transport.rs). The types of the HTTP and EHBP packages and what the code calls of them
-- are parameters; so is what executing a request yields, each time.
use Prim.Native.String.{String}
use Prim.Native.String
use tinfoil_rs.Prelude.{ℕ, Bool, true, false, ◌&&◌, List, [], ◌∷◌, Option, none, some}
use tinfoil_rs.Outcome.{Outcome, ok, err, panic, ◌>>=◌, ◌>>◌, reject_if, ok_or}
use tinfoil_rs.Text.{trim_end_matches}
use tinfoil_rs.Errors.{
  Error, OpenAiError, configuration, api, ehbp, ehbp_key_mismatch, http, boxed, reqwest,
}
use tinfoil_rs.Ehbp.{
  EhbpError, EhbpChannel, RefreshedState, with_ehbp_error, initial_channel, rekey,
  refresh_after_mismatch,
}
use tinfoil_rs.Ehbp.Url.{Url, validate_proxy_url}

-- `body` is the body of a request, and its bytes unless it is a stream.
pub record Transport : Type 1 where
  pub HttpClient : Type 0
  pub Client : Type 0
  pub Request : Type 0
  pub Response : Type 0
  pub HeaderValue : Type 0
  pub body : Request → Option (Option (List ℕ))
  pub contains_header : String → Request → Bool
  pub header_value : String → Outcome String HeaderValue
  pub insert_header : String → HeaderValue → Request → Request
  pub build_http_client : Outcome String HttpClient
  pub parse_url : String → Outcome String Url
  pub is_loopback_address : String → Bool
  pub with_public_key : String → HttpClient → String → Outcome EhbpError Client

abbrev pub enclave_url_header : String
enclave_url_header = "x-tinfoil-enclave-url"

abbrev pub unprotected : Error
unprotected = ehbp (
    String.◌++◌ "authenticated bodyless requests cannot use the EHBP proxy "
      "because their responses would not be encrypted")

abbrev pub revoked : Error
revoked = ehbp "EHBP transport has been revoked; re-run verify() before sending requests"

-- `map_err` of an error that is printed behind a text.
unfoldable pub with_text :
    {A : Type 0} → (String → Error) → String → Outcome String A → Outcome Error A
with_text kind prefix (ok a) = ok a
with_text kind prefix (err text) = err (kind (String.◌++◌ prefix text))
with_text kind prefix panic = panic

abbrev pub is_nil : {A : Type 0} → List A → Bool
is_nil [] = true
is_nil (x ∷ xs) = false

-- `is_none_or` over the body.
unfoldable pub is_empty_body : Option (Option (List ℕ)) → Bool
is_empty_body none = true
is_empty_body (some none) = false
is_empty_body (some (some bytes)) = is_nil bytes

unfoldable pub into_openai_error : Error → OpenAiError
into_openai_error (api inner) = inner
into_openai_error (http inner) = reqwest inner
into_openai_error e = boxed e

-- The conversions of the two kinds of errors.
unfoldable pub from_openai : {A : Type 0} → Outcome OpenAiError A → Outcome Error A
from_openai (ok a) = ok a
from_openai (err e) = err (api e)
from_openai panic = panic

unfoldable pub to_openai : {A : Type 0} → Outcome Error A → Outcome OpenAiError A
unfolding into_openai_error
to_openai (ok a) = ok a
to_openai (err e) = err (into_openai_error e)
to_openai panic = panic

-- What the tasks that share the channel do to it at the awaits and between the locks of one request:
-- after its generation is read and before the first attempt reads the channel; from then on until
-- the refresh rejects the key; from there until the refresh ends; and then until the second attempt
-- reads the channel.
pub record Others (Client : Type 0) : Type 0 where
  pub before_send : EhbpChannel Client → EhbpChannel Client
  pub during_attempt : EhbpChannel Client → EhbpChannel Client
  pub during_refresh : EhbpChannel Client → EhbpChannel Client
  pub before_retry : EhbpChannel Client → EhbpChannel Client

module _ (t : Transport) where
  open t use {
    HttpClient, Client, Request, Response, HeaderValue, body, contains_header, header_value,
    insert_header, build_http_client, parse_url, is_loopback_address, with_public_key,
  }

  pub record EhbpProxy : Type 0 where
    pub base_url : String
    pub enclave_url : String
    pub http_client : HttpClient
    pub channel : EhbpChannel Client

  -- The outcome of the last call of `new` and the channel after it.
  unfoldable pub with_channel :
      String
      → String
      → HttpClient
      → Outcome Error (Unit {0}) × EhbpChannel Client
      → Outcome Error EhbpProxy
  with_channel base_url enclave_url http_client (outcome, channel) = do
    outcome
    ok (record {
      base_url = base_url;
      enclave_url = enclave_url;
      http_client = http_client;
      channel = channel;
    })

  -- `EhbpProxy::new`.
  unfoldable pub new : String → String → String → Outcome Error EhbpProxy
  unfolding validate_proxy_url with_text rekey with_channel initial_channel trim_end_matches
  new proxy_url enclave_url hpke_public_key_hex = do
    let base_url = trim_end_matches b'/' proxy_url
    validate_proxy_url is_loopback_address parse_url base_url
    http_client ← with_text configuration "failed to build proxy HTTP client: " build_http_client
    with_channel base_url enclave_url http_client
        (rekey (with_public_key base_url http_client) hpke_public_key_hex initial_channel)

  module _ (enclave_url : String) where
    unfoldable pub send :
        (Client → Request → Outcome EhbpError Response)
        → EhbpChannel Client
        → Request
        → Outcome Error Response
    unfolding with_text with_ehbp_error is_empty_body
    send execute channel request = do
      reject_if (is_empty_body (body request) && contains_header "authorization" request)
          unprotected
      value ← with_text ehbp "invalid enclave URL header: " (header_value enclave_url)
      client ←
          ok_or channel.client
            (ehbp "EHBP transport has been revoked; re-run verify() before sending requests")
      with_ehbp_error (execute client (insert_header enclave_url_header value request))

    module _ (make : String → Outcome EhbpError Client) where
      -- `retry` is the second attempt, over the channel by then.
      unfoldable pub retry_after_mismatch :
          ℕ
          → Outcome Error Response
          → Others Client
          → Option (Outcome Error RefreshedState)
          → (EhbpChannel Client → Outcome Error Response)
          → EhbpChannel Client
          → Outcome Error Response × EhbpChannel Client
      unfolding refresh_after_mismatch
      retry_after_mismatch seen (err (ehbp_key_mismatch text)) others refresher retry channel =
          let (refreshed, channel') =
            refresh_after_mismatch make seen others.during_refresh refresher channel in
          (refreshed >> retry (others.before_retry channel'), channel')
      retry_after_mismatch seen first_attempt others refresher retry channel =
          (first_attempt, channel)

      -- `build` and `execute` are what the two attempts get of the caller and of the network, and
      -- `others` is what other tasks do to the channel meanwhile. With the answer comes the channel
      -- after the refresh, or after the one attempt.
      unfoldable pub send_replayable :
          (build build_again : Outcome Error Request)
          (execute execute_again : Client → Request → Outcome EhbpError Response)
          → Others Client
          → Option (Outcome Error RefreshedState)
          → EhbpChannel Client
          → Outcome Error Response × EhbpChannel Client
      unfolding retry_after_mismatch send
      send_replayable build build_again execute execute_again others refresher channel =
          elim build [
            | err e ↦ (err e, channel)
            | panic ↦ (panic, channel)
            | ok request ↦
                let sent_over = others.before_send channel in
                retry_after_mismatch channel.generation (send execute sent_over request) others
                  refresher (λ channel'. build_again >>= send execute_again channel')
                  (others.during_attempt sent_over)
          ]

      -- `EhbpTransport::call`, over a factory of requests.
      unfoldable pub call :
          (build build_again : Outcome OpenAiError Request)
          (execute execute_again : Client → Request → Outcome EhbpError Response)
          → Others Client
          → Option (Outcome Error RefreshedState)
          → EhbpChannel Client
          → Outcome OpenAiError Response × EhbpChannel Client
      unfolding retry_after_mismatch send from_openai to_openai
      call build build_again execute execute_again others refresher channel = elim build [
        | err e ↦ (err e, channel)
        | panic ↦ (panic, channel)
        | ok request ↦
            let sent_over = others.before_send channel in
            let (answer, channel') =
              retry_after_mismatch channel.generation (send execute sent_over request) others
                refresher (λ channel'. from_openai build_again >>= send execute_again channel')
                (others.during_attempt sent_over) in
            (to_openai answer, channel')
      ]
