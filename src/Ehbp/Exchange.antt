-- ===== src/Ehbp/Exchange.antt =====
-- When an attempt at a request is answered (src/ehbp_transport.rs).
use Prim.Native.String.{String}
use tinfoil_rs.Prelude.{◌≡◌, ◌↔◌, refl, Bool, true, false, ◌&&◌, Option, none, some}
use tinfoil_rs.Outcome.{Outcome, ok, err, panic, ◌>>=◌, ◌>>◌, reject_if, ok_or, ok_injective}
use tinfoil_rs.Errors.{Error, ehbp, ehbp_key_mismatch}
use tinfoil_rs.Ehbp.{EhbpError, EhbpChannel, with_ehbp_error}
use tinfoil_rs.Ehbp.Send.{
  Transport, enclave_url_header, with_text, is_empty_body, unprotected, revoked, send,
}

with_ehbp_error_iff :
    {A : Type 0} (m : Outcome EhbpError A) (a : A) → (with_ehbp_error m ≡ ok a) ↔ (m ≡ ok a)
unfolding with_ehbp_error
with_ehbp_error_iff (ok b) a = ((λ h. cc), λ h. cc)
with_ehbp_error_iff (err e) a = ((λ h. cc), λ h. cc)
with_ehbp_error_iff panic a = ((λ h. cc), λ h. cc)

some_injective : {A : Type 0} {a b : A} → some a ≡ some b → a ≡ b
some_injective h = cc

-- The steps of `send`, over what each of them finds.
steps_iff :
    {V C R : Type 0} (is_refused : Bool) (named : Outcome String V) (client : Option C)
    (k : V → C → Outcome EhbpError R) (r : R) (no_body closed : Error) (kind : String → Error)
    (prefix : String)
    → ((do
      reject_if is_refused no_body
      value ← with_text kind prefix named
      found ← ok_or client closed
      with_ehbp_error (k value found))
        ≡ ok r)
      ↔ ((is_refused ≡ false)
          × ((value : V) × (named ≡ ok value)
              × ((found : C) × (client ≡ some found) × (k value found ≡ ok r))))
unfolding with_text
steps_iff true named client k r _ _ _ _ = ((λ h. cc), λ h. cc h.0)
steps_iff false (err e) client k r _ _ _ _ = ((λ h. cc), λ h. cc h.1.1)
steps_iff false panic client k r _ _ _ _ = ((λ h. cc), λ h. cc h.1.1)
steps_iff false (ok value) none k r _ _ _ _ = ((λ h. cc), λ h. cc h.1.2.1)
steps_iff false (ok value) (some client) k r _ _ _ _ = (
  λ h. (refl, (value, refl, (client, refl, (with_ehbp_error_iff _ r).0 h))),
  λ (_, (_, same, (_, same', h))).
      (with_ehbp_error_iff _ r).1 (rw (ok_injective same, some_injective same') h),
)

module _ (t : Transport) (enclave_url : String) where
  open t use {
    Client, Request, Response, HeaderValue, body, contains_header, header_value, insert_header,
  }

  -- The request may be sent: it has a body, or no credentials of the caller.
  abbrev pub MayBeSent : Request → Type 0
  MayBeSent request =
      (is_empty_body (body request) && contains_header "authorization" request) ≡ false

  -- The client of the channel executes the request, with the header that names the enclave, and
  -- answers it.
  abbrev pub IsExchanged :
      (Client → Request → Outcome EhbpError Response)
      → EhbpChannel Client
      → Request
      → Response
      → Type 0
  IsExchanged execute channel request response =
      MayBeSent request
      × ((value : HeaderValue) × (header_value enclave_url ≡ ok value)
          × ((client : Client) × (channel.client ≡ some client)
              × (execute client (insert_header enclave_url_header value request) ≡ ok response)))

  -- An attempt answers exactly what such an exchange answers.
  pub send_iff :
      (execute : Client → Request → Outcome EhbpError Response) (channel : EhbpChannel Client)
      (request : Request) (response : Response)
      → (send t enclave_url execute channel request ≡ ok response)
        ↔ IsExchanged execute channel request response
  unfolding send
  send_iff execute channel request response =
      steps_iff _ (header_value enclave_url) channel.client
        (λ value client. execute client (insert_header enclave_url_header value request)) response
        unprotected revoked ehbp "invalid enclave URL header: "

  -- An attempt that the enclave refuses because its key has changed.
  abbrev pub IsRefused :
      (Client → Request → Outcome EhbpError Response) → EhbpChannel Client → Request → Type 0
  IsRefused execute channel request =
      (text : String) × (send t enclave_url execute channel request ≡ err (ehbp_key_mismatch text))
