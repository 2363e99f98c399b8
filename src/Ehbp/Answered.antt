-- ===== src/Ehbp/Answered.antt =====
-- A request that is answered, over a channel that other tasks change (src/ehbp_transport.rs).
use Prim.Native.String.{String}
use tinfoil_rs.Prelude.{ℕ, ◌^◌, ◌<◌, ◌≡◌, ◌⊎◌, refl, inl, inr, Option, some, arith}
use tinfoil_rs.Outcome.{Outcome, ok, err, ◌>>=◌, ◌>>◌, Outcome-cases}
use tinfoil_rs.Answers.{>>=-parts}
use tinfoil_rs.Errors.{Error, ehbp_key_mismatch}
use tinfoil_rs.Ehbp.{EhbpError, EhbpChannel, RefreshedState, refresh_after_mismatch}
use tinfoil_rs.Ehbp.Send.{Transport, Others, send, retry_after_mismatch, send_replayable}
use tinfoil_rs.Ehbp.Exchange.{IsExchanged, IsRefused, send_iff}
use tinfoil_rs.Ehbp.Renewed.{Interferes, Changes-append, Renewed, refresh_after_mismatch-Renewed}

module _ (t : Transport) (enclave_url : String) (make : String → Outcome EhbpError t.Client) where
  open t use {Client, Request, Response}

  -- All that other tasks do is by changes of the channel.
  pub record AreChanges (others : Others Client) : Type 0 where
    pub before_send : Interferes make others.before_send
    pub during_attempt : Interferes make others.during_attempt
    pub during_refresh : Interferes make others.during_refresh

  retry_after_mismatch-parts :
      {response : Response} (seen : ℕ) (attempt : Outcome Error Response) (others : Others Client)
      (refresher : Option (Outcome Error RefreshedState))
      (retry : EhbpChannel Client → Outcome Error Response) (channel : EhbpChannel Client)
      → (retry_after_mismatch t enclave_url make seen attempt others refresher retry channel).0
        ≡ ok response
      → (attempt ≡ ok response)
        ⊎ ((text : String) × (attempt ≡ err (ehbp_key_mismatch text))
            × (((refresh_after_mismatch make seen others.during_refresh refresher channel).0
                  >> retry (
                      others.before_retry
                        (refresh_after_mismatch make seen others.during_refresh refresher
                          channel).1))
                ≡ ok response))
  unfolding retry_after_mismatch
  retry_after_mismatch-parts seen (err (ehbp_key_mismatch text)) others refresher retry channel h =
      inr (text, refl, h)
  retry_after_mismatch-parts seen attempt others refresher retry channel h = inl h

  module _ (build build_again : Outcome Error Request)
      (execute execute_again : Client → Request → Outcome EhbpError Response)
      (others : Others Client) (refresher : Option (Outcome Error RefreshedState))
      (channel : EhbpChannel Client) where
    abbrev sent_over : EhbpChannel Client
    sent_over = others.before_send channel

    abbrev when_refused : EhbpChannel Client
    when_refused = others.during_attempt sent_over

    -- How a request over a channel with the key `k` comes by its response: from the first attempt,
    -- or from a second one after the first was refused and the refresh has succeeded.
    pub data IsAnswered (k : String) (response : Response) : Type 0 where
      at_once :
          {request : Request}
          → build ≡ ok request
          → IsExchanged t enclave_url execute sent_over request response
          → IsAnswered k response
      again :
          {request rebuilt : Request} {after : EhbpChannel Client}
          → build ≡ ok request
          → IsRefused t enclave_url execute sent_over request
          → Renewed make k others.during_refresh refresher channel when_refused after
          → build_again ≡ ok rebuilt
          → IsExchanged t enclave_url execute_again (others.before_retry after) rebuilt response
          → IsAnswered k response

    retry-IsAnswered :
        (k : String) (request : Request) (response : Response)
        → build ≡ ok request
        → IsRefused t enclave_url execute sent_over request
        → channel.generation < 2 ^ 64
        → channel.public_key ≡ some k
        → AreChanges others
        → ((refresh_after_mismatch make channel.generation others.during_refresh refresher
              when_refused).0
            >> (build_again
                >>= send t enclave_url execute_again (
                    others.before_retry
                      (refresh_after_mismatch make channel.generation others.during_refresh
                        refresher when_refused).1)))
          ≡ ok response
        → IsAnswered k response
    retry-IsAnswered k request response built refused low is_k changes h =
        let (_, succeeds, h1) =
          >>=-parts
            (refresh_after_mismatch make channel.generation others.during_refresh refresher
              when_refused).0
            h in
        let (rebuilt, built_again, h2) = >>=-parts build_again h1 in
        let (n, few, before) = changes.before_send channel in
        let (m, few', during) = changes.during_attempt sent_over in
        again built refused
          (refresh_after_mismatch-Renewed make k others.during_refresh refresher low is_k
            changes.during_refresh (omega arith) (Changes-append make before during) succeeds)
          built_again ((send_iff t enclave_url execute_again _ rebuilt response).0 h2)

    -- A request begins over a channel with the key `k`; until its refresh ends, other tasks change the
    -- channel by its own changes, fewer than 2^63 times at each place, and after that in any way. If
    -- it gets a response, this is from one exchange with the client of the channel by then: of the
    -- first attempt, or of the second one, after the first was refused because the enclave's key has
    -- changed. The second attempt is made over what other tasks then make of one of two channels: one
    -- that they have changed since the request began and that the refresh has left as it was, or,
    -- where they have not, one that the refresh has opened with the refresher's key, which is not `k`.
    pub send_replayable-IsAnswered :
        (k : String) (response : Response)
        → channel.generation < 2 ^ 64
        → channel.public_key ≡ some k
        → AreChanges others
        → (send_replayable t enclave_url make build build_again execute execute_again others
            refresher channel).0
          ≡ ok response
        → IsAnswered k response
    unfolding send_replayable
    send_replayable-IsAnswered k response low is_k changes h = elim (Outcome-cases build) [
      | inr (inl (e, fails)) ↦ absurd (ground (arith, h, fails))
      | inr (inr panics) ↦ absurd (ground (arith, h, panics))
      | inl (request, built) ↦
          elim (retry_after_mismatch-parts channel.generation
            (send t enclave_url execute sent_over request) others refresher _ when_refused
            (rw (send_replayable, built) at h)) [
              | inl answered ↦
                  at_once built
                    ((send_iff t enclave_url execute sent_over request response).0 answered)
              | inr (text, refused, h') ↦
                  retry-IsAnswered k request response built (text, refused) low is_k changes h'
            ]
    ]
