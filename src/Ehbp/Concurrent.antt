-- ===== src/Ehbp/Concurrent.antt =====
-- The channel under every interleaving of the tasks that share it (src/ehbp_transport.rs): a lock
-- allows one refresh at a time, and between its rejection of a key and its end the channel may be
-- changed by others.
use Prim.Native.String.{String}
use tinfoil_rs.Prelude.{
  ℕ, ◌^◌, ◌<◌, ◌≡◌, ◌⊎◌, refl, inl, inr, Option, none, some, arith, ◌==◌, Bool-cases,
}
use tinfoil_rs.Outcome.{Outcome, ok, err, panic, Outcome-cases}
use tinfoil_rs.Errors.{Error}
use tinfoil_rs.Ehbp.{
  EhbpError, EhbpChannel, RefreshedState, is_key, set_active, clear, reject, revoke,
  initial_channel, install_state, install_refreshed, reject_if_generation, finish_refresh,
}

-- `refreshing` is the generation that the refresh holding the lock has rejected.
pub record Shared (Client : Type 0) : Type 0 where
  pub channel : EhbpChannel Client
  pub refreshing : Option ℕ

module _ {Client : Type 0} (with_public_key : String → Outcome EhbpError Client) where
  -- One step of a task. `install` is `rekey` or `install_verified_state`; `abandon` is a refresh
  -- whose future is dropped.
  pub data Step (s t : Shared Client) : Type 0 where
    install :
        (refreshed : RefreshedState)
        → t ≡ record s { channel = (install_state with_public_key refreshed s.channel).1 }
        → Step s t
    withdraw : t ≡ record s { channel = revoke s.channel } → Step s t
    begin :
        (seen : ℕ)
        → s.refreshing ≡ none
        → t ≡ record {
          channel = (reject_if_generation seen s.channel).1;
          refreshing = (reject_if_generation seen s.channel).0;
        }
        → Step s t
    finish :
        (generation : ℕ) (refresher : Option (Outcome Error RefreshedState))
        → s.refreshing ≡ some generation
        → t ≡ record {
          channel = (finish_refresh with_public_key generation refresher s.channel).1;
          refreshing = none;
        }
        → Step s t
    abandon : t ≡ record s { refreshing = none } → Step s t

  pub data Reach : Shared Client → Type 0 where
    start : Reach (record { channel = initial_channel; refreshing = none })
    next : {s t : Shared Client} → Reach s → Step s t → Reach t

  -- The client is one for the key that the channel states.
  abbrev pub IsBound : Option Client → Option String → Type 0
  IsBound none none = Unit
  IsBound (some client) (some key) = with_public_key key ≡ ok client
  IsBound none (some key) = ⊥
  IsBound (some client) none = ⊥

  -- An open channel has a client for its key and no rejected key; a closed one has no ground truth.
  pub record IsConsistent (channel : EhbpChannel Client) : Type 0 where
    pub bound : IsBound channel.client channel.public_key
    pub closed_has_no_truth : channel.client ≡ none → channel.ground_truth ≡ none
    pub open_or_not_rejected : (channel.client ≡ none) ⊎ (channel.rejected_public_key ≡ none)
    pub generation_fits : channel.generation < 2 ^ 64

  initial-IsConsistent : IsConsistent initial_channel
  unfolding initial_channel
  initial-IsConsistent = record {
    bound = tt;
    closed_has_no_truth = λ _. refl;
    open_or_not_rejected = inl refl;
    generation_fits = omega arith;
  }

  set_active-IsConsistent :
      (client : Client) (refreshed : RefreshedState) (channel : EhbpChannel Client)
      → with_public_key refreshed.hpke_public_key ≡ ok client
      → IsConsistent (set_active client refreshed channel)
  unfolding set_active
  set_active-IsConsistent client refreshed channel made = record {
    bound = made;
    closed_has_no_truth = λ h. cc;
    open_or_not_rejected = inr refl;
    generation_fits = omega arith;
  }

  clear-IsConsistent : (channel : EhbpChannel Client) → IsConsistent (clear channel)
  unfolding clear
  clear-IsConsistent channel = record {
    bound = tt;
    closed_has_no_truth = λ _. refl;
    open_or_not_rejected = inl refl;
    generation_fits = omega arith;
  }

  reject-IsConsistent : (channel : EhbpChannel Client) → IsConsistent (reject channel)
  unfolding reject
  reject-IsConsistent channel = record {
    bound = tt;
    closed_has_no_truth = λ _. refl;
    open_or_not_rejected = inl refl;
    generation_fits = omega arith;
  }

  install_state-IsConsistent :
      (refreshed : RefreshedState) {channel : EhbpChannel Client}
      → IsConsistent channel
      → IsConsistent (install_state with_public_key refreshed channel).1
  unfolding install_state
  install_state-IsConsistent refreshed {channel} h =
      elim (Outcome-cases (with_public_key refreshed.hpke_public_key)) [
        | inl (client, made) ↦
            rw (made, install_state) (set_active-IsConsistent client refreshed channel made)
        | inr (inl (e, made)) ↦ rw (made, install_state) h
        | inr (inr made) ↦ rw (made, install_state) h
      ]

  reject_if_generation-IsConsistent :
      (seen : ℕ) {channel : EhbpChannel Client}
      → IsConsistent channel
      → IsConsistent (reject_if_generation seen channel).1
  unfolding reject_if_generation
  reject_if_generation-IsConsistent seen {channel} h =
      elim (Bool-cases (channel.generation == seen)) [
        | inl same ↦ rw same (reject-IsConsistent channel)
        | inr other ↦ rw other h
      ]

  install_refreshed-IsConsistent :
      (g : ℕ) (client : Client) (refreshed : RefreshedState) {channel : EhbpChannel Client}
      → with_public_key refreshed.hpke_public_key ≡ ok client
      → IsConsistent channel
      → IsConsistent (install_refreshed with_public_key g client refreshed channel).1
  unfolding install_refreshed
  install_refreshed-IsConsistent g client refreshed {channel} made h =
      elim (Bool-cases (channel.generation == g)) [
        | inr other ↦ rw other h
        | inl same ↦
            rw same
              (elim (Bool-cases (is_key channel.rejected_public_key refreshed.hpke_public_key)) [
                | inl again ↦ rw again (clear-IsConsistent channel)
                | inr differs ↦ rw differs (set_active-IsConsistent client refreshed channel made)
              ])
      ]

  finish_refresh-IsConsistent :
      (g : ℕ) (refresher : Option (Outcome Error RefreshedState)) {channel : EhbpChannel Client}
      → IsConsistent channel
      → IsConsistent (finish_refresh with_public_key g refresher channel).1
  unfolding finish_refresh
  finish_refresh-IsConsistent g none h = h
  finish_refresh-IsConsistent g (some (err e)) h = h
  finish_refresh-IsConsistent g (some panic) h = h
  finish_refresh-IsConsistent g (some (ok refreshed)) h =
      elim (Outcome-cases (with_public_key refreshed.hpke_public_key)) [
        | inl (client, made) ↦
            rw (made, finish_refresh) (install_refreshed-IsConsistent g client refreshed made h)
        | inr (inl (e, made)) ↦ rw (made, finish_refresh) h
        | inr (inr made) ↦ rw (made, finish_refresh) h
      ]

  Step-IsConsistent :
      {s t : Shared Client} → Step s t → IsConsistent s.channel → IsConsistent t.channel
  unfolding revoke
  Step-IsConsistent (install refreshed same) h = rw same (install_state-IsConsistent refreshed h)
  Step-IsConsistent {s = s} (withdraw same) h = rw same (clear-IsConsistent s.channel)
  Step-IsConsistent (begin seen free same) h = rw same (reject_if_generation-IsConsistent seen h)
  Step-IsConsistent (finish g refresher held same) h =
      rw same (finish_refresh-IsConsistent g refresher h)
  Step-IsConsistent (abandon same) h = rw same h

  -- In every state that the tasks reach from a new channel by any interleaving of installations,
  -- revocations and refreshes, an open channel has a client for the key that it states and no
  -- rejected key, a closed one has neither a key in use nor a ground truth, and the generation fits
  -- in 64 bits.
  pub Reach-IsConsistent : {s : Shared Client} → Reach s → IsConsistent s.channel
  Reach-IsConsistent start = initial-IsConsistent
  Reach-IsConsistent (next before step) = Step-IsConsistent step (Reach-IsConsistent before)
