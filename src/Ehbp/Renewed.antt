-- ===== src/Ehbp/Renewed.antt =====
-- The channel after a refresh that succeeds, whatever other tasks do to it (src/ehbp_transport.rs).
use Prim.Native.String.{String}
use text.Mathlib.Text.{◌==◌ as str_eq}
use text.Mathlib.TextEquality.{eq_iff}
use mathlib.Core.Path.{subst}
use tinfoil_rs.Prelude.{
  ℕ, ◌+◌, ◌^◌, ◌<◌, ◌≡◌, ◌≢◌, ◌∙◌, refl, ap, inl, inr, Option, none, some, arith, ==_iff,
  Bool-cases,
}
use tinfoil_rs.Outcome.{Outcome, ok, err, panic, Outcome-cases}
use tinfoil_rs.Errors.{Error}
use tinfoil_rs.Ehbp.{
  EhbpError, EhbpChannel, RefreshedState, is_key, set_active, reject, reject_if_generation,
  install_refreshed, finish_refresh, refresh_after_mismatch,
}
use tinfoil_rs.Ehbp.Changes.{
  Changes, unchanged, changed, Changes-generation_ne, finish_refresh-stale, reject_if_generation-eq,
  reject_bound, reject-key,
}

module _ {Client : Type 0} (make : String → Outcome EhbpError Client) where
  -- What other tasks do is some of the changes of the channel, fewer than 2^63 of them.
  abbrev pub Interferes : (EhbpChannel Client → EhbpChannel Client) → Type 0
  Interferes f = (c : EhbpChannel Client) → (n : ℕ) × (n < 2 ^ 63) × Changes make c n (f c)

  pub Changes-append :
      {a b c : EhbpChannel Client} {n m : ℕ}
      → Changes make a n b
      → Changes make b m c
      → Changes make a (n + m) c
  Changes-append {a} {b} {n = n} first unchanged =
      let same : n ≡ n + 0 = omega arith in subst (λ k. Changes make a k b) same first
  Changes-append {a} {c = c} {n = n} first (changed {n = m} more step) =
      let same : n + m + 1 ≡ n + (m + 1) = omega arith in
      subst (λ k. Changes make a k c) same (changed (Changes-append first more) step)

  -- The channel that a refresh leaves when it succeeds: other tasks have changed it before the key
  -- `k` could be rejected, or after that, and it is as they left it; or nobody has, and it is open
  -- with the refresher's key, which is not `k`.
  pub data Renewed (k : String) (meanwhile : EhbpChannel Client → EhbpChannel Client)
      (refresher : Option (Outcome Error RefreshedState)) (channel at after : EhbpChannel Client)
      : Type 0 where
    changed_before :
        at.generation ≢ channel.generation
        → after ≡ at
        → Renewed k meanwhile refresher channel at after
    changed_meanwhile :
        {n : ℕ}
        → 0 < n
        → Changes make (reject channel) n (meanwhile (reject channel))
        → after ≡ meanwhile (reject channel)
        → Renewed k meanwhile refresher channel at after
    refreshed :
        {client : Client} {state : RefreshedState}
        → refresher ≡ some (ok state)
        → make state.hpke_public_key ≡ ok client
        → state.hpke_public_key ≢ k
        → after ≡ set_active client state (reject channel)
        → Renewed k meanwhile refresher channel at after

  -- A refresh that nobody overtakes and that succeeds.
  finish_refresh-ok :
      (k : String) (refresher : Option (Outcome Error RefreshedState))
      (channel : EhbpChannel Client)
      → channel.rejected_public_key ≡ some k
      → (finish_refresh make channel.generation refresher channel).0 ≡ ok tt
      → (client : Client) × (state : RefreshedState) × (refresher ≡ some (ok state))
        × (make state.hpke_public_key ≡ ok client)
        × (state.hpke_public_key ≢ k)
        × ((finish_refresh make channel.generation refresher channel).1
            ≡ set_active client state channel)
  unfolding finish_refresh install_refreshed is_key
  finish_refresh-ok k none channel was h = cc h
  finish_refresh-ok k (some (err e)) channel was h = cc h
  finish_refresh-ok k (some panic) channel was h = cc h
  finish_refresh-ok k (some (ok state)) channel was h =
      elim (Outcome-cases (make state.hpke_public_key)) [
        | inr (inl (e, fails)) ↦ absurd (ground (arith, h, fails))
        | inr (inr panics) ↦ absurd (ground (arith, h, panics))
        | inl (client, made) ↦ elim (Bool-cases (str_eq k state.hpke_public_key)) [
          | inl again ↦
              absurd
                (ground (arith, h, made, was, again, ==_iff channel.generation channel.generation))
          | inr differs ↦ (
            client,
            state,
            refl,
            made,
            λ e. ground (arith, e, differs, eq_iff k state.hpke_public_key),
            ground (arith, made, was, differs, ==_iff channel.generation channel.generation),
          )
        ]
      ]

  finish_refresh-Renewed :
      (k : String) (meanwhile : EhbpChannel Client → EhbpChannel Client)
      (refresher : Option (Outcome Error RefreshedState)) (channel at : EhbpChannel Client)
      {overtaken : EhbpChannel Client} {n : ℕ}
      → channel.public_key ≡ some k
      → overtaken ≡ meanwhile (reject channel)
      → n < 2 ^ 64
      → Changes make (reject channel) n overtaken
      → (finish_refresh make (reject channel).generation refresher overtaken).0 ≡ ok tt
      → Renewed k meanwhile refresher channel at
          (finish_refresh make (reject channel).generation refresher overtaken).1
  finish_refresh-Renewed k meanwhile refresher channel at is_k same small unchanged h =
      let (client, state, answered, made, differs, after) =
        finish_refresh-ok k refresher (reject channel) (reject-key make channel is_k) h in
      refreshed answered made differs after
  finish_refresh-Renewed k meanwhile refresher channel at {overtaken} is_k same small
        (changed {n = m} changes step) h =
      let all : Changes make (reject channel) (m + 1) overtaken = changed changes step in
      let stale =
        finish_refresh-stale make (reject channel).generation refresher overtaken
          (Changes-generation_ne make (reject_bound make channel) (omega arith) small all) in
      changed_meanwhile {n = m + 1} (omega arith)
        (subst (Changes make (reject channel) (m + 1)) same all) (stale ∙ same)

  reject_if_generation-stale :
      (seen : ℕ) (channel : EhbpChannel Client)
      → channel.generation ≢ seen
      → reject_if_generation seen channel ≡ (none, channel)
  unfolding reject_if_generation
  reject_if_generation-stale seen channel differs = ground (arith, ==_iff channel.generation seen)

  refresh_after_mismatch-stale :
      (seen : ℕ) (meanwhile : EhbpChannel Client → EhbpChannel Client)
      (refresher : Option (Outcome Error RefreshedState)) (at : EhbpChannel Client)
      → at.generation ≢ seen
      → refresh_after_mismatch make seen meanwhile refresher at ≡ (ok tt, at)
  unfolding refresh_after_mismatch
  refresh_after_mismatch-stale seen meanwhile refresher at differs =
      ap
        (λ p. elim p.0 [
          | none ↦ (ok tt, p.1)
          | some g ↦ finish_refresh make g refresher (meanwhile p.1)
        ])
        (reject_if_generation-stale seen at differs)

  refresh_after_mismatch-eq :
      (meanwhile : EhbpChannel Client → EhbpChannel Client)
      (refresher : Option (Outcome Error RefreshedState)) (channel : EhbpChannel Client)
      → refresh_after_mismatch make channel.generation meanwhile refresher channel
        ≡ finish_refresh make (reject channel).generation refresher (meanwhile (reject channel))
  unfolding refresh_after_mismatch
  refresh_after_mismatch-eq meanwhile refresher channel =
      ap
        (λ p. elim p.0 [
          | none ↦ (ok tt, p.1)
          | some g ↦ finish_refresh make g refresher (meanwhile p.1)
        ])
        (reject_if_generation-eq make channel.generation channel refl)

  -- `at` is the channel when the refusal of the key `k` is known, some changes after `channel`.
  pub refresh_after_mismatch-Renewed :
      (k : String) (meanwhile : EhbpChannel Client → EhbpChannel Client)
      (refresher : Option (Outcome Error RefreshedState)) {channel at : EhbpChannel Client} {n : ℕ}
      → channel.generation < 2 ^ 64
      → channel.public_key ≡ some k
      → Interferes meanwhile
      → n < 2 ^ 64
      → Changes make channel n at
      → (refresh_after_mismatch make channel.generation meanwhile refresher at).0 ≡ ok tt
      → Renewed k meanwhile refresher channel at
          (refresh_after_mismatch make channel.generation meanwhile refresher at).1
  unfolding refresh_after_mismatch
  refresh_after_mismatch-Renewed k meanwhile refresher {channel} low is_k others small unchanged h =
      let (m, few, changes) = others (reject channel) in
      let begun = refresh_after_mismatch-eq meanwhile refresher channel in
      rw begun (
        finish_refresh-Renewed k meanwhile refresher channel channel is_k refl (omega arith) changes
          (rw begun at h))
  refresh_after_mismatch-Renewed k meanwhile refresher {channel} {at} low is_k others small
        (changed {n = m} changes step) h =
      let differs = Changes-generation_ne make low (omega arith) small (changed changes step) in
      rw (refresh_after_mismatch-stale channel.generation meanwhile refresher at differs)
        (changed_before differs refl)
