-- ===== src/Ehbp/Changes.antt =====
-- Every change of the channel counts its generation up, so a refresh that is overtaken by another
-- change installs nothing (src/ehbp_transport.rs).
use Prim.Native.String.{String}
use text.Mathlib.Text.{◌==◌ as str_eq}
use text.Mathlib.TextEquality.{eq_iff}
use mathlib.Core.Path.{subst}
use tinfoil_rs.Prelude.{
  ℕ, ◌+◌, ◌%◌, ◌^◌, ◌<◌, ◌≡◌, ◌≢◌, refl, inl, inr, Option, none, some, arith, ◌==◌, ==_iff,
  Bool-cases,
}
use tinfoil_rs.Outcome.{Outcome, ok, err, panic, Outcome-cases}
use tinfoil_rs.Errors.{Error}
use tinfoil_rs.Ehbp.{
  EhbpError, EhbpChannel, RefreshedState, next_generation, is_key, set_active, clear, reject,
  reject_if_generation, install_refreshed, finish_refresh,
}

module _ {Client : Type 0} (with_public_key : String → Outcome EhbpError Client) where
  -- What an operation does to the channel, if it does anything.
  pub data Change (before after : EhbpChannel Client) : Type 0 where
    installed :
        (client : Client) (refreshed : RefreshedState)
        → with_public_key refreshed.hpke_public_key ≡ ok client
        → after ≡ set_active client refreshed before
        → Change before after
    cleared : after ≡ clear before → Change before after
    rejected : after ≡ reject before → Change before after

  pub data Changes (start : EhbpChannel Client) : ℕ → EhbpChannel Client → Type 0 where
    unchanged : Changes start 0 start
    changed :
        {n : ℕ} {before after : EhbpChannel Client}
        → Changes start n before
        → Change before after
        → Changes start (n + 1) after

  Change-generation :
      {before after : EhbpChannel Client}
      → Change before after
      → after.generation ≡ next_generation before.generation
  unfolding set_active clear reject
  Change-generation (installed client refreshed made same) = ground arith
  Change-generation (cleared same) = ground arith
  Change-generation (rejected same) = ground arith

  Changes-generation :
      {start after : EhbpChannel Client} {n : ℕ}
      → start.generation < 2 ^ 64
      → Changes start n after
      → after.generation ≡ (start.generation + n) % 2 ^ 64
  Changes-generation h unchanged = omega arith
  Changes-generation h (changed before step) =
      omega (arith, Change-generation step, Changes-generation h before)

  pub Changes-generation_ne :
      {start after : EhbpChannel Client} {n : ℕ}
      → start.generation < 2 ^ 64
      → 0 < n
      → n < 2 ^ 64
      → Changes start n after
      → after.generation ≢ start.generation
  Changes-generation_ne h pos small changes same =
      absurd (omega (arith, Changes-generation h changes))

  -- The end of a refresh that had `k` rejected, from the channel as it is by then: it leaves the
  -- channel, closes it, or opens it with a key that the refresher answers and that is not `k`.
  pub data Ends (k : String) (refresher : Option (Outcome Error RefreshedState))
      (channel after : EhbpChannel Client) : Type 0 where
    leaves : after ≡ channel → Ends k refresher channel after
    closes : after ≡ clear channel → Ends k refresher channel after
    opens :
        (client : Client) (refreshed : RefreshedState)
        → refresher ≡ some (ok refreshed)
        → with_public_key refreshed.hpke_public_key ≡ ok client
        → refreshed.hpke_public_key ≢ k
        → after ≡ set_active client refreshed channel
        → Ends k refresher channel after

  install_refreshed-Ends :
      (k : String) (g : ℕ) (client : Client) (refreshed : RefreshedState)
      (channel : EhbpChannel Client)
      → with_public_key refreshed.hpke_public_key ≡ ok client
      → channel.rejected_public_key ≡ some k
      → Ends k
          (some (ok refreshed))
          channel
          (install_refreshed with_public_key g client refreshed channel).1
  unfolding install_refreshed is_key
  install_refreshed-Ends k g client refreshed channel made was =
      elim (Bool-cases (channel.generation == g)) [
        | inr other ↦ rw other (leaves refl)
        | inl same ↦
            rw (same, was)
              (elim (Bool-cases (str_eq k refreshed.hpke_public_key)) [
                | inl again ↦ rw again (closes refl)
                | inr differs ↦ rw differs (
                    opens client refreshed refl made
                      (λ e. ground (arith, eq_iff k refreshed.hpke_public_key)) refl)
              ])
      ]

  install_refreshed-stale :
      (g : ℕ) (client : Client) (refreshed : RefreshedState) (channel : EhbpChannel Client)
      → channel.generation ≢ g
      → (install_refreshed with_public_key g client refreshed channel).1 ≡ channel
  unfolding install_refreshed
  install_refreshed-stale g client refreshed channel differs =
      ground (arith, ==_iff channel.generation g)

  pub finish_refresh-stale :
      (g : ℕ) (refresher : Option (Outcome Error RefreshedState)) (channel : EhbpChannel Client)
      → channel.generation ≢ g
      → (finish_refresh with_public_key g refresher channel).1 ≡ channel
  unfolding finish_refresh
  finish_refresh-stale g none channel differs = refl
  finish_refresh-stale g (some (err e)) channel differs = refl
  finish_refresh-stale g (some panic) channel differs = refl
  finish_refresh-stale g (some (ok refreshed)) channel differs =
      elim (Outcome-cases (with_public_key refreshed.hpke_public_key)) [
        | inl (client, made) ↦
            rw (made, finish_refresh) (install_refreshed-stale g client refreshed channel differs)
        | inr (inl (e, made)) ↦ rw (made, finish_refresh)
        | inr (inr made) ↦ rw (made, finish_refresh)
      ]

  finish_refresh-Ends :
      (k : String) (g : ℕ) (refresher : Option (Outcome Error RefreshedState))
      (channel : EhbpChannel Client)
      → channel.rejected_public_key ≡ some k
      → Ends k refresher channel (finish_refresh with_public_key g refresher channel).1
  unfolding finish_refresh
  finish_refresh-Ends k g none channel was = leaves refl
  finish_refresh-Ends k g (some (err e)) channel was = leaves refl
  finish_refresh-Ends k g (some panic) channel was = leaves refl
  finish_refresh-Ends k g (some (ok refreshed)) channel was =
      elim (Outcome-cases (with_public_key refreshed.hpke_public_key)) [
        | inl (client, made) ↦
            rw (made, finish_refresh) (install_refreshed-Ends k g client refreshed channel made was)
        | inr (inl (e, made)) ↦ rw (made, finish_refresh) (leaves refl)
        | inr (inr made) ↦ rw (made, finish_refresh) (leaves refl)
      ]

  -- The refresh of a channel that has come from its rejection by some changes.
  finish_refresh-Changes :
      (k : String) (refresher : Option (Outcome Error RefreshedState))
      {start channel : EhbpChannel Client} (n : ℕ)
      → start.generation < 2 ^ 64
      → start.rejected_public_key ≡ some k
      → Changes start n channel
      → n < 2 ^ 64
      → (0 < n → (finish_refresh with_public_key start.generation refresher channel).1 ≡ channel)
        × Ends k refresher channel
            (finish_refresh with_public_key start.generation refresher channel).1
  finish_refresh-Changes k refresher n low was unchanged small =
      (λ p. absurd (omega arith), finish_refresh-Ends k _ refresher _ was)
  finish_refresh-Changes k refresher {start} {channel} n low was (changed {n = m} changes step)
        small =
      let stale =
        finish_refresh-stale start.generation refresher channel
          (Changes-generation_ne low (omega arith) small (changed changes step)) in
      (λ _. stale, leaves stale)

  pub reject_if_generation-eq :
      (seen : ℕ) (channel : EhbpChannel Client)
      → channel.generation ≡ seen
      → reject_if_generation seen channel ≡ (some (reject channel).generation, reject channel)
  unfolding reject_if_generation
  reject_if_generation-eq seen channel at = rw ((==_iff channel.generation seen).1 at)

  pub reject_bound : (channel : EhbpChannel Client) → (reject channel).generation < 2 ^ 64
  unfolding reject
  reject_bound channel = omega arith

  pub reject-key :
      {k : String} (channel : EhbpChannel Client)
      → channel.public_key ≡ some k
      → (reject channel).rejected_public_key ≡ some k
  unfolding reject
  reject-key channel is_k = is_k

  -- A refresh begins on a channel whose generation is the one seen and whose key is `k`, and fewer
  -- than 2^64 changes of the channel come between its rejection of `k` and its end. If there is one,
  -- the refresh leaves the channel; if there is none, the refresh leaves it or closes it, or opens it
  -- with a client for a key that the refresher answers and that is not `k`.
  pub finish_refresh-Ends_fresh :
      (k : String) (refresher : Option (Outcome Error RefreshedState))
      (before channel : EhbpChannel Client) (seen n : ℕ)
      → before.generation ≡ seen
      → before.public_key ≡ some k
      → Changes (reject_if_generation seen before).1 n channel
      → n < 2 ^ 64
      → ((g : ℕ) × ((reject_if_generation seen before).0 ≡ some g)
          × (0 < n → (finish_refresh with_public_key g refresher channel).1 ≡ channel)
          × Ends k refresher channel (finish_refresh with_public_key g refresher channel).1)
  finish_refresh-Ends_fresh k refresher before channel seen n at is_k changes small =
      let (later, end) =
        finish_refresh-Changes k refresher n (reject_bound before) (reject-key before is_k)
          (subst (λ p. Changes p.1 n channel) (reject_if_generation-eq seen before at) changes)
          small in
      rw (reject_if_generation-eq seen before at) ((reject before).generation, refl, later, end)
