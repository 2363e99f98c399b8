-- ===== src/Sigstore/Rooted/Tests.antt =====
-- A release over toy packages that passes with its log entry and its chain.
use Prim.Native.String.{String}
use tinfoil_rs.Prelude.{ℕ, ◌≡◌, ◌≢◌, ◌⊎◌, refl, arith, get_elem?, List, [], ◌∷◌, none, some}
use tinfoil_rs.Word.{debug, sub64, shr64, leading_zeros, count_ones}
use tinfoil_rs.Outcome.{Outcome, ok, err}
use tinfoil_rs.Text.{codes}
use tinfoil_rs.Errors.{Error}
use tinfoil_rs.Attestation.Bytes.{bytes_eq}
use tinfoil_rs.Merkle.Proof.{
  root_from_inclusion_proof, decomp_inclusion_proof, inner_proof_size, chain_border_right,
  chain_inner_from,
}
use tinfoil_rs.Sigstore.Keyring.{new_with_validity, verify_at}
use tinfoil_rs.Sigstore.Transparency.{verify_sct}
use tinfoil_rs.Sigstore.Dsse.{failure, field}
use tinfoil_rs.Sigstore.Trust.{
  TimestampAuthority, RekorKey, FulcioCa, load_rekor_keys, load_fulcio_cas,
}
use tinfoil_rs.Sigstore.Fulcio.{verify_fulcio_chain}
use tinfoil_rs.Decides.{Decides}
use tinfoil_rs.Answers.{IsSafe}
use tinfoil_rs.Sigstore.Fulcio.Chain.{IsChained}
use tinfoil_rs.Sigstore.Fulcio.Trusted.{verify_fulcio_chain-Decides}
use tinfoil_rs.Merkle.Inclusion.{Collision}
use tinfoil_rs.Merkle.Tree.{leaf}
use tinfoil_rs.Sigstore.Rekor.{verify_rekor_entry_with_trust}
use tinfoil_rs.Sigstore.Rekor.Included.{IsLogged, verify_rekor_entry_with_trust_sound}
use tinfoil_rs.Sigstore.Rekor.InTree.{verify_rekor_entry_in_tree}
use tinfoil_rs.Sigstore.Tests.{text_of, fetched, fetch_bundle, result}
use tinfoil_rs.Sigstore.Rooted.{verify_rooted_repo}
use tinfoil_rs.Sigstore.Rooted.Toys.{zeros, rekor, hasher, root, toy_root}

pub passes : verify_rooted_repo toy_root debug "owner/repo" fetched fetch_bundle ≡ ok result
unfolding verify_rooted_repo bytes_eq text_of new_with_validity verify_sct verify_at
    root_from_inclusion_proof decomp_inclusion_proof inner_proof_size sub64 shr64 leading_zeros
    count_ones chain_border_right chain_inner_from
passes = refl

-- The keys of the trusted root.
abbrev log_key : RekorKey
log_key = record {
  key_id = "keyId";
  host = codes "log";
  key_der = [];
  key_type = "PKIX_ECDSA_P256_SHA_256";
  valid_from = some 3;
  valid_until = none;
}

abbrev ca : FulcioCa
ca = record { cert_chain_der = [] ∷ []; valid_from = 0; valid_until = some 9 }

loads_keys : load_rekor_keys toy_root.trust (some root) ≡ ok (log_key ∷ [])
unfolding load_rekor_keys
loads_keys = refl

loads_cas : load_fulcio_cas toy_root.trust (some root) ≡ ok (ca ∷ [])
unfolding load_fulcio_cas
loads_cas = refl

abbrev no_stamps : String → List ℕ → List TimestampAuthority → Outcome Error (List ℕ × List Error)
no_stamps bundle signature authorities = ok ([], [])

entry_passes :
    verify_rekor_entry_with_trust rekor debug no_stamps "bundle" 1 9 (log_key ∷ []) [] ≡ ok tt
unfolding verify_rekor_entry_with_trust field bytes_eq root_from_inclusion_proof
    decomp_inclusion_proof inner_proof_size sub64 shr64 leading_zeros count_ones chain_border_right
    chain_inner_from
entry_passes = refl

verify_rekor_entry_with_trust_sound_example :
    IsLogged rekor debug no_stamps "bundle" 1 9 (log_key ∷ []) []
verify_rekor_entry_with_trust_sound_example =
    verify_rekor_entry_with_trust_sound rekor debug no_stamps "bundle" 1 9 (log_key ∷ []) []
      entry_passes

verify_rekor_entry_in_tree_example :
    (logged : IsLogged rekor debug no_stamps "bundle" 1 9 (log_key ∷ []) []) × ((get_elem?
          (zeros ∷ [])
          logged.anchored.included.index
        ≡ some zeros)
      ⊎ (logged.anchored.included.root ≢ zeros)
      ⊎ (logged.anchored.included.size ≢ 1)
      ⊎ Collision hasher)
verify_rekor_entry_in_tree_example =
    verify_rekor_entry_in_tree rekor debug no_stamps "bundle" 1 9 (log_key ∷ []) [] (zeros ∷ [])
      zeros (leaf zeros) (omega arith) entry_passes

chain_passes : verify_fulcio_chain toy_root.fulcio (ok (ca ∷ [])) [] 5 ≡ ok tt
unfolding verify_fulcio_chain
chain_passes = refl

chain_expired :
    verify_fulcio_chain toy_root.fulcio (ok (ca ∷ [])) [] 10
    ≡ err (failure "Certificate not issued by any trusted Fulcio CA")
unfolding verify_fulcio_chain
chain_expired = refl

loads_safely : IsSafe {E = Error} {A = List FulcioCa} (ok (ca ∷ []))
loads_safely h = cc

verify_fulcio_chain-Decides_example :
    Decides
      (verify_fulcio_chain toy_root.fulcio (ok (ca ∷ [])) [] 5)
      (IsChained toy_root.fulcio (ok (ca ∷ [])) [] 5)
verify_fulcio_chain-Decides_example =
    verify_fulcio_chain-Decides toy_root.fulcio (ok (ca ∷ [])) [] 5 loads_safely
