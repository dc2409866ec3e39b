-- ===== src/Runs/Proofs.antt =====
-- Runs of src/state.rs, with a trie library whose roots commit to a fixed map.
use microdot.Base.{◌≡◌, refl, some, [], ◌∷◌, length, ok}
use microdot.Wire.Field.{encode_fields}
use microdot.State.{extract_state_response_proof, child_storage_default_prefix}
use microdot.State.Extraction.{extract_state_response_proof-encode_fields}
use microdot.Runs.Toys.{
  zeros, slot, held, library, Commits, library-IsSound, response_fields, response_fields_plain,
  proof, child_value,
}
use microdot.State.Soundness.{verify_child_proof_sound}

extract_state_response_proof-encode_fields_example :
    extract_state_response_proof 32 (encode_fields response_fields) ≡ ok (5 ∷ 6 ∷ [])
extract_state_response_proof-encode_fields_example =
    extract_state_response_proof-encode_fields 32 response_fields response_fields_plain

verify_child_proof_sound_example : (length zeros ≡ 32) × (held zeros (1 ∷ []) ≡ some slot)
unfolding child_storage_default_prefix
verify_child_proof_sound_example =
    verify_child_proof_sound 32 library Commits library-IsSound proof zeros (9 ∷ []) (1 ∷ []) slot
      zeros (held zeros) (held zeros) (λ key. refl) refl (λ key. refl)
      (child_value zeros (1 ∷ []) refl)
