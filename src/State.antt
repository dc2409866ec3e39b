-- ===== src/State.antt =====
-- src/state.rs: `/state/2` requests, and the verification of the compact proofs in the responses.
-- The SCALE decoder and the trie library (parity-scale-codec, sp-trie, trie-db) are parameters.
-- The file's private varint and slice helpers repeat those of src/kad.rs word for word.
pub mod Extraction
pub mod Soundness
use microdot.Base.{
  ℕ, ◌+◌, ◌*◌, ◌/◌, ◌^◌, Bool, true, false, ◌&&◌, Option, none, some, List, [], ◌∷◌, ◌++◌, Bytes,
  length, bit_and, ◌==◌, if◌then◌else◌, Result, ok, err, ◌>>=◌, map_err, ok_or, not,
}
use microdot.Wire.{
  Error, unsupported_wire_type, no_proof_field, encode_varint, decode_varint, take_delimited,
}
use microdot.Wire.Walk.{Halt, raised, run}

abbrev pub encode_len_delim : ℕ → Bytes → Bytes
encode_len_delim field_id bytes =
    encode_varint (field_id * 8 + 2) ++ (encode_varint (length bytes) ++ bytes)

abbrev pub encode_starts : List Bytes → Bytes
encode_starts [] = []
encode_starts (s ∷ start) = encode_len_delim 2 s ++ encode_starts start

unfoldable pub encode_state_request : Bytes → List Bytes → Bytes
encode_state_request block_hash start = encode_len_delim 1 block_hash ++ encode_starts start

module _ (w : ℕ) where
  -- the `match` of `extract_state_response_proof`
  unfoldable pub proof_field : Option Bytes → ℕ → Bytes → Result Error (Option Bytes × Bytes)
  proof_field proof tag input =
      let field_id = tag / 8 in
      let wire_type = bit_and tag 0x07 in
      if field_id == 2 && wire_type == 2
      then (do (bytes, input) ← take_delimited w input; ok (some bytes, input))
      else if wire_type == 2
      then (do (bytes, input) ← take_delimited w input; ok (proof, input))
      else if wire_type == 0
      then (do (v, input) ← decode_varint input; ok (proof, input))
      else err (unsupported_wire_type wire_type field_id)

  unfoldable pub proof_step : Option Bytes → Bytes → Result Error (Option Bytes × Bytes)
  proof_step proof input = do (tag, input) ← decode_varint input; proof_field proof tag input

  unfoldable pub extract_state_response_proof : Bytes → Result (Halt Error) Bytes
  extract_state_response_proof input = do
    proof ← run proof_step none input
    ok_or proof (raised no_proof_field)

-- `:child_storage:default:`
abbrev pub prefix : Bytes
prefix =
    58 ∷ 99 ∷ 104 ∷ 105 ∷ 108 ∷ 100 ∷ 95 ∷ 115 ∷ 116 ∷ 111 ∷ 114 ∷ 97 ∷ 103 ∷ 101 ∷ 58 ∷ 100 ∷ 101
    ∷ 102 ∷ 97 ∷ 117 ∷ 108 ∷ 116 ∷ 58 ∷ []

unfoldable pub child_storage_default_prefix : Bytes → Bytes
child_storage_default_prefix trie_id = prefix ++ trie_id

-- What state.rs calls: `<Vec<Vec<u8>>>::decode`, `CompactProof::to_storage_proof` with
-- `into_memory_db`, and `Trie::get` on the database under a root.
pub record TrieLibrary (D : Type 0) : Type 0 where
  pub decode_nodes : Bytes → Option (List Bytes)
  pub to_memory_db : List Bytes → Bytes → Option D
  pub trie_get : D → Bytes → Bytes → Option (Option Bytes)

-- The failures, one for each message.
pub data VerifyError : Type 0 where
  extraction : Halt Error → VerifyError
  scale_decoding : VerifyError
  compact_to_storage : VerifyError
  lookup : VerifyError
  key_absent : VerifyError
  parent_lookup : VerifyError
  child_root_absent : VerifyError
  child_root_length : ℕ → VerifyError
  child_lookup : VerifyError
  child_key_absent : VerifyError

module _ {D : Type 0} (w : ℕ) (lib : TrieLibrary D) where
  unfoldable pub verify_top_proof : Bytes → Bytes → Bytes → Result VerifyError Bytes
  verify_top_proof response_bytes expected_state_root key = do
    proof_bytes ← map_err extraction (extract_state_response_proof w response_bytes)
    encoded_nodes ← ok_or (lib.decode_nodes proof_bytes) scale_decoding
    db ← ok_or (lib.to_memory_db encoded_nodes expected_state_root) compact_to_storage
    found ← ok_or (lib.trie_get db expected_state_root key) lookup
    ok_or found key_absent

  unfoldable pub verify_child_proof : Bytes → Bytes → Bytes → Bytes → Result VerifyError Bytes
  verify_child_proof response_bytes expected_state_root trie_id child_key = do
    proof_bytes ← map_err extraction (extract_state_response_proof w response_bytes)
    encoded_nodes ← ok_or (lib.decode_nodes proof_bytes) scale_decoding
    db ← ok_or (lib.to_memory_db encoded_nodes expected_state_root) compact_to_storage
    found ←
        ok_or (lib.trie_get db expected_state_root (child_storage_default_prefix trie_id))
          parent_lookup
    child_root_bytes ← ok_or found child_root_absent
    child_root ←
        (if not (length child_root_bytes == 32)
          then err (child_root_length (length child_root_bytes))
          else ok child_root_bytes)
    child_found ← ok_or (lib.trie_get db child_root child_key) child_lookup
    ok_or child_found child_key_absent
