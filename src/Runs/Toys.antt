-- ===== src/Runs/Toys.antt =====
-- What the runs of the phases share: a trie library whose roots commit to a fixed map, and a
-- response with a proof.
use microdot.Base.{
  ◌≡◌, refl, sym, ◌∙◌, some, List, [], ◌∷◌, Bytes, All, length, ok, ◌==◌, if◌then◌else◌, arith,
  false,
}
use microdot.Wire.Field.{Field, varint, delimited, encode_fields}
use microdot.State.{
  TrieLibrary, extract_state_response_proof, verify_top_proof, verify_child_proof,
  child_storage_default_prefix,
}
use microdot.State.Extraction.{IsResponseField, extract_state_response_proof-encode_fields}
use microdot.State.Soundness.{Storage, IsSound, some_inj}

abbrev pub zeros : Bytes
zeros =
    0 ∷ 0 ∷ 0 ∷ 0 ∷ 0 ∷ 0 ∷ 0 ∷ 0 ∷ 0 ∷ 0 ∷ 0 ∷ 0 ∷ 0 ∷ 0 ∷ 0 ∷ 0 ∷ 0 ∷ 0 ∷ 0 ∷ 0 ∷ 0 ∷ 0 ∷ 0 ∷ 0
    ∷ 0 ∷ 0 ∷ 0 ∷ 0 ∷ 0 ∷ 0 ∷ 0 ∷ 0 ∷ []

-- a short value of four bytes
abbrev pub slot : Bytes
slot =
    227 ∷ 1 ∷ 1 ∷ 113 ∷ 0 ∷ 0 ∷ 0 ∷ 0 ∷ 0 ∷ 0 ∷ 0 ∷ 0 ∷ 0 ∷ 0 ∷ 0 ∷ 0 ∷ 0 ∷ 0 ∷ 0 ∷ 0 ∷ 0 ∷ 0 ∷ 0
    ∷ 0 ∷ 0 ∷ 0 ∷ 0 ∷ 0 ∷ 0 ∷ 0 ∷ 0 ∷ 8 ∷ []

-- under every root: a child root at the keys of 24 bytes, else that value
abbrev pub held : Bytes → Storage
held root key = if length key == 24 then some zeros else some slot

abbrev pub library : TrieLibrary (Unit {0})
library = record {
  decode_nodes = λ bytes. some (bytes ∷ []);
  to_memory_db = λ nodes root. some tt;
  trie_get = λ db root key. some (held root key);
}

abbrev pub Commits : Bytes → Storage → Type 0
Commits root storage = (key : Bytes) → storage key ≡ held root key

pub library-IsSound : IsSound library Commits
library-IsSound db root storage key found c e = sym (c key ∙ some_inj (held root key) found e)

abbrev pub response_fields : List Field
response_fields =
    record { number = 1; payload = varint 4 }
    ∷ record { number = 2; payload = delimited (5 ∷ 6 ∷ []) }
    ∷ []

pub response_fields_plain : All (IsResponseField 32) response_fields
response_fields_plain =
    ((tt, (omega arith, omega arith)), ((tt, (omega arith, (omega arith, omega arith))), tt))

-- the bytes of `response_fields`
abbrev pub proof : Bytes
proof = encode_fields response_fields

extracted : extract_state_response_proof 32 proof ≡ ok (5 ∷ 6 ∷ [])
extracted = extract_state_response_proof-encode_fields 32 response_fields response_fields_plain

pub top_value :
    (root key : Bytes)
    → (length key == 24) ≡ false
    → verify_top_proof 32 library proof root key ≡ ok slot
unfolding verify_top_proof
top_value root key h = rw (extracted, h) refl

pub child_value :
    (root key : Bytes)
    → (length key == 24) ≡ false
    → verify_child_proof 32 library proof root (9 ∷ []) key ≡ ok slot
unfolding verify_child_proof child_storage_default_prefix
child_value root key h = rw (extracted, h) refl
