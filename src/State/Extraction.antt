-- ===== src/State/Extraction.antt =====
-- The two message formats of src/state.rs against the description of messages by fields.
use microdot.Base.{
  ℕ, ◌≡◌, ◌≢◌, refl, ap, ◌∙◌, sym, Option, none, some, List, [], ◌∷◌, ◌++◌, Bytes, All, bit_and,
  ◌/◌, ◌+◌, ◌*◌, ◌==◌, if◌then◌else◌, ok, err, ◌>>=◌, ok_or, map, bind-eq-ok, arith, Result-cases,
  inl, inr, ◌&&◌,
}
use microdot.Wire.{no_proof_field, decode_varint}
use microdot.Wire.Field.{
  Payload, PayloadFits, Field, varint, delimited, fixed32, fixed64, wire_type, tag, encode_payload,
  encode_fields, IsEncodable, tag-number, tag-wire_type, decode-tag, decode-varint, take-delimited,
}
use microdot.Wire.Bounds.{decode_varint_takes}
use microdot.Wire.Reader.{
  IsReader, bind-IsReader, if_IsReader, pure-IsReader, fail-IsReader, decode_varint-IsReader,
  take_delimited-IsReader,
}
use microdot.Wire.Walk.{raised, out_of_fuel, Shrinks, run, run_nil, run_step, run-ne-out_of_fuel}
use microdot.State.{
  encode_len_delim, encode_starts, encode_state_request, proof_field, proof_step,
  extract_state_response_proof,
}

module _ (w : ℕ) where
  proof_field-IsReader : (proof : Option Bytes) (tag : ℕ) → IsReader (proof_field w proof tag)
  unfolding proof_field
  proof_field-IsReader proof tag =
      if_IsReader (tag / 8 == 2 && bit_and tag 0x07 == 2)
        (bind-IsReader (take_delimited-IsReader w) (λ x. pure-IsReader (some x)))
        (if_IsReader (bit_and tag 0x07 == 2)
          (bind-IsReader (take_delimited-IsReader w) (λ x. pure-IsReader proof))
          (if_IsReader (bit_and tag 0x07 == 0)
            (bind-IsReader decode_varint-IsReader (λ v. pure-IsReader proof)) (fail-IsReader _)))

  proof_step-Shrinks : Shrinks (proof_step w)
  unfolding proof_step
  proof_step-Shrinks s input s' rest e =
      let ((v, mid), e₁, e₂) = bind-eq-ok (decode_varint input) _ e in
      omega (
        arith,
        (decode_varint_takes input v mid e₁).1,
        (proof_field-IsReader s v).no_longer mid s' rest e₂,
      )

  ok_or-ne-out_of_fuel :
      (proof : Option Bytes) → ok_or proof (raised no_proof_field) ≢ err out_of_fuel
  ok_or-ne-out_of_fuel none e = cc
  ok_or-ne-out_of_fuel (some bytes) e = cc

  -- The reader ends on every input.
  extract_state_response_proof_ends :
      (input : Bytes) → extract_state_response_proof w input ≢ err out_of_fuel
  unfolding extract_state_response_proof
  extract_state_response_proof_ends input e = elim (Result-cases (run (proof_step w) none input)) [
    | inl (proof, q) ↦
        ok_or-ne-out_of_fuel proof
          (ap (λ m. m >>= λ p. ok_or p (raised no_proof_field)) (sym q) ∙ e)
    | inr (x, q) ↦ run-ne-out_of_fuel (proof_step w) proof_step-Shrinks none input (q ∙ cc)
  ]

  -- The wire types that the reader knows: 0 and 2.
  abbrev pub IsPlain : Payload → Type 0
  IsPlain (varint v) = Unit {0}
  IsPlain (delimited x) = Unit {0}
  IsPlain (fixed32 x) = ⊥
  IsPlain (fixed64 x) = ⊥

  abbrev next_proof : Option Bytes → ℕ → Payload → Option Bytes
  next_proof proof n (delimited x) = if n == 2 then some x else proof
  next_proof proof n p = proof

  -- The payload of the last length-delimited field 2, or `proof` without one.
  abbrev pub last_proof : Option Bytes → List Field → Option Bytes
  last_proof proof [] = proof
  last_proof proof (f ∷ fs) = last_proof (next_proof proof f.number f.payload) fs

  abbrev pub IsResponseField : Field → Type 0
  IsResponseField f = IsPlain f.payload × IsEncodable w f

  proof_field-payload :
      (proof : Option Bytes) (n : ℕ) (p : Payload) (rest : Bytes)
      → IsPlain p
      → PayloadFits w p
      → proof_field w proof (n * 8 + wire_type p) (encode_payload p ++ rest)
        ≡ ok (next_proof proof n p, rest)
  unfolding proof_field
  proof_field-payload proof n (varint v) rest k h =
      let f : Field = record { number = n; payload = varint v } in
      ground (arith, tag-number f, tag-wire_type f, decode-varint v rest h)
  proof_field-payload proof n (delimited x) rest k h =
      let f : Field = record { number = n; payload = delimited x } in
      ground (arith, tag-number f, tag-wire_type f, take-delimited w x rest h)
  proof_field-payload proof n (fixed32 x) rest k h = absurd k
  proof_field-payload proof n (fixed64 x) rest k h = absurd k

  run-response :
      (fs : List Field) (proof : Option Bytes)
      → All IsResponseField fs
      → run (proof_step w) proof (encode_fields fs) ≡ ok (last_proof proof fs)
  unfolding proof_step
  run-response [] proof h = run_nil (proof_step w) proof
  run-response (f ∷ fs) proof ((k, hf), hfs) =
      run_step (proof_step w) proof_step-Shrinks proof _ (next_proof proof f.number f.payload)
        (encode_fields fs)
        (rw (decode-tag w f (encode_fields fs) hf)
          (proof_field-payload proof f.number f.payload (encode_fields fs) k hf.1))
      ∙ run-response fs (next_proof proof f.number f.payload) hfs

  -- Of a response of varint and length-delimited fields the reader gives the payload of the last
  -- length-delimited field 2, and the error of a missing proof if there is none.
  pub extract_state_response_proof-encode_fields :
      (fs : List Field)
      → All IsResponseField fs
      → extract_state_response_proof w (encode_fields fs)
        ≡ ok_or (last_proof none fs) (raised no_proof_field)
  unfolding extract_state_response_proof
  extract_state_response_proof-encode_fields fs h = rw (run-response fs none h) refl

abbrev pub start_field : Bytes → Field
start_field key = record { number = 2; payload = delimited key }

-- The fields of a request: the block hash as field 1, each start key as field 2.
abbrev pub request_fields : Bytes → List Bytes → List Field
request_fields block_hash start =
    record { number = 1; payload = delimited block_hash } ∷ map start_field start

encode_starts-fields :
    (start : List Bytes) → encode_starts start ≡ encode_fields (map start_field start)
encode_starts-fields [] = refl
encode_starts-fields (key ∷ start) = ap (◌++◌ (encode_len_delim 2 key)) (encode_starts-fields start)

-- The request is the message with the block hash in field 1 and the keys in field 2, in order.
encode_state_request-fields :
    (block_hash : Bytes) (start : List Bytes)
    → encode_state_request block_hash start ≡ encode_fields (request_fields block_hash start)
unfolding encode_state_request
encode_state_request-fields block_hash start =
    ap (◌++◌ (encode_len_delim 1 block_hash)) (encode_starts-fields start)
