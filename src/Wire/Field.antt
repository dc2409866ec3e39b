-- ===== src/Wire/Field.antt =====
-- Protobuf messages as lists of fields: an independent description of the wire format that
-- src/kad.rs and src/state.rs read by hand.
use microdot.Base.{
  ℕ, ◌+◌, ◌*◌, ◌/◌, ◌^◌, ◌<◌, ◌≡◌, List, [], ◌∷◌, ◌++◌, Bytes, length, bit_and, ok, arith,
}
use microdot.Base.Bits.{bit_and_seven}
use microdot.Wire.{IsU64, encode_varint, decode_varint, take_bytes, take_delimited}
use microdot.Wire.Slices.{take_bytes_self, take_delimited-encode}
use microdot.Wire.Varint.{decode-encode}
use mathlib.Core.List.{append_assoc}

pub data Payload : Type 0 where
  varint : ℕ → Payload
  delimited : Bytes → Payload
  fixed32 fixed64 : Bytes → Payload

pub record Field : Type 0 where
  pub number : ℕ
  pub payload : Payload

abbrev pub wire_type : Payload → ℕ
wire_type (varint v) = 0
wire_type (delimited x) = 2
wire_type (fixed32 x) = 5
wire_type (fixed64 x) = 1

abbrev pub tag : Field → ℕ
tag f = f.number * 8 + wire_type f.payload

abbrev pub encode_payload : Payload → Bytes
encode_payload (varint v) = encode_varint v
encode_payload (delimited x) = encode_varint (length x) ++ x
encode_payload (fixed32 x) = x
encode_payload (fixed64 x) = x

abbrev pub encode_field : Field → Bytes
encode_field f = encode_varint (tag f) ++ encode_payload f.payload

abbrev pub encode_fields : List Field → Bytes
encode_fields [] = []
encode_fields (f ∷ fs) = encode_field f ++ encode_fields fs

-- A length that a u64 varint and a `usize` of `w` bits can hold.
abbrev pub Fits : ℕ → Bytes → Type 0
Fits w x = IsU64 (length x) × (length x < 2 ^ w)

abbrev pub PayloadFits : ℕ → Payload → Type 0
PayloadFits w (varint v) = IsU64 v
PayloadFits w (delimited x) = Fits w x
PayloadFits w (fixed32 x) = length x ≡ 4
PayloadFits w (fixed64 x) = length x ≡ 8

abbrev pub IsEncodable : ℕ → Field → Type 0
IsEncodable w f = (f.number < 2 ^ 61) × PayloadFits w f.payload

pub wire_type-lt : (p : Payload) → wire_type p < 8
wire_type-lt (varint v) = omega arith
wire_type-lt p = omega arith

-- The tag splits into the number and the wire type.
pub tag-number : (f : Field) → tag f / 8 ≡ f.number
tag-number f = omega (arith, wire_type-lt f.payload)

pub tag-wire_type : (f : Field) → bit_and (tag f) 0x07 ≡ wire_type f.payload
tag-wire_type f = omega (arith, bit_and_seven (tag f), wire_type-lt f.payload)

module _ (w : ℕ) (f : Field) (rest : Bytes) (h : IsEncodable w f) where
  pub decode-tag :
      decode_varint (encode_field f ++ rest) ≡ ok (tag f, encode_payload f.payload ++ rest)
  decode-tag =
      rw (append_assoc (encode_varint (tag f)) (encode_payload f.payload) rest)
        (decode-encode (tag f) _ (omega (arith, wire_type-lt f.payload, h.0)))

-- Each payload is read as the readers read it.
pub decode-varint :
    (v : ℕ) (rest : Bytes)
    → IsU64 v
    → decode_varint (encode_payload (varint v) ++ rest) ≡ ok (v, rest)
decode-varint v rest h = decode-encode v rest h

pub take-delimited :
    (w : ℕ) (x rest : Bytes)
    → Fits w x
    → take_delimited w (encode_payload (delimited x) ++ rest) ≡ ok (x, rest)
take-delimited w x rest (u, fits) =
    rw (append_assoc (encode_varint (length x)) x rest) (take_delimited-encode w x rest u fits)

pub take-fixed : (n : ℕ) (x rest : Bytes) → length x ≡ n → take_bytes (x ++ rest) n ≡ ok (x, rest)
take-fixed n x rest e = rw (← e) (take_bytes_self x rest)
