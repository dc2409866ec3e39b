-- ===== src/Kad/Message/Encode.antt =====
-- The FIND_NODE request against the description of messages by fields.
use microdot.Base.{◌≡◌, refl, [], ◌∷◌, ◌++◌, Bytes, length, arith}
use microdot.Wire.{encode_varint}
use microdot.Wire.Field.{varint, delimited, encode_fields}
use microdot.Kad.Message.{target_multihash, encode_find_node}
use mathlib.Core.List.{append-nil}

abbrev pub find_node_fields : Bytes → Bytes
find_node_fields target = encode_fields (
    record { number = 1; payload = varint 4 }
    ∷ record { number = 2; payload = delimited target }
    ∷ [])

abbrev pub public_key_fields : Bytes → Bytes
public_key_fields key = encode_fields (
    record { number = 1; payload = varint 1 } ∷ record { number = 2; payload = delimited key } ∷ [])

varint_0 : encode_varint 0 ≡ 0 ∷ []
unfolding encode_varint
varint_0 = refl

varint_1 : encode_varint 1 ≡ 1 ∷ []
unfolding encode_varint
varint_1 = refl

varint_4 : encode_varint 4 ≡ 4 ∷ []
unfolding encode_varint
varint_4 = refl

varint_8 : encode_varint 8 ≡ 8 ∷ []
unfolding encode_varint
varint_8 = refl

varint_18 : encode_varint 18 ≡ 18 ∷ []
unfolding encode_varint
varint_18 = refl

varint_32 : encode_varint 32 ≡ 32 ∷ []
unfolding encode_varint
varint_32 = refl

varint_36 : encode_varint 36 ≡ 36 ∷ []
unfolding encode_varint
varint_36 = refl

ruleset one_byte = (varint_0, varint_1, varint_4, varint_8, varint_18, varint_32, varint_36)

public_key_bytes :
    (key : Bytes) → length key ≡ 32 → public_key_fields key ≡ 0x08 ∷ 0x01 ∷ 0x12 ∷ 0x20 ∷ key
public_key_bytes key h = rw h (simp (one_byte, append-nil))

-- For a 32-byte key the target is the identity multihash (code 0, length, digest) of the protobuf
-- public key of type Ed25519, 38 bytes long, and the request for it is the message with type
-- FIND_NODE = 4 in field 1 and the target in field 2.
encode_find_node-target_multihash :
    (key : Bytes)
    → length key ≡ 32
    → (target_multihash key
        ≡ encode_varint 0
          ++ (encode_varint (length (public_key_fields key)) ++ public_key_fields key))
      × (length (target_multihash key) ≡ 38)
      × (encode_find_node (target_multihash key) ≡ find_node_fields (target_multihash key))
unfolding target_multihash encode_find_node
encode_find_node-target_multihash key h = (
  rw (public_key_bytes key h, h) (simp one_byte),
  omega (arith, h),
  rw h (simp (one_byte, append-nil)),
)
