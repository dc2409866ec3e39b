-- ===== src/Runs/Numbers.antt =====
-- Runs of the varint and slice helpers of src/kad.rs.
use microdot.Base.{◌+◌, ◌^◌, ◌≡◌, refl, [], ◌∷◌, ◌++◌, Bytes, ok, arith}
use microdot.Wire.{encode_varint, decode_varint}
use microdot.Wire.Varint.{decode-encode_mod}

abbrev one_byte : Bytes
one_byte = 7 ∷ []

abbrev three_hundred : Bytes
three_hundred = 0xac ∷ 0x02 ∷ 7 ∷ []

decode_three_hundred : decode_varint three_hundred ≡ ok (300, 7 ∷ [])
unfolding decode_varint
decode_three_hundred = refl

-- 2 ^ 64 + 5 comes back as 5
decode-encode_mod_example : decode_varint (encode_varint (2 ^ 64 + 5) ++ (7 ∷ [])) ≡ ok (5, 7 ∷ [])
decode-encode_mod_example = decode-encode_mod (2 ^ 64 + 5) (7 ∷ []) (omega arith)

abbrev ten_bytes : Bytes
ten_bytes = 0xff ∷ 0xff ∷ 0xff ∷ 0xff ∷ 0xff ∷ 0xff ∷ 0xff ∷ 0xff ∷ 0xff ∷ 0xff ∷ []
