-- ===== src/Wire/Tests.antt =====
-- Concrete runs of the varint codec.
use microdot.Base.{◌≡◌, refl, ◌∷◌, [], ok}
use microdot.Wire.{encode_varint, decode_varint}

encode_300 : encode_varint 300 ≡ 0xac ∷ 0x02 ∷ []
unfolding encode_varint
encode_300 = refl

decode_300 : decode_varint (0xac ∷ 0x02 ∷ 7 ∷ []) ≡ ok (300, 7 ∷ [])
unfolding decode_varint
decode_300 = refl
