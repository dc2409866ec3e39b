-- ===== src/Wire/Varint.antt =====
-- The varint codec on what it wrote: round trip, and what becomes of numbers beyond 64 bits.
use microdot.Base.{
  ℕ, zero, suc, ◌+◌, ◌*◌, ◌/◌, ◌%◌, ◌^◌, ◌≤◌, ◌<◌, ◌≡◌, refl, ap, ◌∙◌, bit_or, ◌∷◌, ◌++◌, Bytes, ok,
  arith,
}
use microdot.Base.Bits.{low_bits, top_bit, set_top_bit, bit_or_above}
use microdot.Wire.{
  IsU64, shift_shrinks, encode_varint_loop, encode_varint, add_group, decode_varint_loop,
  decode_varint,
}
use microdot.Base.WellFounded.{lt_wf}
use mathlib.Core.Logic.{dif_pos, dif_neg}
use native.Mathlib.Decide.{dec_le}
use mathlib.Core.WellFounded.{Acc}
use native.Mathlib.Bridge.{le_prop}
use native.Mathlib.Nat.{div-add-mod, pow-le-pow_right}
use native.Mathlib.Numerals.{towards_suc}

pub shift_seven : (s : ℕ) → 2 ^ (s + 7) ≡ 128 * 2 ^ s
shift_seven s = simp towards_suc (omega arith)

-- The seven low bits and the rest of `v`, both moved up by `s`.
split_group : (v s : ℕ) → v * 2 ^ s ≡ v % 128 * 2 ^ s + v / 128 * 2 ^ (s + 7)
split_group v s = omega (
  arith,
  ap (λ (t : ℕ). t * 2 ^ s) (div-add-mod v 128),
  ap (λ (t : ℕ). v / 128 * t) (shift_seven s),
)

-- While the group fits 64 bits, `|=` adds it.
pub add_group_fits :
    (value byte s : ℕ)
    → value < 2 ^ s
    → IsU64 (byte % 128 * 2 ^ s)
    → add_group value byte s ≡ value + byte % 128 * 2 ^ s
add_group_fits value byte s low fits =
    ground (arith, low_bits byte, bit_or_above s (byte % 128) value low)

-- One round on a last byte, and on a byte with the top bit set.
last_byte :
    (b value s : ℕ) (rest : Bytes)
    → b < 128
    → value < 2 ^ s
    → IsU64 (value + b * 2 ^ s)
    → decode_varint_loop value s (b ∷ rest) ≡ ok (value + b * 2 ^ s, rest)
unfolding decode_varint_loop
last_byte b value s rest hb low fits =
    ground (arith, top_bit b, low_bits b, bit_or_above s (b % 128) value low)

inner_byte :
    (b value s : ℕ) (rest : Bytes)
    → b < 256
    → 128 ≤ b
    → value < 2 ^ s
    → s + 7 < 64
    → IsU64 (value + b % 128 * 2 ^ s)
    → decode_varint_loop value s (b ∷ rest)
      ≡ decode_varint_loop (value + b % 128 * 2 ^ s) (s + 7) rest
unfolding decode_varint_loop
inner_byte b value s rest hb top low hs fits =
    ground (arith, top_bit b, low_bits b, bit_or_above s (b % 128) value low)

-- At shift 63 only the lowest bit of the group is left.
last_byte_63 :
    (b value : ℕ) (rest : Bytes)
    → b < 128
    → value < 2 ^ 63
    → decode_varint_loop value 63 (b ∷ rest) ≡ ok ((value + b * 2 ^ 63) % 2 ^ 64, rest)
unfolding decode_varint_loop
last_byte_63 b value rest hb low =
    let top : b * 2 ^ 63 % 2 ^ 64 ≡ b % 2 * 2 ^ 63 = omega arith in
    ground (arith, top, top_bit b, low_bits b, bit_or_above 63 (b % 2) value low)

pub small_shift : (j s : ℕ) → s ≡ 7 * j → j ≤ 8 → 2 ^ s ≤ 2 ^ 56
small_shift j s hs hj = pow-le-pow_right {n = 2} (omega arith) {i = s} {j = 56} (omega arith)

small_group :
    (j b value s : ℕ) → s ≡ 7 * j → j ≤ 8 → b < 128 → value < 2 ^ s → IsU64 (value + b * 2 ^ s)
small_group j b value s hs hj hb low = grind (arith, small_shift j s hs hj)

-- A group to come after `j` means that the number is not below 2 ^ (7 * j + 7).
more_in_range : (v j value s : ℕ) → s ≡ 7 * j → j ≤ 9 → 128 ≤ v → value + v * 2 ^ s < 2 ^ 70 → j ≤ 8
more_in_range v zero value s hs hj more fits = omega arith
more_in_range v (suc j) value s hs hj more fits = elim (dec_le (suc j) 8) [
  | yes h ↦ h
  | no h ↦
      let last : s ≡ 63 = omega arith in
      absurd (omega (arith, (let big : v * 2 ^ 63 < 2 ^ 70 = ground arith in big)))
]

module _ (v j value s : ℕ) (hs : s ≡ 7 * j) (hj : j ≤ 9) (more : 128 ≤ v) (low : value < 2 ^ s)
    (fits : value + v * 2 ^ s < 2 ^ 70) where
  round_reads :
      (tail : Bytes)
      → decode_varint_loop value s (bit_or (v % 256) 0x80 ∷ tail)
        ≡ decode_varint_loop (value + v % 128 * 2 ^ s) (s + 7) tail
  round_reads tail = ground (
    arith,
    set_top_bit (v % 256),
    more_in_range v j value s,
    small_group j (v % 128) value s,
    inner_byte (bit_or (v % 256) 0x80) value s tail,
  )

  round_low : value + v % 128 * 2 ^ s < 2 ^ (s + 7)
  round_low = grind (arith, shift_seven s)

  round_value : value + v % 128 * 2 ^ s + v / 128 * 2 ^ (s + 7) ≡ value + v * 2 ^ s
  round_value = omega (arith, split_group v s)

  round_count : j ≤ 8
  round_count = more_in_range v j value s hs hj more fits

-- The bytes of `v` are read from bit `s` on, `j` groups being done.
decode-encode_loop :
    (v : ℕ) (wf : Acc ◌<◌ v) (j value s : ℕ) (rest : Bytes)
    → s ≡ 7 * j
    → j ≤ 9
    → value < 2 ^ s
    → value + v * 2 ^ s < 2 ^ 70
    → decode_varint_loop value s (encode_varint_loop v wf ++ rest)
      ≡ ok ((value + v * 2 ^ s) % 2 ^ 64, rest)
unfolding encode_varint_loop
decode-encode_loop v (Acc.intro _ smaller) j value s rest hs hj low fits = elim (dec_le 128 v) [
  | yes more ↦
      let value' = value + v % 128 * 2 ^ s in
      let whole = round_value v j value s hs hj more low fits in
      rw (dif_pos (dec_le 128 v) le_prop more _ _) (
        round_reads v j value s hs hj more low fits _
        ∙ decode-encode_loop (v / 128) (smaller (v / 128) (shift_shrinks v more)) (suc j) value'
            (s + 7) rest (omega arith) (omega (arith, round_count v j value s hs hj more low fits))
            (round_low v j value s hs hj more low fits) (omega (arith, whole))
        ∙ ap (λ t. ok (t % 2 ^ 64, rest)) whole)
  | no done ↦ rw (dif_neg (dec_le 128 v) done _ _) (elim (dec_le j 8) [
    | yes early ↦ ground (arith, small_group j (v % 256) value s, last_byte (v % 256) value s rest)
    | no late ↦
        let last : s ≡ 63 = omega arith in
        rw last (ground (arith, last_byte_63 (v % 256) value rest))
  ])
]

-- The bytes of any number below 2 ^ 70 are accepted, and what comes out is the number modulo
-- 2 ^ 64.
pub decode-encode_mod :
    (v : ℕ) (rest : Bytes)
    → v < 2 ^ 70
    → decode_varint (encode_varint v ++ rest) ≡ ok (v % 2 ^ 64, rest)
unfolding decode_varint encode_varint
decode-encode_mod v rest h = ground (arith, decode-encode_loop v (lt_wf.apply v) 0 0 0 rest refl)

-- Decoding what was encoded gives the u64 back, and leaves whatever follows it.
pub decode-encode :
    (v : ℕ) (rest : Bytes) → IsU64 v → decode_varint (encode_varint v ++ rest) ≡ ok (v, rest)
decode-encode v rest h = ground (arith, decode-encode_mod v rest)
