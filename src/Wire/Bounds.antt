-- ===== src/Wire/Bounds.antt =====
-- `decode_varint` on any input: the range of its result, how much it takes, and framing; and the
-- size of what `encode_varint` writes.
use microdot.Base.{
  ℕ, zero, suc, ◌+◌, ◌*◌, ◌/◌, ◌%◌, ◌^◌, ◌≤◌, ◌<◌, ◌≡◌, refl, [], ◌∷◌, ◌++◌, Bytes, All, length, ok,
  arith,
}
use microdot.Base.Bits.{low_bits, set_top_bit, bit_or_above}
use microdot.Base.WellFounded.{lt_wf}
use microdot.Wire.{
  IsU64, shift_shrinks, encode_varint_loop, encode_varint, add_group, decode_varint_loop,
  decode_varint,
}
use microdot.Wire.Varint.{shift_seven, small_shift, add_group_fits}
use mathlib.Core.Path.{subst}
use mathlib.Core.Logic.{dif_pos, dif_neg}
use mathlib.Core.WellFounded.{Acc}
use native.Mathlib.Bridge.{le_prop}
use native.Mathlib.Nat.{pow-succ'}
use native.Mathlib.Decide.{dec_le}

group_bound : (g s : ℕ) → g ≤ 127 → g * 2 ^ s ≤ 127 * 2 ^ s
group_bound g s h = grind arith

-- After at most nine bytes a group is added whole.
add_group_early :
    (value b j s : ℕ) → s ≡ 7 * j → j ≤ 8 → value < 2 ^ s → add_group value b s < 2 ^ (s + 7)
add_group_early value b j s hs hj low =
    let group = group_bound (b % 128) s (omega arith) in
    let small = small_shift j s hs hj in
    let fits : IsU64 (b % 128 * 2 ^ s) = omega (arith, group, small) in
    omega (arith, group, add_group_fits value b s low fits, shift_seven s)

early_IsU64 : (value s j : ℕ) → s ≡ 7 * j → j ≤ 8 → value < 2 ^ (s + 7) → IsU64 value
early_IsU64 value s j hs hj h = omega (arith, shift_seven s, small_shift j s hs hj)

-- The tenth byte adds one bit at most.
add_group_last : (value b : ℕ) → value < 2 ^ 63 → IsU64 (add_group value b 63)
add_group_last value b low =
    let top : b % 128 * 2 ^ 63 % 2 ^ 64 ≡ b % 2 * 2 ^ 63 = omega arith in
    ground (arith, top, low_bits b, bit_or_above 63 (b % 2) value low)

add_group-IsU64 :
    (value b j s : ℕ) → s ≡ 7 * j → j ≤ 9 → value < 2 ^ s → IsU64 (add_group value b s)
add_group-IsU64 value b j s hs hj low = elim (dec_le j 8) [
  | yes early ↦ early_IsU64 _ s j hs early (add_group_early value b j s hs early low)
  | no late ↦
      let last : s ≡ 63 = omega arith in
      let low' : value < 2 ^ 63 = subst (λ k. value < 2 ^ k) last low in
      rw last (add_group_last value b low')
]

decode_varint_loop_takes :
    (input : Bytes) (value s j v : ℕ) (rest : Bytes)
    → s ≡ 7 * j
    → j ≤ 9
    → value < 2 ^ s
    → decode_varint_loop value s input ≡ ok (v, rest)
    → IsU64 v × (length rest < length input) × (length input + j ≤ length rest + 10)
unfolding decode_varint_loop
decode_varint_loop_takes [] value s j v rest hs hj low e = cc
decode_varint_loop_takes (b ∷ bs) value s j v rest hs hj low e = ground (
  arith,
  add_group-IsU64 value b j s hs hj low,
  add_group_early value b j s hs,
  decode_varint_loop_takes bs (add_group value b s) (s + 7) (suc j) v rest,
)

-- A successful `decode_varint` returns a u64 and takes 1 to 10 bytes.
pub decode_varint_takes :
    (input : Bytes) (v : ℕ) (rest : Bytes)
    → decode_varint input ≡ ok (v, rest)
    → IsU64 v × (length rest < length input) × (length input ≤ length rest + 10)
unfolding decode_varint
decode_varint_takes input v rest e =
    ground (arith, decode_varint_loop_takes input 0 0 0 v rest refl (omega arith) (omega arith) e)

decode_varint_loop-append :
    (input more : Bytes) (value s v : ℕ) (rest : Bytes)
    → decode_varint_loop value s input ≡ ok (v, rest)
    → decode_varint_loop value s (input ++ more) ≡ ok (v, rest ++ more)
unfolding decode_varint_loop
decode_varint_loop-append [] more value s v rest e = cc
decode_varint_loop-append (b ∷ bs) more value s v rest e =
    ground (arith, decode_varint_loop-append bs more (add_group value b s) (s + 7) v rest)

-- `decode_varint` does not look past the number that it reads.
pub decode_varint-append :
    (input more : Bytes) (v : ℕ) (rest : Bytes)
    → decode_varint input ≡ ok (v, rest)
    → decode_varint (input ++ more) ≡ ok (v, rest ++ more)
unfolding decode_varint
decode_varint-append input more v rest e = decode_varint_loop-append input more 0 0 v rest e

-- A byte of the wire.
abbrev pub IsByte : ℕ → Type 0
IsByte b = b < 256

encode_varint_loop_shape :
    (k v : ℕ) (wf : Acc ◌<◌ v)
    → v < 128 ^ suc k
    → All IsByte (encode_varint_loop v wf)
      × (1 ≤ length (encode_varint_loop v wf))
      × (length (encode_varint_loop v wf) ≤ suc k)
unfolding encode_varint_loop
encode_varint_loop_shape zero v (Acc.intro _ smaller) h =
    rw (dif_neg (dec_le 128 v) (omega arith) _ _) (omega arith)
encode_varint_loop_shape (suc k) v (Acc.intro _ smaller) h = elim (dec_le 128 v) [
  | yes more ↦
      let (bytes, lo, hi) =
        encode_varint_loop_shape k (v / 128) (smaller _ (shift_shrinks v more))
          (omega (arith, pow-succ' 128 (suc k))) in
      rw (dif_pos (dec_le 128 v) le_prop more _ _)
        ((omega (arith, set_top_bit (v % 256)), bytes), omega arith, omega (arith, hi))
  | no done ↦ rw (dif_neg (dec_le 128 v) done _ _) (omega arith)
]

-- `encode_varint` writes 1 to 10 bytes for a u64.
pub encode_varint_shape :
    (v : ℕ)
    → IsU64 v
    → All IsByte (encode_varint v)
      × (1 ≤ length (encode_varint v))
      × (length (encode_varint v) ≤ 10)
unfolding encode_varint
encode_varint_shape v h = encode_varint_loop_shape 9 v (lt_wf.apply v) (omega arith)
