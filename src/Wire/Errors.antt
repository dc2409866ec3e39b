-- ===== src/Wire/Errors.antt =====
-- `decode_varint` where the number does not end.
use microdot.Base.{ℕ, ◌+◌, ◌*◌, ◌≤◌, ◌<◌, ◌≡◌, refl, [], ◌∷◌, ◌++◌, Bytes, All, length, err, arith}
use microdot.Base.Bits.{top_bit}
use microdot.Wire.{eof_in_varint, varint_too_long, add_group, decode_varint_loop, decode_varint}

-- A byte that announces another.
abbrev pub IsContinuation : ℕ → Type 0
IsContinuation b = (128 ≤ b) × (b < 256)

loop_eof :
    (xs : Bytes) (value s : ℕ)
    → All IsContinuation xs
    → s + 7 * length xs < 64
    → decode_varint_loop value s xs ≡ err eof_in_varint
unfolding decode_varint_loop
loop_eof [] value s all h = refl
loop_eof (b ∷ xs) value s (hb, all) h =
    ground (arith, top_bit b, loop_eof xs (add_group value b s) (s + 7) all)

loop_too_long :
    (xs rest : Bytes) (value s : ℕ)
    → All IsContinuation xs
    → s + 7 * length xs ≡ 70
    → s < 64
    → decode_varint_loop value s (xs ++ rest) ≡ err varint_too_long
unfolding decode_varint_loop
loop_too_long [] rest value s all h hs = absurd (omega arith)
loop_too_long (b ∷ xs) rest value s (hb, all) h hs =
    ground (arith, top_bit b, loop_too_long xs rest (add_group value b s) (s + 7) all)

-- Input that ends within the first nine bytes of a number is `EOF in varint`.
pub decode_varint_eof :
    (xs : Bytes) → All IsContinuation xs → length xs ≤ 9 → decode_varint xs ≡ err eof_in_varint
unfolding decode_varint
decode_varint_eof xs all h = loop_eof xs 0 0 all (omega (arith, h))

-- Ten bytes that all announce another are `varint > 64 bits`, whatever follows.
decode_varint_too_long :
    (xs rest : Bytes)
    → All IsContinuation xs
    → length xs ≡ 10
    → decode_varint (xs ++ rest) ≡ err varint_too_long
unfolding decode_varint
decode_varint_too_long xs rest all h =
    loop_too_long xs rest 0 0 all (omega (arith, h)) (omega arith)
