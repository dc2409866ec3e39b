-- ===== src/Wire.antt =====
-- src/kad.rs: the varint and slice helpers that the protobuf and multiaddr readers
-- share, and the loop `while !input.is_empty() { … }` that all those readers are instances of.
-- `&mut &[u8]` is passed in and handed back as the second part of the result; after an error the
-- source drops the slice. `usize` is `w` bits wide (64 on a native host, 32 under wasm32).
pub mod Walk
pub mod Varint
pub mod Bounds
pub mod Errors
pub mod Field
pub mod Reader
pub mod Slices
mod Tests
use microdot.Base.{
  ℕ, zero, suc, ◌+◌, ◌-◌, ◌*◌, ◌/◌, ◌%◌, ◌^◌, ◌≤◌, ◌<◌, bit_and, bit_or, List, [], ◌∷◌, ◌++◌, Bytes,
  length, take, drop, ltb, leb, ◌==◌, if◌then◌else◌, Result, ok, err, ◌>>=◌, arith,
}
use microdot.Base.WellFounded.{lt_wf}
use mathlib.Core.Logic.{dite}
use mathlib.Core.WellFounded.{Acc}
use native.Mathlib.Decide.{dec_le}

-- The errors of the readers: the texts of kad.rs and state.rs as constructors.
pub data Error : Type 0 where
  eof_in_varint : Error
  varint_too_long : Error
  -- `EOF: need {n}, have {len}`
  eof : ℕ → ℕ → Error
  -- `.context("kad response: top-level tag")`
  top_level_tag : Error → Error
  -- wire type, field
  unsupported_wire_type : ℕ → ℕ → Error
  no_proof_field : Error

abbrev pub IsU64 : ℕ → Type 0
IsU64 v = v < 2 ^ 64

shift_shrinks : (v : ℕ) → 0x80 ≤ v → v / 128 < v
shift_shrinks v h = omega arith

-- What the loop pushes behind `out`: `value as u8` is `value % 256`, and `value >>= 7` is `/ 128`.
encode_varint_loop : (value : ℕ) → Acc ◌<◌ value → Bytes
encode_varint_loop value (Acc.intro _ smaller) =
    dite (dec_le 0x80 value)
      (λ more.
        bit_or (value % 256) 0x80
        ∷ encode_varint_loop (value / 128) (smaller _ (shift_shrinks value more)))
      (λ _. (value % 256) ∷ [])

unfoldable pub encode_varint : ℕ → Bytes
unfolding encode_varint_loop shift_shrinks lt_wf dec_le
encode_varint value = encode_varint_loop value (lt_wf.apply value)

-- `value |= u64::from(byte & 0x7f) << shift`, in 64 bits.
abbrev pub add_group : ℕ → ℕ → ℕ → ℕ
add_group value byte shift = bit_or value (bit_and byte 0x7f * 2 ^ shift % 2 ^ 64)

pub decode_varint_loop : ℕ → ℕ → Bytes → Result Error (ℕ × Bytes)
decode_varint_loop value shift [] = err eof_in_varint
decode_varint_loop value shift (byte ∷ rest) =
    let value' = add_group value byte shift in
    let next = decode_varint_loop value' (shift + 7) rest in
    if bit_and byte 0x80 == 0
    then ok (value', rest)
    else if leb 64 (shift + 7)
    then err varint_too_long
    else next

unfoldable pub decode_varint : Bytes → Result Error (ℕ × Bytes)
unfolding decode_varint_loop
decode_varint input = decode_varint_loop 0 0 input

unfoldable pub take_bytes : Bytes → ℕ → Result Error (Bytes × Bytes)
take_bytes input n =
    if ltb (length input) n then err (eof n (length input)) else ok (take n input, drop n input)

-- `let len = decode_varint(&mut input)? as usize; take_bytes(&mut input, len)?`
unfoldable pub take_delimited : ℕ → Bytes → Result Error (Bytes × Bytes)
take_delimited w input = do (len, rest) ← decode_varint input; take_bytes rest (len % 2 ^ w)
