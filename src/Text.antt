-- ===== src/Text.antt =====
-- Rust's `str` and `String` as their UTF-8 bytes, with what the program uses of the standard
-- library: `{}` of an unsigned integer, `u16::from_str`, `str::from_utf8`, `split` and
-- `trim_start_matches` with a one-byte pattern, and `==`.
pub mod Decimal
pub mod Split
pub mod Order
use Prim.Native.Char.{code}
use Prim.Native.String.{String}
use Prim.Native.Nat.{compare, Ordering}
use microdot.Base.{
  ℕ, zero, suc, ◌+◌, ◌-◌, ◌*◌, ◌/◌, ◌%◌, ◌≤◌, ◌<◌, Bool, true, false, ◌&&◌, ◌||◌, Option, none,
  some, List, [], ◌∷◌, ◌++◌, Bytes, leb, ltb, ◌==◌, if◌then◌else◌, arith,
}
use microdot.Base.WellFounded.{lt_wf}
use mathlib.Core.Logic.{dite}
use mathlib.Core.WellFounded.{Acc}
use native.Mathlib.Decide.{dec_le}

abbrev pub Text : Type 0
Text = List ℕ

-- A literal. All literals of the program are ASCII, so a character is its byte.
abbrev pub text : String → Text
text String.[] = []
text (String.◌∷◌ c s) = code c ∷ text s

abbrev pub text_eq : Text → Text → Bool
text_eq [] [] = true
text_eq [] (b ∷ t) = false
text_eq (a ∷ s) [] = false
text_eq (a ∷ s) (b ∷ t) = a == b && text_eq s t

tenth_shrinks : (n : ℕ) → 10 ≤ n → n / 10 < n
tenth_shrinks n h = omega arith

show_loop : (n : ℕ) → Acc ◌<◌ n → Text
show_loop n (Acc.intro _ smaller) =
    dite (dec_le 10 n)
      (λ more. show_loop (n / 10) (smaller _ (tenth_shrinks n more)) ++ ((n % 10 + b'0') ∷ []))
      (λ _. (n + b'0') ∷ [])

-- `format!("{n}")` of an unsigned integer.
unfoldable pub show : ℕ → Text
unfolding show_loop tenth_shrinks lt_wf dec_le
show n = show_loop n (lt_wf.apply n)

abbrev is_digit : ℕ → Bool
is_digit c = leb b'0' c && leb c b'9'

-- The digits of a u16 behind `acc`; `none` on another byte and on overflow.
read_digits : ℕ → Text → Option ℕ
read_digits acc [] = some acc
read_digits acc (c ∷ cs) =
    let acc' = acc * 10 + (c - b'0') in
    let rest = read_digits acc' cs in if is_digit c && leb acc' 65535 then rest else none

-- What follows an optional `+` has a digit at least.
read_unsigned : Text → Option ℕ
unfolding read_digits
read_unsigned [] = none
read_unsigned (c ∷ cs) = read_digits 0 (c ∷ cs)

-- `s.parse::<u16>().ok()`
unfoldable pub parse_u16 : Text → Option ℕ
unfolding read_unsigned
parse_u16 [] = none
parse_u16 (c ∷ cs) = if c == b'+' then read_unsigned cs else read_unsigned (c ∷ cs)

abbrev between : ℕ → ℕ → ℕ → Bool
between lo hi b = leb lo b && leb b hi

-- The bytes that a first byte asks for, and the range of the first of them.
utf8_head : ℕ → Option (ℕ × ℕ × ℕ)
utf8_head b =
    if ltb b 0x80
    then some (0, 0x80, 0xbf)
    else if between 0xc2 0xdf b
    then some (1, 0x80, 0xbf)
    else if b == 0xe0
    then some (2, 0xa0, 0xbf)
    else if b == 0xed
    then some (2, 0x80, 0x9f)
    else if between 0xe1 0xef b
    then some (2, 0x80, 0xbf)
    else if b == 0xf0
    then some (3, 0x90, 0xbf)
    else if between 0xf1 0xf3 b
    then some (3, 0x80, 0xbf)
    else if b == 0xf4
    then some (3, 0x80, 0x8f)
    else none

utf8_from : ℕ → ℕ → ℕ → Bytes → Bool
utf8_from zero lo hi [] = true
utf8_from (suc need) lo hi [] = false
utf8_from zero lo hi (b ∷ bs) = elim (utf8_head b) [
  | none ↦ false
  | some (need, lo', hi') ↦ utf8_from need lo' hi' bs
]
utf8_from (suc need) lo hi (b ∷ bs) =
    let rest = utf8_from need 0x80 0xbf bs in if between lo hi b then rest else false

unfoldable pub is_utf8 : Bytes → Bool
unfolding utf8_from utf8_head
is_utf8 bytes = utf8_from 0 0x80 0xbf bytes

-- `core::str::from_utf8(b).ok()`
unfoldable pub from_utf8 : Bytes → Option Text
from_utf8 bytes = if is_utf8 bytes then some bytes else none

-- `s.trim_start_matches(c)`
unfoldable pub trim_start_matches : ℕ → Text → Text
trim_start_matches c [] = []
trim_start_matches c (x ∷ xs) =
    let rest = trim_start_matches c xs in if x == c then rest else x ∷ xs

-- The piece in front of the first separator, and the pieces after it.
split_first : ℕ → Text → Text × List Text
split_first c [] = ([], [])
split_first c (x ∷ xs) =
    let (piece, pieces) = split_first c xs in
    if x == c then ([], piece ∷ pieces) else (x ∷ piece, pieces)

-- `s.split(c)`: one piece more than there are separators.
unfoldable pub split : ℕ → Text → List Text
unfolding split_first
split c s = let (piece, pieces) = split_first c s in piece ∷ pieces
