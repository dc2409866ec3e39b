-- ===== src/Dotli/Contenthash.antt =====
-- example/dotli/src/lib.rs: the text of a contenthash, and the escape of text for HTML. The base58
-- crate is a parameter.
pub mod Base32
pub mod Texts
use microdot.Base.{
  ℕ, zero, suc, ◌+◌, ◌-◌, ◌*◌, ◌/◌, ◌%◌, ◌^◌, Bool, ◌&&◌, ◌||◌, not, List, [], ◌∷◌, ◌++◌, map,
  Bytes, length, drop, leb, ltb, ◌==◌, if◌then◌else◌, Result, ok, err,
}
use microdot.Text.{Text, text}

abbrev pub alphabet : Text
alphabet = text "abcdefghijklmnopqrstuvwxyz234567"

abbrev pub char_at : ℕ → Text → ℕ
char_at n [] = 0
char_at zero (c ∷ cs) = c
char_at (suc n) (c ∷ cs) = char_at n cs

-- `while bits >= 5`: the digits pushed and the bits left. Each round takes five bits, so `bits`
-- rounds are enough.
abbrev pub drain : ℕ → ℕ → ℕ → List ℕ × ℕ
drain zero buf bits = ([], bits)
drain (suc fuel) buf bits =
    let later = drain fuel buf (bits - 5) in
    if leb 5 bits then ((buf / 2 ^ (bits - 5) % 32) ∷ later.0, later.1) else ([], bits)

-- The loop over the input, and what follows it. The buffer has 32 bits, of which a shift leaves the
-- lowest eight zero, so that the `|` adds the byte.
unfoldable pub base32_digits : ℕ → ℕ → Bytes → List ℕ
base32_digits buf bits [] = if ltb 0 bits then (buf * 2 ^ (5 - bits) % 2 ^ 32 % 32) ∷ [] else []
base32_digits buf bits (byte ∷ input) =
    let shifted = buf * 256 % 2 ^ 32 + byte in
    let drained = drain (bits + 8) shifted (bits + 8) in
    drained.0 ++ base32_digits shifted (drained.1) input

unfoldable pub base32_lower_no_pad : Bytes → Text
base32_lower_no_pad input = map (λ digit. char_at digit alphabet) (base32_digits 0 0 input)

pub data CidError : Type 0 where
  not_ipfs : CidError
  unrecognised : CidError

abbrev pub byte_at : ℕ → Bytes → ℕ
byte_at n bytes = char_at n bytes

module _ (bs58_encode : Bytes → Text) where
  unfoldable pub decode_contenthash_cid : Bytes → Result CidError Text
  decode_contenthash_cid bytes =
      let cid_bytes = drop 2 bytes in
      if ltb (length bytes) 2 || (not (byte_at 0 bytes == 0xe3) || not (byte_at 1 bytes == 0x01))
      then err not_ipfs
      else if not (length cid_bytes == 0) && byte_at 0 cid_bytes == 0x01
      then ok (text "b" ++ base32_lower_no_pad cid_bytes)
      else if length cid_bytes == 34 && (byte_at 0 cid_bytes == 0x12 && byte_at 1 cid_bytes == 0x20)
      then ok (bs58_encode cid_bytes)
      else err unrecognised

-- `replace` of one character by a text
abbrev pub replace : ℕ → Text → Text → Text
replace c by [] = []
replace c by (d ∷ s) = if d == c then by ++ replace c by s else d ∷ replace c by s

unfoldable pub html_escape : Text → Text
html_escape s =
    replace b'>' (text "&gt;") (replace b'<' (text "&lt;") (replace b'&' (text "&amp;") s))
