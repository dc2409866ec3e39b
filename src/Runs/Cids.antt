-- ===== src/Runs/Cids.antt =====
-- Runs of the texts of contenthashes of example/dotli/src/lib.rs.
use microdot.Base.{ℕ, List, map, ◌↔◌, ◌≡◌, refl, [], ◌∷◌, Bytes, ok, arith}
use microdot.Text.{text}
use microdot.Dotli.Contenthash.{
  char_at, alphabet, base32_digits, decode_contenthash_cid, base32_lower_no_pad,
}
use microdot.Dotli.Contenthash.Base32.{IsBase32, base32_lower_no_pad_lem}
use microdot.Dotli.Contenthash.Texts.{IsCid, decode_contenthash_cid_iff}

base32_lower_no_pad_lem_example :
    (digits : List ℕ) × (base32_lower_no_pad (0x66 ∷ 0x6f ∷ [])
      ≡ map (λ digit. char_at digit alphabet) digits)
    × IsBase32 0 0 0 (0x66 ∷ 0x6f ∷ []) digits
base32_lower_no_pad_lem_example =
    base32_lower_no_pad_lem (0x66 ∷ 0x6f ∷ []) (omega arith, (omega arith, tt))

-- the test vector of RFC 4648 for "foobar"
foobar : base32_lower_no_pad (text "foobar") ≡ text "mzxw6ytboi"
unfolding base32_lower_no_pad base32_digits
foobar = refl

decode_contenthash_cid_iff_example :
    (decode_contenthash_cid (λ bytes. bytes) (0xe3 ∷ 0x01 ∷ 0x01 ∷ 0x71 ∷ []) ≡ ok (text "bafyq"))
    ↔ ((cid : Bytes) × (0xe3 ∷ 0x01 ∷ 0x01 ∷ 0x71 ∷ [] ≡ 0xe3 ∷ 0x01 ∷ cid)
        × IsCid (λ bytes. bytes) cid (text "bafyq"))
decode_contenthash_cid_iff_example =
    decode_contenthash_cid_iff (λ bytes. bytes) (0xe3 ∷ 0x01 ∷ 0x01 ∷ 0x71 ∷ []) (text "bafyq")
