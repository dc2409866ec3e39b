-- ===== src/Dotli/Contenthash/Texts.antt =====
-- Which contenthashes have a text, and what the escape for HTML leaves out (example/dotli/src/lib.rs,
-- `decode_contenthash_cid` and `html_escape`).
use microdot.Base.{
  ◌↔◌, ℕ, ◌≡◌, ◌≢◌, sym, ap, ◌∙◌, inl, inr, [], ◌∷◌, ◌++◌, Bytes, length, All, All-append, ◌==◌, ok,
  Bool-cases, arith, subst,
}
use microdot.Text.{Text, text}
use microdot.Dotli.Contenthash.{base32_lower_no_pad, decode_contenthash_cid, replace, html_escape}

module _ (bs58_encode : Bytes → Text) where
  -- A CIDv1, or a CIDv0 of a sha2-256 hash, and its text.
  pub data IsCid : Bytes → Text → Type 0 where
    version1 : (cid : Bytes) → IsCid (0x01 ∷ cid) (text "b" ++ base32_lower_no_pad (0x01 ∷ cid))
    version0 :
        (hash : Bytes)
        → length hash ≡ 32
        → IsCid (0x12 ∷ 0x20 ∷ hash) (bs58_encode (0x12 ∷ 0x20 ∷ hash))

  of_version1 :
      (c : ℕ) (t : Bytes) (s : Text)
      → c ≡ 0x01
      → text "b" ++ base32_lower_no_pad (c ∷ t) ≡ s
      → IsCid (c ∷ t) s
  of_version1 c t s p q =
      subst (IsCid (c ∷ t)) q
        (subst (λ x. IsCid (x ∷ t) (text "b" ++ base32_lower_no_pad (x ∷ t))) (sym p) (version1 t))

  of_version0 :
      (c d : ℕ) (t : Bytes) (s : Text)
      → c ≡ 0x12
      → d ≡ 0x20
      → length t ≡ 32
      → bs58_encode (c ∷ d ∷ t) ≡ s
      → IsCid (c ∷ d ∷ t) s
  of_version0 c d t s p r l q = subst (IsCid (c ∷ d ∷ t)) q (
      subst (λ x. IsCid (x ∷ d ∷ t) (bs58_encode (x ∷ d ∷ t))) (sym p)
        (subst (λ y. IsCid (0x12 ∷ y ∷ t) (bs58_encode (0x12 ∷ y ∷ t))) (sym r) (version0 t l)))

  prefixed : (a b : ℕ) (t : Bytes) → a ≡ 0xe3 → b ≡ 0x01 → a ∷ b ∷ t ≡ 0xe3 ∷ 0x01 ∷ t
  prefixed a b t p q = ap (λ x. x ∷ b ∷ t) p ∙ ap (λ y. 0xe3 ∷ y ∷ t) q

  decode_contenthash_cid-IsCid :
      (bytes : Bytes) (s : Text)
      → decode_contenthash_cid bs58_encode bytes ≡ ok s
      → (cid : Bytes) × (bytes ≡ 0xe3 ∷ 0x01 ∷ cid) × IsCid cid s
  unfolding decode_contenthash_cid
  decode_contenthash_cid-IsCid [] s e = ground (arith, e)
  decode_contenthash_cid-IsCid (a ∷ []) s e = ground (arith, e)
  decode_contenthash_cid-IsCid (a ∷ b ∷ []) s e = ground (arith, e)
  decode_contenthash_cid-IsCid (a ∷ b ∷ c ∷ []) s e =
      let p : a ≡ 0xe3 = ground (arith, e) in
      let q : b ≡ 0x01 = ground (arith, e) in
      elim (Bool-cases (c == 0x01)) [
        | inl v ↦ (
          c ∷ [],
          prefixed a b (c ∷ []) p q,
          of_version1 c ([]) s (ground (arith, v)) (ground (arith, e, v)),
        )
        | inr v ↦ ground (arith, e, v)
      ]
  decode_contenthash_cid-IsCid (a ∷ b ∷ c ∷ d ∷ t) s e =
      let p : a ≡ 0xe3 = ground (arith, e) in
      let q : b ≡ 0x01 = ground (arith, e) in
      elim (Bool-cases (c == 0x01)) [
        | inl v ↦ (
          c ∷ d ∷ t,
          prefixed a b (c ∷ d ∷ t) p q,
          of_version1 c (d ∷ t) s (ground (arith, v)) (ground (arith, e, v)),
        )
        | inr v ↦ (
          c ∷ d ∷ t,
          prefixed a b (c ∷ d ∷ t) p q,
          of_version0 c d t s (ground (arith, e, v)) (ground (arith, e, v)) (ground (arith, e, v))
              (ground (arith, e, v)),
        )
      ]

  decode_IsCid :
      (cid : Bytes) (s : Text)
      → IsCid cid s
      → decode_contenthash_cid bs58_encode (0xe3 ∷ 0x01 ∷ cid) ≡ ok s
  unfolding decode_contenthash_cid
  decode_IsCid cid s (version1 t) = ground arith
  decode_IsCid cid s (version0 hash l) = ground (arith, l)

  -- A contenthash has a text if and only if it is the prefix 0xe3 0x01 with a CID behind it, and
  -- then the text is that CID's.
  pub decode_contenthash_cid_iff :
      (bytes : Bytes) (s : Text)
      → (decode_contenthash_cid bs58_encode bytes ≡ ok s)
        ↔ ((cid : Bytes) × (bytes ≡ 0xe3 ∷ 0x01 ∷ cid) × IsCid cid s)
  decode_contenthash_cid_iff bytes s = (
    decode_contenthash_cid-IsCid bytes s,
    λ (cid, e, h). ap (decode_contenthash_cid bs58_encode) e ∙ decode_IsCid cid s h,
  )

abbrev pub Lacks : ℕ → Text → Type 0
Lacks c s = All (λ d. d ≢ c) s

replace-Lacks : (c : ℕ) (by s : Text) → Lacks c by → Lacks c (replace c by s)
replace-Lacks c by [] h = tt
replace-Lacks c by (d ∷ s) h = elim (Bool-cases (d == c)) [
  | inl q ↦ rw (q, replace) (All-append (λ x. x ≢ c) by _ h (replace-Lacks c by s h))
  | inr q ↦ rw (q, replace) (ground (arith, q), replace-Lacks c by s h)
]

replace_keeps : (e c : ℕ) (by s : Text) → Lacks e by → Lacks e s → Lacks e (replace c by s)
replace_keeps e c by [] h k = tt
replace_keeps e c by (d ∷ s) h (n, k) = elim (Bool-cases (d == c)) [
  | inl q ↦ rw (q, replace) (All-append (λ x. x ≢ e) by _ h (replace_keeps e c by s h k))
  | inr q ↦ rw (q, replace) (n, replace_keeps e c by s h k)
]

-- An escaped text has neither of the two characters that open and close a tag.
pub html_escape_lem : (s : Text) → Lacks b'<' (html_escape s) × Lacks b'>' (html_escape s)
unfolding html_escape
html_escape_lem s =
    let amp = replace b'&' (text "&amp;") s in
    let lt_less = replace-Lacks b'<' (text "&lt;") amp (ground arith) in
    (
      replace_keeps b'<' b'>' (text "&gt;") (replace b'<' (text "&lt;") amp) (ground arith) lt_less,
      replace-Lacks b'>' (text "&gt;") (replace b'<' (text "&lt;") amp) (ground arith),
    )
