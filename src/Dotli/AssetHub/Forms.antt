-- ===== src/Dotli/AssetHub/Forms.antt =====
-- The two forms of a Solidity `bytes` value in its base slot, and the length that
-- `decode_long_bytes_length` of example/dotli/src/lib.rs reads from the long one.
use microdot.Base.{
  ℕ, suc, ◌+◌, ◌-◌, ◌*◌, ◌/◌, ◌%◌, ◌^◌, ◌≤◌, ◌≡◌, refl, sym, ap, ◌∙◌, ◌==◌, [], ◌∷◌, ◌++◌, Bytes,
  length, take, drop, take-append-drop, bit_and, ok, true, arith, inl, inr, Bool-cases,
}
use native.Mathlib.Nat.{pow-suc}
use microdot.Base.Bits.{bit_and_one}
use microdot.Dotli.Words.{last_byte, decode_long_bytes_length, all_zero, accumulate}

-- The number that bytes stand for, the most significant first.
abbrev pub word : Bytes → ℕ
word [] = 0
word (b ∷ bytes) = b * 256 ^ length bytes + word bytes

-- The short form of a `bytes` value: the last byte is twice the length, and the content stands at
-- the front of the slot.
pub record IsShort (base_slot found : Bytes) : Type 0 where
  pub front : Bytes
  pub len : ℕ
  pub marked : base_slot ≡ front ++ ((2 * len) ∷ [])
  pub fits : len ≤ 32
  pub content : found ≡ take len base_slot

word-all_zero : (xs ys : Bytes) → all_zero xs ≡ true → word (xs ++ ys) ≡ word ys
word-all_zero [] ys h = refl
word-all_zero (b ∷ xs) ys h = ground (arith, h, word-all_zero xs ys)

scale : (a b p : ℕ) → (a * 256 + b) * p ≡ a * (p * 256) + b * p
scale a b p = omega arith

-- One byte more is one digit more.
shift :
    (a b : ℕ) (xs : Bytes)
    → (a * 256 + b) * 256 ^ length xs ≡ a * 256 ^ length (b ∷ xs) + b * 256 ^ length xs
shift a b xs =
    scale a b (256 ^ length xs)
    ∙ ap (λ q. a * q + b * 256 ^ length xs) (sym (pow-suc 256 (length xs)))

word-accumulate : (a : ℕ) (xs : Bytes) → accumulate a xs ≡ a * 256 ^ length xs + word xs
word-accumulate a [] = omega arith
word-accumulate a (b ∷ xs) = omega (arith, word-accumulate (a * 256 + b) xs, shift a b xs)

even_digits : (a n : ℕ) → a * 256 ^ (suc n) ≡ 2 * (128 * (a * 256 ^ n))
even_digits a n = ap (λ q. a * q) (pow-suc 256 n) ∙ omega arith

-- Whether the number is odd is up to the last byte.
pub word_parity : (xs : Bytes) → word xs % 2 ≡ last_byte xs % 2
word_parity [] = refl
word_parity (b ∷ []) = omega arith
word_parity (a ∷ b ∷ xs) = omega (arith, word_parity (b ∷ xs), even_digits a (length xs))

pub last_byte_end : (front : Bytes) (b : ℕ) → last_byte (front ++ (b ∷ [])) ≡ b
last_byte_end [] b = refl
last_byte_end (a ∷ []) b = refl
last_byte_end (a ∷ c ∷ front) b = last_byte_end (c ∷ front) b

last_byte_split :
    (b : ℕ) (xs : Bytes) → (front : Bytes) × (b ∷ xs ≡ front ++ (last_byte (b ∷ xs) ∷ []))
last_byte_split b [] = ([], refl)
last_byte_split b (c ∷ xs) = let (front, e) = last_byte_split c xs in (b ∷ front, ap (◌∷◌ b) e)

-- A slot whose last byte is even.
pub marked_by :
    (slot : Bytes)
    → length slot ≡ 32
    → (bit_and (last_byte slot) 1 == 0) ≡ true
    → (front : Bytes) × (slot ≡ front ++ ((2 * (last_byte slot / 2)) ∷ []))
marked_by [] l q = absurd (omega (arith, l))
marked_by (b ∷ xs) l q =
    let (front, e) = last_byte_split b xs in
    (
      front,
      e
          ∙ ap (λ n. front ++ (n ∷ [])) {y = 2 * (last_byte (b ∷ xs) / 2)}
              (ground (arith, q, bit_and_one (last_byte (b ∷ xs)))),
    )

-- The length that is read is the encoded one, cut to `w` bits.
pub decode_long_bytes_length-word :
    (w n : ℕ) (slot : Bytes)
    → decode_long_bytes_length w slot ≡ ok n
    → (total : ℕ) × (word slot ≡ 2 * total + 1) × (n ≡ total % 2 ^ w)
unfolding decode_long_bytes_length
decode_long_bytes_length-word w n slot e =
    let back : word slot ≡ word (take 16 slot ++ drop 16 slot) =
      ap word (sym (take-append-drop 16 slot)) in
    elim (Bool-cases (bit_and (last_byte slot) 1 == 0)) [
      | inl q ↦ absurd (ground (arith, q, e))
      | inr q ↦ elim (Bool-cases (all_zero (take 16 slot))) [
        | inr z ↦ absurd (ground (arith, q, z, e))
        | inl z ↦ (
          (word slot - 1) / 2,
          ground (arith, q, bit_and_one (last_byte slot), word_parity slot),
          ground (
            arith,
            q,
            z,
            e,
            back,
            word-all_zero (take 16 slot) (drop 16 slot) z,
            word-accumulate 0 (drop 16 slot),
          ),
        )
      ]
    ]
