-- ===== src/Dotli/Words.antt =====
-- example/dotli/src/lib.rs: 256-bit words, storage keys and the decision on a cached head. The hash
-- functions of sp-core are arguments. A word is a list of 32 bytes, the most significant first.
use microdot.Base.{
  ℕ, zero, suc, ◌+◌, ◌-◌, ◌*◌, ◌/◌, ◌%◌, ◌^◌, ◌<◌, ◌≡◌, Bool, true, not, ◌&&◌, Option, none, some,
  List, [], ◌∷◌, ◌++◌, Bytes, take, drop, bit_and, leb, ◌==◌, if◌then◌else◌, Result, ok, err, arith,
  Bool-cases, ==_iff, inl, inr,
}
use microdot.Text.{Text, text, split}
use microdot.Dotli.Persistence.{AssetHubHeadCache}
use mathlib.Core.List.{reverse, reverse-reverse}

-- The loop of `u256_add` from the last byte on; at a carry of zero it stops.
unfoldable pub add_carry : ℕ → Bytes → Bytes
add_carry carry [] = []
add_carry carry (b ∷ bytes) =
    let sum = b + carry % 256 in
    let carry' = carry / 256 + sum / 256 in
    let rest = add_carry carry' bytes in (sum % 256) ∷ (if carry' == 0 then bytes else rest)

unfoldable pub u256_add : Bytes → ℕ → Bytes
u256_add base offset = reverse (add_carry offset (reverse base))

abbrev pub all_zero : Bytes → Bool
all_zero [] = true
all_zero (b ∷ bytes) = b == 0 && all_zero bytes

-- `acc = (acc << 8) | b` over bytes
abbrev pub accumulate : ℕ → Bytes → ℕ
accumulate acc [] = acc
accumulate acc (b ∷ bytes) = accumulate (acc * 256 + b) bytes

pub data SlotError : Type 0 where
  not_long_bytes : SlotError
  length_too_large : SlotError

abbrev pub last_byte : Bytes → ℕ
last_byte [] = 0
last_byte (b ∷ []) = b
last_byte (a ∷ b ∷ bytes) = last_byte (b ∷ bytes)

-- `as usize` of `w` bits; the last byte is odd, so `acc - 1` does not go below zero.
unfoldable pub decode_long_bytes_length : ℕ → Bytes → Result SlotError ℕ
decode_long_bytes_length w slot =
    if bit_and (last_byte slot) 1 == 0
    then err not_long_bytes
    else if not (all_zero (take 16 slot))
    then err length_too_large
    else ok ((accumulate 0 (drop 16 slot) - 1) / 2 % 2 ^ w)

abbrev pub zeros : ℕ → Bytes
zeros zero = []
zeros (suc n) = 0 ∷ zeros n

unfoldable pub compute_mapping_slot : (Bytes → Bytes) → Bytes → ℕ → Bytes
compute_mapping_slot keccak_256 key slot_number =
    keccak_256 (key ++ (zeros 31 ++ (slot_number ∷ [])))

abbrev pub hash_labels : (Bytes → Bytes) → Bytes → List Text → Bytes
hash_labels keccak_256 node [] = node
hash_labels keccak_256 node (label ∷ labels) =
    hash_labels keccak_256 (keccak_256 (node ++ keccak_256 label)) labels

unfoldable pub namehash_eip137 : (Bytes → Bytes) → Text → Bytes
namehash_eip137 keccak_256 [] = zeros 32
namehash_eip137 keccak_256 (c ∷ name) =
    hash_labels keccak_256 (zeros 32) (reverse (split b'.' (c ∷ name)))

unfoldable pub revive_account_info_key : (Bytes → Bytes) → Bytes → Bytes
revive_account_info_key twox_128 addr =
    twox_128 (text "Revive") ++ (twox_128 (text "AccountInfoOf") ++ addr)

-- `u32::encode` of the SCALE codec is the argument `encode_u32`.
unfoldable pub paras_heads_key : (Bytes → Bytes) → (Bytes → Bytes) → (ℕ → Bytes) → ℕ → Bytes
paras_heads_key twox_128 twox_64 encode_u32 para_id =
    let id_encoded = encode_u32 para_id in
    twox_128 (text "Paras") ++ (twox_128 (text "Heads") ++ (twox_64 id_encoded ++ id_encoded))

pub data HeadDecision : Type 0 where
  use_cached : AssetHubHeadCache → ℕ → HeadDecision
  -- the reasons, one for each text
  no_cached_head : HeadDecision
  fresh_asked : HeadDecision
  older_than_allowed : HeadDecision

-- `saturating_sub` is the subtraction of natural numbers.
unfoldable pub decide : Option AssetHubHeadCache → ℕ → ℕ → HeadDecision
decide none max_age_secs now_ms_unix = no_cached_head
decide (some c) max_age_secs now_ms_unix =
    let age_secs = (now_ms_unix - c.saved_at_unix_ms) / 1000 in
    if max_age_secs == 0
    then fresh_asked
    else if leb age_secs max_age_secs
    then use_cached c age_secs
    else older_than_allowed

-- The number that bytes stand for, the least significant first, and the number of such numbers.
abbrev pub value : Bytes → ℕ
value [] = 0
value (b ∷ bytes) = b + 256 * value bytes

abbrev pub modulus : Bytes → ℕ
modulus [] = 1
modulus (b ∷ bytes) = 256 * modulus bytes

swap_factor : (q m : ℕ) → q * (256 * m) ≡ 256 * (q * m)
swap_factor q m = omega arith

-- The addition is right up to a multiple of the modulus, with every carry passed on.
pub add_carry-value :
    (carry : ℕ) (bytes : Bytes)
    → (q : ℕ) × (value (add_carry carry bytes) + q * modulus bytes ≡ value bytes + carry)
unfolding add_carry
add_carry-value carry [] = (carry, omega arith)
add_carry-value carry (b ∷ bytes) =
    let carry' = carry / 256 + (b + carry % 256) / 256 in
    let (q, e) = add_carry-value carry' bytes in
    elim (Bool-cases (carry' == 0)) [
      | inl z ↦ (0, rw z (omega (arith, (==_iff carry' 0).0 z)))
      | inr z ↦ (q, rw z (omega (arith, e, swap_factor q (modulus bytes))))
    ]

-- A cached head is used only when one is there, a maximal age is set, and it was saved no longer
-- than that ago, by the clock in whole seconds.
pub decide-use_cached :
    (cached : Option AssetHubHeadCache) (max_age_secs now age : ℕ) (c : AssetHubHeadCache)
    → decide cached max_age_secs now ≡ use_cached c age
    → (cached ≡ some c)
      × (0 < max_age_secs)
      × (now < c.saved_at_unix_ms + (max_age_secs + 1) * 1000)
unfolding decide
decide-use_cached none max_age_secs now age c e = cc
decide-use_cached (some d) max_age_secs now age c e = ground (arith, e)

-- `u256_add` adds the offset to the number that the word stands for, up to a multiple of the
-- number of such words: every carry is passed on.
pub u256_add-value :
    (base : Bytes) (offset : ℕ)
    → (q : ℕ) × (value (reverse (u256_add base offset)) + q * modulus (reverse base)
        ≡ value (reverse base) + offset)
unfolding u256_add
u256_add-value base offset =
    rw (reverse-reverse (add_carry offset (reverse base))) (add_carry-value offset (reverse base))
