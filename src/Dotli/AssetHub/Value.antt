-- ===== src/Dotli/AssetHub/Value.antt =====
-- What `read_value` (example/dotli/src/lib.rs, `assethub_phase`) returns: the Solidity `bytes` value
-- that a child storage holds, whatever the peer answered.
use microdot.Base.{
  ℕ, zero, suc, ◌+◌, ◌-◌, ◌*◌, ◌/◌, ◌%◌, ◌^◌, ◌≤◌, ◌≡◌, ◌≢◌, refl, sym, ap, ◌∙◌, min, ◌==◌, leb,
  ltb, List, [], ◌∷◌, ◌++◌, Bytes, length, take, bit_and, ok, err, map_err, if◌then◌else◌,
  bind-eq-ok, map_err-eq-ok, some, arith, subst, ◌⊎◌, inl, inr, Bool-cases, take-append, take-min,
  take_nil,
}
use microdot.State.{TrieLibrary, child_storage_default_prefix}
use microdot.State.Soundness.{Storage, IsSound}
use microdot.Dotli.Words.{last_byte, decode_long_bytes_length, u256_add}
use microdot.Dotli.Session.{AssetHubHead, Socket, Conn, slot, panicked, request_child_slot}
use microdot.Dotli.Session.Reads.{ok_inj, request_child_slot_sound}
use microdot.Dotli.AssetHub.Forms.{word, IsShort, marked_by, decode_long_bytes_length-word}
use microdot.Dotli.AssetHub.{Chain, slots_of, read_slots, read_value}

abbrev pub concat : List Bytes → Bytes
concat [] = []
concat (s ∷ slots) = s ++ concat slots

module _ (keccak_256 blake2_256 : Bytes → Bytes) (child : Storage) where
  -- The slots that the child storage holds from the `i`-th after `base` on.
  abbrev pub Holds : Bytes → ℕ → List Bytes → Type 0
  Holds base i [] = Unit {0}
  Holds base i (s ∷ slots) =
      (child (blake2_256 (u256_add base i)) ≡ some s) × (length s ≡ 32) × Holds base (i + 1) slots

  -- The long form: the base slot is the number of twice the length and one, and the content is the
  -- first bytes of the slots that start at the hash of the base slot's key. The length counts up to
  -- multiples of 2 ^ w, as it is cut to a `usize`.
  pub record IsLong (w : ℕ) (base_slot_key base_slot found : Bytes) : Type 0 where
    pub total_len : ℕ
    pub encoded : word base_slot ≡ 2 * total_len + 1
    pub slots : List Bytes
    pub count : length slots ≡ (total_len % 2 ^ w + 31) / 32
    pub held : Holds (keccak_256 base_slot_key) 0 slots
    pub content : found ≡ take (total_len % 2 ^ w) (concat slots)

  -- `found` is the value whose base slot the child storage holds.
  abbrev pub IsBytesAt : ℕ → Bytes → Bytes → Type 0
  IsBytesAt w base_slot_key found =
      (base_slot : Bytes) × (child (blake2_256 base_slot_key) ≡ some base_slot)
      × (length base_slot ≡ 32)
      × (IsShort base_slot found ⊎ IsLong w base_slot_key base_slot found)

pub from_start : (n : ℕ) (xs : Bytes) → take (n - 0 * 32) xs ≡ take n xs
from_start n xs = ap (λ m. take m xs) {y = n} (omega arith)

-- The bytes of the value that the slots from the `i`-th on hold.
pub read_slots_append :
    (total i : ℕ) (chunk slots : Bytes)
    → length chunk ≡ 32
    → take (min (total - i * 32) 32) chunk ++ take (total - (i + 1) * 32) slots
      ≡ take (total - i * 32) (chunk ++ slots)
read_slots_append total i chunk slots h =
    rw (take-append (total - i * 32) chunk slots, h, sym (take-min (total - i * 32) chunk), h)
      (ap (λ n. take (min (total - i * 32) 32) chunk ++ take n slots) (omega arith))

err_ne_ok : {E A : Type 0} {x : E} {a : A} → err x ≢ ok a
err_ne_ok e = cc

short_value :
    (n : ℕ) (base_slot found : Bytes)
    → (if ltb 32 n then err panicked else ok (take n base_slot)) ≡ ok found
    → (n ≤ 32) × (found ≡ take n base_slot)
short_value n base_slot found e = elim (Bool-cases (ltb 32 n)) [
  | inl q ↦
      absurd (
        err_ne_ok (subst (λ b. (if b then err panicked else ok (take n base_slot)) ≡ ok found) q e))
  | inr q ↦ (
    ground (arith, q),
    sym (
        ok_inj _ _
          (subst (λ b. (if b then err panicked else ok (take n base_slot)) ≡ ok found) q e)),
  )
]

module _ {D : Type 0} (w : ℕ) (lib : TrieLibrary D) (chain : Chain) (socket : Socket)
    (Commits : Bytes → Storage → Type 0) (sound : IsSound lib Commits) (head : AssetHubHead)
    (storage : Storage) (committed : Commits (head.state_root) storage) where
  module _ (trie_id child_root : Bytes) (child : Storage)
      (held : storage (child_storage_default_prefix trie_id) ≡ some child_root)
      (child_committed : Commits child_root child) where
    read_slots_sound :
        (base : Bytes) (total left i : ℕ) (conn : Conn) (out : Bytes)
        → read_slots w lib chain socket head trie_id base total left i conn ≡ ok out
        → (slots : List Bytes) × (length slots ≡ left)
          × Holds (chain.keccak_256) (chain.blake2_256) child base i slots
          × (out ≡ take (total - i * 32) (concat slots))
    unfolding read_slots
    read_slots_sound base total zero i conn out e =
        ([], refl, tt, sym (ok_inj _ _ e) ∙ sym (take_nil (total - i * 32)))
    read_slots_sound base total (suc left) i conn out e =
        let ((chunk, mid), e₁, k₁) =
          bind-eq-ok
            (request_child_slot w lib (chain.blake2_256) socket head trie_id (u256_add base i) conn)
            _ e in
        let (later, e₂, k₂) =
          bind-eq-ok (read_slots w lib chain socket head trie_id base total left (i + 1) mid) _
            k₁ in
        let (slots, n, h, q) = read_slots_sound base total left (i + 1) mid later e₂ in
        let (there, l) =
          request_child_slot_sound w lib (chain.blake2_256) socket Commits sound head trie_id _
            chunk child_root conn mid storage child committed held child_committed e₁ in
        (
          chunk ∷ slots,
          ap suc n,
          (there, l, h),
          sym (ok_inj _ _ k₂)
              ∙ ap (λ x. take (min (total - i * 32) 32) chunk ++ x) q
              ∙ read_slots_append total i chunk (concat slots) l,
        )

    pub read_value_sound :
        (base_slot_key base_slot found : Bytes) (conn : Conn)
        → length base_slot ≡ 32
        → read_value w lib chain socket head trie_id base_slot_key base_slot conn ≡ ok found
        → IsShort base_slot found
          ⊎ IsLong (chain.keccak_256) (chain.blake2_256) child w base_slot_key base_slot found
    unfolding read_value
    read_value_sound key base_slot found conn l =
        elim (Bool-cases (bit_and (last_byte base_slot) 1 == 0)) [
          | inl q ↦
              rw (q, read_value)
                (λ e.
                  let (n, h) = short_value (last_byte base_slot / 2) base_slot found e in
                  let (front, m) = marked_by base_slot l q in
                  inl (record {
                    front = front;
                    len = last_byte base_slot / 2;
                    marked = m;
                    fits = n;
                    content = h;
                  }))
          | inr q ↦
              rw (q, read_value)
                (λ e.
                  let (cut, e₁, k₁) =
                    bind-eq-ok (map_err slot (decode_long_bytes_length w base_slot)) _ e in
                  let (u, e₂, k₂) =
                    bind-eq-ok (if leb (2 ^ (w - 1)) cut then err panicked else ok (tt {0})) _ k₁ in
                  let (slots, n, h, c) =
                    read_slots_sound (chain.keccak_256 key) cut (slots_of cut) 0 conn found k₂ in
                  let (total, encoded, same) =
                    decode_long_bytes_length-word w cut base_slot (map_err-eq-ok slot _ e₁) in
                  inr (record {
                    total_len = total;
                    encoded = encoded;
                    slots = slots;
                    count = n ∙ ap slots_of same;
                    held = h;
                    content =
                        c ∙ from_start cut (concat slots) ∙ ap (λ m. take m (concat slots)) same;
                  }))
        ]
