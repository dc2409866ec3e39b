-- ===== src/State/Soundness.antt =====
-- What a verified value is, whatever the peer answered (src/state.rs, `verify_top_proof` and
-- `verify_child_proof`).
use microdot.Base.{
  ℕ, ◌≡◌, refl, sym, ap, ◌∙◌, Bool, true, false, Option, none, some, Bytes, length, ◌==◌, not,
  if◌then◌else◌, Result, ok, err, ◌>>=◌, map_err, ok_or, bind-eq-ok, subst, arith,
}
use microdot.State.{
  TrieLibrary, VerifyError, verify_top_proof, verify_child_proof, child_storage_default_prefix,
  extract_state_response_proof,
}

module _ {E : Type 0} where
  pub ok_or-eq-ok : {A : Type 0} (o : Option A) (e : E) (a : A) → ok_or o e ≡ ok a → o ≡ some a
  ok_or-eq-ok none e a h = cc
  ok_or-eq-ok (some b) e a h = cc

  guard_passes :
      {A B : Type 0} (b : Bool) (x : E) (a : A) (k : A → Result E B) (v : B)
      → ((if b then err x else ok a) >>= k) ≡ ok v
      → (b ≡ false) × (k a ≡ ok v)
  guard_passes true x a k v e = cc
  guard_passes false x a k v e = (refl, e)

pub some_inj : {A : Type 0} (a b : A) → some a ≡ some b → a ≡ b
some_inj a b e = cc

-- Storage maps, and what it is for a root to commit to one: the trie library's promise is that a
-- lookup under a root that commits to a map gives what the map holds, whatever nodes the
-- database was built from.
abbrev pub Storage : Type 0
Storage = Bytes → Option Bytes

abbrev pub IsSound : {D : Type 0} → TrieLibrary D → (Bytes → Storage → Type 0) → Type 0
IsSound {D} lib Commits =
    (db : D) (root : Bytes) (storage : Storage) (key : Bytes) (found : Option Bytes)
    → Commits root storage
    → lib.trie_get db root key ≡ some found
    → found ≡ storage key

module _ {D : Type 0} (w : ℕ) (lib : TrieLibrary D) (Commits : Bytes → Storage → Type 0)
    (sound : IsSound lib Commits) where
  -- With a sound trie library, a value that verifies under a root is the value of the key in the
  -- storage of that root.
  pub verify_top_proof_sound :
      (response root key value : Bytes) (storage : Storage)
      → Commits root storage
      → verify_top_proof w lib response root key ≡ ok value
      → storage key ≡ some value
  unfolding verify_top_proof
  verify_top_proof_sound response root key value storage c e =
      let (proof, e₁, k₁) =
        bind-eq-ok (map_err VerifyError.extraction (extract_state_response_proof w response)) _ e in
      let (nodes, e₂, k₂) =
        bind-eq-ok (ok_or (lib.decode_nodes proof) VerifyError.scale_decoding) _ k₁ in
      let (db, e₃, k₃) =
        bind-eq-ok (ok_or (lib.to_memory_db nodes root) VerifyError.compact_to_storage) _ k₂ in
      let (found, e₄, k₄) = bind-eq-ok (ok_or (lib.trie_get db root key) VerifyError.lookup) _ k₃ in
      sym (sound db root storage key found c (ok_or-eq-ok _ _ _ e₄)) ∙ ok_or-eq-ok found _ _ k₄

  -- With a sound trie library, a value that verifies for a child key is the value of the key in
  -- the child storage whose root, of 32 bytes, the storage of the given root holds under the
  -- prefixed id.
  pub verify_child_proof_sound :
      (response root trie_id child_key value child_root : Bytes) (storage child : Storage)
      → Commits root storage
      → storage (child_storage_default_prefix trie_id) ≡ some child_root
      → Commits child_root child
      → verify_child_proof w lib response root trie_id child_key ≡ ok value
      → (length child_root ≡ 32) × (child child_key ≡ some value)
  unfolding verify_child_proof
  verify_child_proof_sound response root trie_id child_key value child_root storage child c held d
        e =
      let (proof, e₁, k₁) =
        bind-eq-ok (map_err VerifyError.extraction (extract_state_response_proof w response)) _ e in
      let (nodes, e₂, k₂) =
        bind-eq-ok (ok_or (lib.decode_nodes proof) VerifyError.scale_decoding) _ k₁ in
      let (db, e₃, k₃) =
        bind-eq-ok (ok_or (lib.to_memory_db nodes root) VerifyError.compact_to_storage) _ k₂ in
      let (found, e₄, k₄) =
        bind-eq-ok
          (ok_or (lib.trie_get db root (child_storage_default_prefix trie_id))
            VerifyError.parent_lookup)
          _ k₃ in
      let (bytes, e₅, k₅) = bind-eq-ok (ok_or found VerifyError.child_root_absent) _ k₄ in
      let (l, k₆) = guard_passes (not (length bytes == 32)) _ bytes _ value k₅ in
      let (inner, e₇, k₇) =
        bind-eq-ok (ok_or (lib.trie_get db bytes child_key) VerifyError.child_lookup) _ k₆ in
      let same = some_inj bytes child_root (
        sym (ok_or-eq-ok found _ _ e₅)
        ∙ sound db root storage _ found c (ok_or-eq-ok _ _ _ e₄)
        ∙ held) in
      let answer =
        sound db bytes child child_key inner (subst (λ r. Commits r child) (sym same) d)
          (ok_or-eq-ok _ _ _ e₇) in
      (ap length (sym same) ∙ ground (arith, l), sym answer ∙ ok_or-eq-ok inner _ _ k₇)

  -- A child value verifies only when the storage holds a child root of 32 bytes.
  pub verify_child_proof_held :
      (response root trie_id child_key value : Bytes) (storage : Storage)
      → Commits root storage
      → verify_child_proof w lib response root trie_id child_key ≡ ok value
      → (child_root : Bytes) × (storage (child_storage_default_prefix trie_id) ≡ some child_root)
  unfolding verify_child_proof
  verify_child_proof_held response root trie_id child_key value storage c e =
      let (proof, e₁, k₁) =
        bind-eq-ok (map_err VerifyError.extraction (extract_state_response_proof w response)) _ e in
      let (nodes, e₂, k₂) =
        bind-eq-ok (ok_or (lib.decode_nodes proof) VerifyError.scale_decoding) _ k₁ in
      let (db, e₃, k₃) =
        bind-eq-ok (ok_or (lib.to_memory_db nodes root) VerifyError.compact_to_storage) _ k₂ in
      let (found, e₄, k₄) =
        bind-eq-ok
          (ok_or (lib.trie_get db root (child_storage_default_prefix trie_id))
            VerifyError.parent_lookup)
          _ k₃ in
      let (bytes, e₅, k₅) = bind-eq-ok (ok_or found VerifyError.child_root_absent) _ k₄ in
      (
        bytes,
        sym (sound db root storage _ found c (ok_or-eq-ok _ _ _ e₄)) ∙ ok_or-eq-ok found _ _ e₅,
      )
