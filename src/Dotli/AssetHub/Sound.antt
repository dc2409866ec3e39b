-- ===== src/Dotli/AssetHub/Sound.antt =====
-- The whole of `assethub_phase` of example/dotli/src/lib.rs, whatever the peer answered.
use microdot.Base.{
  ℕ, ◌≡◌, refl, sym, ap, ◌∙◌, ◌==◌, [], ◌∷◌, Bytes, length, ok, err, ok_or, if◌then◌else◌,
  bind-eq-ok, some, none, Option, arith, subst,
}
use microdot.State.{TrieLibrary, child_storage_default_prefix}
use microdot.State.Soundness.{Storage, IsSound, ok_or-eq-ok}
use microdot.Text.{Text}
use microdot.Dotli.Words.{revive_account_info_key}
use microdot.Dotli.Session.{
  AssetHubHead, Socket, Conn, connect, wait_for_subscription_open, request_top_storage,
  request_child_slot, decoding_account_info, schema_drift, no_contract,
}
use microdot.Dotli.Session.Reads.{
  ok_inj, request_top_storage_sound, request_child_slot_sound, request_child_slot_held,
}
use microdot.Dotli.AssetHub.{
  AccountInfo, AccountType, contract, eoa, AssetHubResult, Chain, contract_trie_id, find_trie_id,
  read_value, assethub_phase,
}
use microdot.Dotli.AssetHub.Value.{IsBytesAt, read_value_sound}

all_read :
    (cursor : Bytes) (u : Unit {0})
    → (if length cursor == 0 then ok (tt {0}) else err (schema_drift (length cursor))) ≡ ok u
    → cursor ≡ []
all_read [] u e = refl
all_read (b ∷ cursor) u e = ground (arith, e)

is_contract :
    (a : AccountType) (t : Bytes)
    → (elim a [ contract trie_id ↦ ok trie_id | eoa ↦ err no_contract ]) ≡ ok t
    → a ≡ contract t
is_contract (contract trie_id) t e = ap contract (ok_inj _ _ e)
is_contract eoa t e = cc

module _ {D : Type 0} (w : ℕ) (lib : TrieLibrary D) (chain : Chain) (socket : Socket)
    (Commits : Bytes → Storage → Type 0) (sound : IsSound lib Commits) (head : AssetHubHead)
    (storage : Storage) (committed : Commits (head.state_root) storage) where
  -- The trie id that is used: the cached one, or the one in the account information that the storage
  -- holds for the contract, which is then returned.
  abbrev pub IsTrieIdOf : Option Bytes → Bytes → Bytes → Option Bytes → Type 0
  IsTrieIdOf (some t) contract_addr trie_id fetched = (trie_id ≡ t) × (fetched ≡ none)
  IsTrieIdOf none contract_addr trie_id fetched =
      (info : Bytes) × (acc : AccountInfo) × (fetched ≡ some trie_id)
      × (storage (revive_account_info_key (chain.twox_128) contract_addr) ≡ some info)
      × (chain.decode_account_info info ≡ some (acc, []))
      × (acc.account_type ≡ contract trie_id)

  contract_trie_id_sound :
      (info t : Bytes)
      → contract_trie_id w lib chain socket head info ≡ ok t
      → (acc : AccountInfo) × (chain.decode_account_info info ≡ some (acc, []))
        × (acc.account_type ≡ contract t)
  unfolding contract_trie_id
  contract_trie_id_sound info t e =
      let ((acc, cursor), e₁, k₁) =
        bind-eq-ok (ok_or (chain.decode_account_info info) decoding_account_info) _ e in
      let (u, e₂, k₂) =
        bind-eq-ok (if length cursor == 0 then ok (tt {0}) else err (schema_drift (length cursor)))
          _ k₁ in
      (
        acc,
        ok_or-eq-ok _ _ _ e₁ ∙ ap (λ (c : Bytes). some (acc, c)) (all_read cursor u e₂),
        is_contract (acc.account_type) t k₂,
      )

  find_trie_id_sound :
      (contract_addr : Bytes) (cached : Option Bytes) (conn : Conn) (trie_id : Bytes)
      (fetched : Option Bytes) (conn' : Conn)
      → find_trie_id w lib chain socket head contract_addr cached conn
        ≡ ok (trie_id, fetched, conn')
      → IsTrieIdOf cached contract_addr trie_id fetched
  unfolding find_trie_id
  find_trie_id_sound addr (some t) conn trie_id fetched conn' e =
      let q = ok_inj (t, none, conn) (trie_id, fetched, conn') e in
      (
        sym (ap (λ (x : Bytes × Option Bytes × Conn). x.0) q),
        sym (ap (λ (x : Bytes × Option Bytes × Conn). x.1) q),
      )
  find_trie_id_sound addr none conn trie_id fetched conn' e =
      let ((info, mid), e₁, k₁) =
        bind-eq-ok
          (request_top_storage w lib (chain.blake2_256) socket head
            (revive_account_info_key (chain.twox_128) addr) conn)
          _ e in
      let (t, e₂, k₂) = bind-eq-ok (contract_trie_id w lib chain socket head info) _ k₁ in
      let q = ok_inj (t, some t, mid) (trie_id, fetched, conn') k₂ in
      let same = ap (λ (x : Bytes × Option Bytes × Conn). x.0) q in
      let (acc, d, a) = contract_trie_id_sound info t e₂ in
      (
        info,
        acc,
        sym (ap (λ (x : Bytes × Option Bytes × Conn). x.1) q) ∙ ap some same,
        request_top_storage_sound w lib (chain.blake2_256) socket Commits sound head _ info conn mid
            storage committed e₁,
        d,
        a ∙ ap contract same,
      )

  -- If the AssetHub phase returns, then, with a sound trie library, it has used the cached trie id,
  -- or the one that the contract's account information in the storage of the head names; and the
  -- contenthash it returns is the Solidity `bytes` value at the base slot in the child storage of
  -- that trie id. A length of the value of 2 ^ w or more is cut to `w` bits.
  pub assethub_phase_sound :
      (children : Bytes → Storage)
      → ((t root : Bytes)
          → storage (child_storage_default_prefix t) ≡ some root
          → Commits root (children t))
      → (contract_addr base_slot_key : Bytes) (cached : Option Bytes) (wss_url : Text)
        (r : AssetHubResult)
      → assethub_phase w lib chain socket head contract_addr base_slot_key cached wss_url ≡ ok r
      → (trie_id : Bytes) × IsTrieIdOf cached contract_addr trie_id (r.fetched_trie_id)
        × IsBytesAt
            (chain.keccak_256)
            (chain.blake2_256)
            (children trie_id)
            w
            base_slot_key
            (r.contenthash)
  unfolding assethub_phase
  assethub_phase_sound children committed_child addr key cached url r e =
      let (conn, e₁, k₁) = bind-eq-ok (connect socket url) _ e in
      let (rest, e₂, k₂) =
        bind-eq-ok (wait_for_subscription_open (socket.announces_id) (conn.incoming)) _ k₁ in
      let ((trie_id, fetched, conn'), e₃, k₃) =
        bind-eq-ok
          (find_trie_id w lib chain socket head addr cached
            (record { incoming = rest; sent = conn.sent }))
          _ k₂ in
      let ((base_slot, mid), e₄, k₄) =
        bind-eq-ok (request_child_slot w lib (chain.blake2_256) socket head trie_id key conn') _
          k₃ in
      let (found, e₅, k₅) =
        bind-eq-ok (read_value w lib chain socket head trie_id key base_slot mid) _ k₄ in
      let (child_root, held) =
        request_child_slot_held w lib (chain.blake2_256) socket Commits sound head trie_id key
          base_slot conn' mid storage committed e₄ in
      let d = committed_child trie_id child_root held in
      let (there, l) =
        request_child_slot_sound w lib (chain.blake2_256) socket Commits sound head trie_id key
          base_slot child_root conn' mid storage (children trie_id) committed held d e₄ in
      let q = ok_inj _ _ k₅ in
      (
        trie_id,
        subst (IsTrieIdOf cached addr trie_id) (ap (λ (x : AssetHubResult). x.fetched_trie_id) q)
            (find_trie_id_sound addr cached _ trie_id fetched conn' e₃),
        subst (IsBytesAt (chain.keccak_256) (chain.blake2_256) (children trie_id) w key)
            (ap (λ (x : AssetHubResult). x.contenthash) q)
            (
              base_slot,
              there,
              l,
              read_value_sound w lib chain socket Commits sound head storage committed trie_id
                  child_root (children trie_id) held d key base_slot found mid l e₅,
            ),
      )
