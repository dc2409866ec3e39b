-- ===== src/Dotli/Session/Reads.antt =====
-- What `request_top_storage` and `request_child_slot` of example/dotli/src/lib.rs give, whatever
-- the peer answered.
use microdot.Base.{
  ℕ, ◌≡◌, refl, sym, ap, ◌∙◌, not, Bool, true, false, ◌==◌, [], ◌∷◌, Bytes, length, Result, ok, err,
  map_err, if◌then◌else◌, bind-eq-ok, map_err-eq-ok, some, arith,
}
use microdot.Text.{Text}
use microdot.State.{
  TrieLibrary, verify_top_proof, verify_child_proof, encode_state_request,
  child_storage_default_prefix,
}
use microdot.State.Soundness.{
  Storage, IsSound, verify_top_proof_sound, verify_child_proof_sound, verify_child_proof_held,
}
use microdot.Dotli.Session.{
  connect, AssetHubHead, Socket, Conn, verifying, ask_state, request_top_storage,
  request_child_slot,
}

pub ok_inj : {E A : Type 0} (a b : A) → Path (Result E A) (ok a) (ok b) → a ≡ b
ok_inj a b e = cc

unless_passes :
    {E A : Type 0} (b : Bool) (x : E) (a v : A)
    → (if not b then err x else ok a) ≡ ok v
    → (b ≡ true) × (a ≡ v)
unless_passes true x a v e = (refl, cc)
unless_passes false x a v e = cc

-- A connection that opens brings the socket's messages.
pub connect_gives :
    (socket : Socket) (wss_url : Text)
    → socket.open_ws wss_url ≡ ok tt
    → socket.handshake ≡ ok tt
    → socket.subscribe (socket.announces_id) ≡ ok tt
    → connect socket wss_url ≡ ok (record { incoming = socket.incoming; sent = [] })
unfolding connect
connect_gives socket url o h s = rw (o, h, s) refl

module _ {D : Type 0} (w : ℕ) (lib : TrieLibrary D) (blake2_256 : Bytes → Bytes) (socket : Socket)
    (Commits : Bytes → Storage → Type 0) (sound : IsSound lib Commits) where
  -- The value that a top-level request gives is the one that the storage of the head holds.
  pub request_top_storage_sound :
      (head : AssetHubHead) (key found : Bytes) (conn conn' : Conn) (storage : Storage)
      → Commits (head.state_root) storage
      → request_top_storage w lib blake2_256 socket head key conn ≡ ok (found, conn')
      → storage key ≡ some found
  unfolding request_top_storage
  request_top_storage_sound head key found conn conn' storage c e =
      let ((bytes, mid), e₁, k₁) =
        bind-eq-ok
          (ask_state w lib blake2_256 socket (encode_state_request (head.hash) (key ∷ [])) conn) _
          e in
      let (v, e₂, k₂) =
        bind-eq-ok (map_err verifying (verify_top_proof w lib bytes (head.state_root) key)) _ k₁ in
      verify_top_proof_sound w lib Commits sound bytes _ key found storage c
        (map_err-eq-ok verifying _ e₂ ∙ ap ok (ap (λ (x : Bytes × Conn). x.0) (ok_inj _ _ k₂)))

  -- The slot that a child request gives is 32 bytes long, and the one that the child storage
  -- of the trie id holds under the hash of the key.
  pub request_child_slot_sound :
      (head : AssetHubHead) (trie_id raw_slot_key found child_root : Bytes) (conn conn' : Conn)
      (storage child : Storage)
      → Commits (head.state_root) storage
      → storage (child_storage_default_prefix trie_id) ≡ some child_root
      → Commits child_root child
      → request_child_slot w lib blake2_256 socket head trie_id raw_slot_key conn
        ≡ ok (found, conn')
      → (child (blake2_256 raw_slot_key) ≡ some found) × (length found ≡ 32)
  unfolding request_child_slot
  request_child_slot_sound head trie_id key found child_root conn conn' storage child c held d e =
      let ((bytes, mid), e₁, k₁) =
        bind-eq-ok
          (ask_state w lib blake2_256 socket
            (encode_state_request (head.hash)
              (child_storage_default_prefix trie_id ∷ blake2_256 key ∷ []))
            conn)
          _ e in
      let (v, e₂, k₂) =
        bind-eq-ok
          (map_err verifying
            (verify_child_proof w lib bytes (head.state_root) trie_id (blake2_256 key)))
          _ k₁ in
      let (l, s) = unless_passes (length v == 32) _ (v, mid) (found, conn') k₂ in
      let same = ap (λ (x : Bytes × Conn). x.0) s in
      let (n, h) =
        verify_child_proof_sound w lib Commits sound bytes _ trie_id _ found child_root storage
          child c held d (map_err-eq-ok verifying _ e₂ ∙ ap ok same) in
      (h, ap length (sym same) ∙ ground (arith, l))

  -- A child request gives a slot only when the storage holds a child root.
  pub request_child_slot_held :
      (head : AssetHubHead) (trie_id raw_slot_key found : Bytes) (conn conn' : Conn)
      (storage : Storage)
      → Commits (head.state_root) storage
      → request_child_slot w lib blake2_256 socket head trie_id raw_slot_key conn
        ≡ ok (found, conn')
      → (child_root : Bytes) × (storage (child_storage_default_prefix trie_id) ≡ some child_root)
  unfolding request_child_slot
  request_child_slot_held head trie_id key found conn conn' storage c e =
      let ((bytes, mid), e₁, k₁) =
        bind-eq-ok
          (ask_state w lib blake2_256 socket
            (encode_state_request (head.hash)
              (child_storage_default_prefix trie_id ∷ blake2_256 key ∷ []))
            conn)
          _ e in
      let (v, e₂, k₂) =
        bind-eq-ok
          (map_err verifying
            (verify_child_proof w lib bytes (head.state_root) trie_id (blake2_256 key)))
          _ k₁ in
      verify_child_proof_held w lib Commits sound bytes _ trie_id _ v storage c
        (map_err-eq-ok verifying _ e₂)
