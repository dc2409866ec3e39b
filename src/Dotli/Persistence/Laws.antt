-- ===== src/Dotli/Persistence/Laws.antt =====
-- Round trips of the persisted state (example/dotli/src/state.rs).
use microdot.Base.{
  ℕ, ◌≡◌, refl, ◌∙◌, inl, inr, Option, none, some, Bytes, length, ==_iff, Result, ok, ok_or,
  bind-eq-ok, Option-cases, arith,
}
use microdot.Text.{Text}
use microdot.Dotli.Persistence.{
  PersistedState, Source, saved_local_storage, bundled_checkpoint, GrandpaState, Crates, available,
  Browser, StateError, encode_0x, decode_0x, decode_0x_array, snapshot_to_grandpa_state,
  update_relay, load_bundled, read_storage, write_storage, load_or_bundled, or_bundled, current,
  save, storage_key, version_number,
}

-- What the crates promise: each decoder undoes its encoder.
abbrev pub HexRoundTrip : {A : Type 0} → Crates A → Type 0
HexRoundTrip crates = (bytes : Bytes) → crates.hex_decode (crates.hex_encode bytes) ≡ some bytes

abbrev pub ScaleRoundTrip : {A : Type 0} → Crates A → Type 0
ScaleRoundTrip {A} crates =
    (a : A) → crates.decode_authorities (crates.encode_authorities a) ≡ some a

-- A value that is set is what is then got.
abbrev pub Stores : {W : Type 0} → Browser W → Type 0
Stores {W} browser =
    (key value : Text) (w w' : W)
    → browser.set_item key value w ≡ ok w'
    → browser.get_item key w' ≡ ok (some value)

-- The state can be written as JSON, and the browser takes what is set.
abbrev pub Accepts : {A W : Type 0} → Crates A → Browser W → Type 0
Accepts {A} {W} crates browser =
    (browser.access ≡ available)
    × ((key value : Text) (w : W) → (w' : W) × (browser.set_item key value w ≡ ok w'))
    × ((state : PersistedState) → (t : Text) × (crates.to_json state ≡ some t))

module _ {A : Type 0} (crates : Crates A) where
  decode_0x-encode_0x :
      (bytes : Bytes) → HexRoundTrip crates → decode_0x crates (encode_0x crates bytes) ≡ ok bytes
  unfolding decode_0x encode_0x
  decode_0x-encode_0x bytes hex = rw (hex bytes) refl

  decode_0x_array-encode_0x :
      (n : ℕ) (bytes : Bytes)
      → HexRoundTrip crates
      → length bytes ≡ n
      → decode_0x_array crates n (encode_0x crates bytes) ≡ ok bytes
  unfolding decode_0x_array
  decode_0x_array-encode_0x n bytes hex l =
      rw (decode_0x-encode_0x bytes hex, (==_iff (length bytes) n).1 l) refl

  -- A light-client state with 32-byte hashes that is put into the persisted state is read back, if
  -- the hex and SCALE decoders undo their encoders.
  snapshot_to_grandpa_state-update_relay :
      (gs : GrandpaState A) (state : PersistedState)
      → HexRoundTrip crates
      → ScaleRoundTrip crates
      → length (gs.finalized_hash) ≡ 32
      → length (gs.finalized_state_root) ≡ 32
      → snapshot_to_grandpa_state crates ((update_relay crates gs state).relay) ≡ ok gs
  unfolding snapshot_to_grandpa_state update_relay
  snapshot_to_grandpa_state-update_relay gs state hex scale h r =
      rw
        (
          decode_0x-encode_0x (crates.encode_authorities (gs.authorities)) hex,
          scale (gs.authorities),
          decode_0x_array-encode_0x 32 (gs.finalized_hash) hex h,
          decode_0x_array-encode_0x 32 (gs.finalized_state_root) hex r,
        )
        refl

  version_from :
      (s t : PersistedState)
      → (let r : Result StateError PersistedState = ok s in r) ≡ ok t
      → t.version ≡ s.version
  version_from s t e = cc

  load_bundled-version :
      (state : PersistedState) → load_bundled crates ≡ ok state → state.version ≡ version_number
  unfolding load_bundled
  load_bundled-version state e =
      let (lss, e₁, k₁) = bind-eq-ok (ok_or (crates.bundled_lightsync) StateError.json) _ e in
      let (header_bytes, e₂, k₂) = bind-eq-ok (decode_0x crates (lss.0)) _ k₁ in
      let (header, e₃, k₃) =
        bind-eq-ok (ok_or (crates.decode_header header_bytes) StateError.decoding_header) _ k₂ in
      let (auth_bytes, e₄, k₄) = bind-eq-ok (decode_0x crates (lss.1)) _ k₃ in
      let (auth, e₅, k₅) =
        bind-eq-ok (ok_or (crates.decode_authority_set auth_bytes) StateError.decoding_authorities)
          _ k₄ in
      version_from _ state k₅

  pair_version :
      (s t : PersistedState) (a b : Source)
      → (let r : Result StateError (PersistedState × Source) = ok (s, a) in r) ≡ ok (t, b)
      → t.version ≡ s.version
  pair_version s t a b e = cc

  current-eq-some :
      (stored : Option Text) (state : PersistedState)
      → current crates stored ≡ some state
      → state.version ≡ version_number
  unfolding current
  current-eq-some none state e = cc
  current-eq-some (some t) state e = elim (Option-cases (crates.from_json t)) [
    | inl n ↦ ground (arith, e, n)
    | inr (s, n) ↦ ground (arith, e, n)
  ]

  current-to_json :
      (state : PersistedState) (t : Text)
      → crates.from_json t ≡ some state
      → state.version ≡ version_number
      → current crates (some t) ≡ some state
  unfolding current
  current-to_json state t e v = rw (e, current) (ground (arith, v))

  or_bundled-version :
      (found : Option PersistedState) (state : PersistedState) (source : Source)
      → ((s : PersistedState) → found ≡ some s → s.version ≡ version_number)
      → or_bundled crates found ≡ ok (state, source)
      → state.version ≡ version_number
  or_bundled-version none state source h e =
      let (s, e₁, k₁) = bind-eq-ok (load_bundled crates) _ e in
      pair_version s state bundled_checkpoint source k₁ ∙ load_bundled-version s e₁
  or_bundled-version (some s) state source h e =
      pair_version s state saved_local_storage source e ∙ h s refl

  module _ {W : Type 0} (browser : Browser W) where
    -- After a successful save, a load gives the state that was saved, stamped with the time of the
    -- save, and says that it comes from the storage: if the storage keeps what is set, the JSON of
    -- the stamped state is read back as that state, and the state has this version.
    pub load_or_bundled-save :
        (now : ℕ) (state : PersistedState) (w w' : W)
        → Stores browser
        → ((t : Text)
            → crates.to_json (record state { saved_at_unix_ms = now }) ≡ some t
            → crates.from_json t ≡ some (record state { saved_at_unix_ms = now }))
        → state.version ≡ version_number
        → (save crates browser now state w).1 ≡ ok w'
        → load_or_bundled crates browser w'
          ≡ ok ((save crates browser now state w).0, saved_local_storage)
    unfolding load_or_bundled save read_storage write_storage
    load_or_bundled-save now state w w' stores json v e =
        let stamped : PersistedState = record state { saved_at_unix_ms = now } in
        let (t, e₁, e₂) = bind-eq-ok (ok_or (crates.to_json stamped) StateError.json) _ e in
        let open_storage : browser.access ≡ available = ground (arith, e₂) in
        let written : browser.set_item storage_key t w ≡ ok w' = ground (arith, e₂, open_storage) in
        let encoded : crates.to_json stamped ≡ some t = ground (arith, e₁) in
        let found : read_storage crates browser storage_key w' ≡ ok (some t) =
          rw (open_storage, stores storage_key t w w' written) refl in
        rw (found, current-to_json stamped t (json t encoded) v) refl

    -- What a load gives has this version, wherever it comes from.
    pub load_or_bundled-version :
        (w : W) (state : PersistedState) (source : Source)
        → load_or_bundled crates browser w ≡ ok (state, source)
        → state.version ≡ version_number
    unfolding load_or_bundled
    load_or_bundled-version w state source e =
        let (stored, e₁, k₁) = bind-eq-ok (read_storage crates browser storage_key w) _ e in
        or_bundled-version (current crates stored) state source (current-eq-some stored) k₁

    -- A save succeeds where the browser takes it.
    pub save_succeeds :
        (now : ℕ) (state : PersistedState) (w : W)
        → Accepts crates browser
        → (w' : W) × ((save crates browser now state w).1 ≡ ok w')
    unfolding save write_storage
    save_succeeds now state w (access, set, json) =
        let (t, e) = json (record state { saved_at_unix_ms = now }) in
        let (w', h) = set storage_key t w in (w', rw (e, access, h) refl)
