-- ===== src/Dotli/Persistence.antt =====
-- example/dotli/src/state.rs: the persisted state, its relay snapshot in hexadecimal, and the
-- browser's storage. The hex, SCALE and serde_json crates and the browser are parameters.
pub mod Laws
use microdot.Base.{
  ℕ, Bool, Option, none, some, List, [], ◌∷◌, ◌++◌, Bytes, length, ◌==◌, if◌then◌else◌, Result, ok,
  err, ◌>>=◌, map_err, ok_or,
}
use microdot.Text.{Text, text}
use microdot.BTreeMap.{BTreeMap}
use microdot.PeerPool.{PeerPool, new}

abbrev pub storage_key : Text
storage_key = text "microdot-dotli-state"

abbrev pub version_number : ℕ
version_number = 1

pub record RelaySnapshot : Type 0 where
  pub finalized_number : ℕ
  pub finalized_hash : Text
  pub finalized_state_root : Text
  pub set_id : ℕ
  pub authorities_scale : Text

pub record AssetHubHeadCache : Type 0 where
  pub number : ℕ
  pub hash : Text
  pub state_root : Text
  pub saved_at_unix_ms : ℕ

pub record ContractCacheEntry : Type 0 where
  pub trie_id : Text
  pub verified_at_block : ℕ

pub record ResolvedEntry : Type 0 where
  pub cid : Text
  pub verified_at_block : ℕ

pub record PersistedState : Type 0 where
  pub version : ℕ
  pub saved_at_unix_ms : ℕ
  pub relay : RelaySnapshot
  pub assethub_head : Option AssetHubHeadCache
  pub contracts : BTreeMap Text ContractCacheEntry
  pub resolved : BTreeMap Text ResolvedEntry
  pub relay_peers : PeerPool
  pub assethub_peers : PeerPool

pub data Source : Type 0 where
  saved_local_storage : Source
  bundled_checkpoint : Source

-- `GrandpaState` and `BlockHeader` of the connection crates, over the authorities `A`.
pub record GrandpaState (A : Type 0) : Type 0 where
  pub authorities : A
  pub set_id : ℕ
  pub finalized_number : ℕ
  pub finalized_hash : Bytes
  pub finalized_state_root : Bytes

pub record BlockHeader : Type 0 where
  pub number : ℕ
  pub hash : Bytes
  pub state_root : Bytes

-- The crates: hex, the SCALE codec, and serde_json on the state and on the bundled checkpoint,
-- whose two texts it gives.
pub record Crates (A : Type 0) : Type 0 where
  pub hex_encode : Bytes → Text
  pub hex_decode : Text → Option Bytes
  pub encode_authorities : A → Bytes
  pub decode_authorities : Bytes → Option A
  pub decode_header : Bytes → Option BlockHeader
  pub decode_authority_set : Bytes → Option (A × ℕ)
  pub to_json : PersistedState → Option Text
  pub from_json : Text → Option PersistedState
  pub bundled_lightsync : Option (Text × Text)

-- What the browser gives for the window and its storage.
pub data Access : Type 0 where
  no_window : Access
  denied : Access
  unavailable : Access
  available : Access

-- The browser's storage, whose contents are a `W`.
pub record Browser (W : Type 0) : Type 0 where
  pub access : Access
  pub get_item : Text → W → Result Text (Option Text)
  pub set_item : Text → Text → W → Result Text W

pub data StateError : Type 0 where
  expected_prefix : StateError
  invalid_hex : StateError
  -- expected length, length
  wrong_length : ℕ → ℕ → StateError
  decoding_header : StateError
  decoding_authorities : StateError
  json : StateError
  window_missing : StateError
  storage_denied : StateError
  storage_unavailable : StateError
  get_failed : Text → StateError
  set_failed : Text → StateError

-- `strip_prefix("0x")`
abbrev pub strip_prefix : Text → Option Text
strip_prefix [] = none
strip_prefix (a ∷ []) = none
strip_prefix (a ∷ b ∷ rest) = if a == b'0' then (if b == b'x' then some rest else none) else none

module _ {A : Type 0} (crates : Crates A) where
  unfoldable pub encode_0x : Bytes → Text
  encode_0x bytes = text "0x" ++ crates.hex_encode bytes

  unfoldable pub decode_0x : Text → Result StateError Bytes
  decode_0x s = do
    stripped ← ok_or (strip_prefix s) expected_prefix
    ok_or (crates.hex_decode stripped) invalid_hex

  unfoldable pub decode_0x_array : ℕ → Text → Result StateError Bytes
  decode_0x_array n s = do
    bytes ← decode_0x s
    if length bytes == n then ok bytes else err (wrong_length n (length bytes))

  unfoldable pub snapshot_to_grandpa_state : RelaySnapshot → Result StateError (GrandpaState A)
  snapshot_to_grandpa_state relay = do
    authorities_bytes ← decode_0x (relay.authorities_scale)
    authorities ← ok_or (crates.decode_authorities authorities_bytes) decoding_authorities
    finalized_hash ← decode_0x_array 32 (relay.finalized_hash)
    finalized_state_root ← decode_0x_array 32 (relay.finalized_state_root)
    ok (record {
      authorities = authorities;
      set_id = relay.set_id;
      finalized_number = relay.finalized_number;
      finalized_hash = finalized_hash;
      finalized_state_root = finalized_state_root;
    })

  abbrev pub to_grandpa_state : PersistedState → Result StateError (GrandpaState A)
  to_grandpa_state state = snapshot_to_grandpa_state (state.relay)

  unfoldable pub update_relay : GrandpaState A → PersistedState → PersistedState
  update_relay gs state = record state {
    relay = record {
      finalized_number = gs.finalized_number;
      finalized_hash = encode_0x (gs.finalized_hash);
      finalized_state_root = encode_0x (gs.finalized_state_root);
      set_id = gs.set_id;
      authorities_scale = encode_0x (crates.encode_authorities (gs.authorities));
    };
  }

  unfoldable pub load_bundled : Result StateError PersistedState
  load_bundled = do
    lss ← ok_or (crates.bundled_lightsync) json
    header_bytes ← decode_0x (lss.0)
    header ← ok_or (crates.decode_header header_bytes) decoding_header
    auth_bytes ← decode_0x (lss.1)
    auth ← ok_or (crates.decode_authority_set auth_bytes) decoding_authorities
    ok (record {
      version = version_number;
      saved_at_unix_ms = 0;
      relay = record {
        finalized_number = header.number;
        finalized_hash = encode_0x (header.hash);
        finalized_state_root = encode_0x (header.state_root);
        set_id = auth.1;
        authorities_scale = encode_0x (crates.encode_authorities (auth.0));
      };
      assethub_head = none;
      contracts = [];
      resolved = [];
      relay_peers = new;
      assethub_peers = new;
    })

  -- the state found, if it parses and has this version
  unfoldable pub current : Option Text → Option PersistedState
  current none = none
  current (some stored) = elim (crates.from_json stored) [
    | none ↦ none
    | some state ↦ if state.version == version_number then some state else none
  ]

  -- that state, or the bundled checkpoint
  abbrev pub or_bundled : Option PersistedState → Result StateError (PersistedState × Source)
  or_bundled (some state) = ok (state, saved_local_storage)
  or_bundled none = do state ← load_bundled; ok (state, bundled_checkpoint)

  module _ {W : Type 0} (browser : Browser W) where
    unfoldable pub read_storage : Text → W → Result StateError (Option Text)
    read_storage key w = elim (browser.access) [
      | available ↦ map_err get_failed (browser.get_item key w)
      | _ ↦ ok none
    ]

    unfoldable pub write_storage : Text → Text → W → Result StateError W
    write_storage key value w = elim (browser.access) [
      | no_window ↦ err window_missing
      | denied ↦ err storage_denied
      | unavailable ↦ err storage_unavailable
      | available ↦ map_err set_failed (browser.set_item key value w)
    ]

    unfoldable pub load_or_bundled : W → Result StateError (PersistedState × Source)
    load_or_bundled w = do stored ← read_storage storage_key w; or_bundled (current stored)

    -- `&mut self`: the state is stamped even where the rest fails.
    unfoldable pub save : ℕ → PersistedState → W → PersistedState × Result StateError W
    save unix_now_ms state w =
        let stamped : PersistedState = record state { saved_at_unix_ms = unix_now_ms } in
        (
          stamped,
          (ok_or (crates.to_json stamped) json >>= λ json_text.
              write_storage storage_key json_text w),
        )
