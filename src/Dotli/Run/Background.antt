-- ===== src/Dotli/Run/Background.antt =====
-- The discovery in the background of example/dotli/src/lib.rs, `spawn_background_discovery`.
use microdot.Base.{ℕ, ◌≤◌, ◌≡◌, some, ok}
use microdot.Text.{Text}
use microdot.PeerPool.{PeerPool, len, max_pool_size}
use microdot.PeerPool.Reputation.{IsValid}
use microdot.Discovery.{Link, discovery_burst}
use microdot.Discovery.Harvest.{discovery_burst-IsValid}
use microdot.Dotli.Persistence.{
  PersistedState, Source, saved_local_storage, version_number, load_or_bundled, save,
}
use microdot.Dotli.Persistence.Laws.{
  Stores, Accepts, save_succeeds, load_or_bundled-save, load_or_bundled-version,
}
use microdot.Dotli.Polkadot.{
  relay_wss_bootnodes, assethub_wss_bootnodes, relay_protocol_prefix_hex,
  assethub_protocol_prefix_hex,
}
use microdot.Dotli.Pooled.{Setting, World}
use microdot.Dotli.Run.{attach, merge_pools, background_discovery}

abbrev pub IsBounded : PeerPool → Type 0
IsBounded pool = IsValid pool × (len pool ≤ max_pool_size)

-- `after` is `before` but for its pools and the time of its save.
abbrev pub IsMergedInto : PersistedState → PersistedState → Type 0
IsMergedInto before after = after ≡ record before {
  saved_at_unix_ms = after.saved_at_unix_ms;
  relay_peers = after.relay_peers;
  assethub_peers = after.assethub_peers;
}

module _ {D A : Type 0} (setting : Setting D A) where
  -- The JSON of a state is read back.
  abbrev pub JsonKeeps : PersistedState → Type 0
  JsonKeeps state =
      (t : Text) → setting.crates.to_json state ≡ some t → setting.crates.from_json t ≡ some state

  -- The pools after a discovery.
  abbrev pub relay_discovered : (ℕ → Link) → ℕ → PeerPool → PeerPool
  relay_discovered links now pool =
      (discovery_burst (setting.w) (setting.bs58_encode) pool (attach links 0 relay_wss_bootnodes)
        (relay_protocol_prefix_hex (setting.crates.hex_encode)) now).0

  abbrev pub assethub_discovered : (ℕ → Link) → ℕ → PeerPool → PeerPool
  assethub_discovered links now pool =
      (discovery_burst (setting.w) (setting.bs58_encode) pool
        (attach links 0 assethub_wss_bootnodes)
        (assethub_protocol_prefix_hex (setting.crates.hex_encode)) now).0

  pub relay_discovered-IsBounded :
      (links : ℕ → Link) (now : ℕ) (pool : PeerPool)
      → IsValid pool
      → IsBounded (relay_discovered links now pool)
  relay_discovered-IsBounded links now pool h =
      discovery_burst-IsValid (setting.w) (setting.bs58_encode) pool _ _ _ now h

  pub assethub_discovered-IsBounded :
      (links : ℕ → Link) (now : ℕ) (pool : PeerPool)
      → IsValid pool
      → IsBounded (assethub_discovered links now pool)
  assethub_discovered-IsBounded links now pool h =
      discovery_burst-IsValid (setting.w) (setting.bs58_encode) pool _ _ _ now h

  module _ {W : Type 0} (world : World W) where
    -- The state that a discovery writes, from the stored one.
    abbrev pub discovered :
        (ℕ → Link) → (ℕ → Link) → ℕ → ℕ → PeerPool → PeerPool → PersistedState → W → PersistedState
    discovered ls ms rn an rp q latest w = record latest {
      saved_at_unix_ms = (world.unix_now_ms w).0;
      relay_peers = relay_discovered ls rn rp;
      assethub_peers = assethub_discovered ms an q;
    }

    merge_pools-load_or_bundled :
        (r a : PeerPool) (latest : PersistedState) (source : Source) (w : W)
        → Stores (world.browser)
        → Accepts (setting.crates) (world.browser)
        → latest.version ≡ version_number
        → JsonKeeps (record latest {
          saved_at_unix_ms = (world.unix_now_ms w).0;
          relay_peers = r;
          assethub_peers = a;
        })
        → load_or_bundled
            (setting.crates)
            (world.browser)
            (merge_pools setting world r a (latest, source) w)
          ≡ ok (
            record latest {
              saved_at_unix_ms = (world.unix_now_ms w).0;
              relay_peers = r;
              assethub_peers = a;
            },
            saved_local_storage,
          )
    unfolding merge_pools save
    merge_pools-load_or_bundled r a latest source w stores accepts v json =
        let now = world.unix_now_ms w in
        let merged : PersistedState = record latest { relay_peers = r; assethub_peers = a } in
        let (w', q) =
          save_succeeds (setting.crates) (world.browser) (now.0) merged (now.1) accepts in
        rw (q, merge_pools)
          (load_or_bundled-save (setting.crates) (world.browser) (now.0) merged (now.1) w' stores
            json v q)

    -- What a load gives after a discovery: the state stored by then, with the pools discovered.
    pub background_discovery-load_or_bundled :
        (ls ms : ℕ → Link) (rn an : ℕ) (rp q : PeerPool) (latest : PersistedState) (source : Source)
        (w : W)
        → Stores (world.browser)
        → Accepts (setting.crates) (world.browser)
        → load_or_bundled (setting.crates) (world.browser) w ≡ ok (latest, source)
        → JsonKeeps (discovered ls ms rn an rp q latest w)
        → load_or_bundled
            (setting.crates)
            (world.browser)
            (background_discovery setting world ls ms rn an rp q w)
          ≡ ok (discovered ls ms rn an rp q latest w, saved_local_storage)
    unfolding background_discovery
    background_discovery-load_or_bundled ls ms rn an rp q latest source w stores accepts e json =
        rw (e, background_discovery)
          (merge_pools-load_or_bundled (relay_discovered ls rn rp) (assethub_discovered ms an q)
            latest source w stores accepts
            (load_or_bundled-version (setting.crates) (world.browser) w latest source e) json)
