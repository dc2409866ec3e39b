-- ===== src/Dotli/Run.antt =====
-- example/dotli/src/lib.rs, `run_inner`: the refresh of the AssetHub head, the one retry and the
-- caches around the two phases, and the discovery in the background. The world `W` holds the
-- clock, the network and the browser's storage. What is only shown (the log and the elapsed time)
-- is left out.
pub mod Provenance
pub mod Resolution
pub mod Pools
pub mod Cache
pub mod Background
pub mod Returns
pub mod Total
pub mod Held
pub mod Note
pub mod Rerun
pub mod Sequel
use microdot.Base.{
  ℕ, ◌+◌, ◌-◌, ◌/◌, Bool, true, false, Option, none, some, List, [], ◌∷◌, ◌++◌, Bytes, length, ◌==◌,
  if◌then◌else◌, Result, ok, err, map_err, ok_or,
}
use microdot.Base as Outcome
use microdot.Text.{Text, text, show}
use microdot.BTreeMap.{text_order, get, insert}
use microdot.PeerPool.{PeerPool, purge_peers}
use microdot.PoolFallback.{Env, run_with_pool_fallback}
use microdot.Discovery.{Link, discovery_burst}
use microdot.Kad.Multiaddr.{parse_bootnode_multiaddr}
use microdot.State.{TrieLibrary}
use microdot.Dotli.Persistence.{
  RelaySnapshot, AssetHubHeadCache, PersistedState, Source, StateError, GrandpaState, Crates,
  Browser, encode_0x, strip_prefix, expected_prefix, invalid_hex, wrong_length,
  snapshot_to_grandpa_state, update_relay, load_or_bundled, save,
}
use microdot.Dotli.Words.{
  HeadDecision, use_cached, no_cached_head, fresh_asked, older_than_allowed, decide,
  namehash_eip137, compute_mapping_slot, paras_heads_key,
}
use microdot.Dotli.Session.{AssetHubHead, Socket, PhaseError}
use microdot.Dotli.Relay.{WarpSync, relay_phase}
use microdot.Dotli.AssetHub.{AssetHubResult, Chain, assethub_phase}
use microdot.Dotli.Contenthash.{CidError, decode_contenthash_cid}
use microdot.Dotli.Polkadot.{
  assethub_para_id, dotns_content_resolver, contenthash_slot, relay_wss, assethub_wss,
  relay_wss_bootnodes, assethub_wss_bootnodes, relay_protocol_prefix_hex,
  assethub_protocol_prefix_hex,
}
use microdot.Dotli.Pooled.{
  Setting, World, paras_key, relay_env, relay_phase_with_pool, assethub_env,
  assethub_phase_with_pool,
}

pub data RunError : Type 0 where
  state : StateError → RunError
  phase : Text → RunError
  contenthash : CidError → RunError

pub record RunResult : Type 0 where
  pub full_name : Text
  pub cid : Text
  pub contenthash_bytes : Bytes
  pub final_head_number : ℕ
  pub cache_note : Text

-- The result, the state at its end, and so the two pools that the background discovery is given.
pub record Finished : Type 0 where
  pub result : RunResult
  pub persisted : PersistedState

-- A computation in the world that may fail.
abbrev pub Run : Type 0 → Type 0 → Type 0
Run W X = W → Result RunError X × W

infixl 5 ◌>>=◌
abbrev pub ◌>>=◌ : {W X Y : Type 0} → Run W X → (X → Run W Y) → Run W Y
m >>= f = λ w. elim ((m w).0) [ ok x ↦ f x ((m w).1) | err e ↦ (err e, (m w).1) ]

abbrev pub lift : {W X : Type 0} → Result RunError X → Run W X
lift r = λ w. (r, w)

-- `filter_map(|s| parse_bootnode_multiaddr(s).map(|(id, _)| id))`
abbrev pub bootnode_ids : List Text → List Text
bootnode_ids [] = []
bootnode_ids (b ∷ bootnodes) = elim (parse_bootnode_multiaddr b) [
  | none ↦ bootnode_ids bootnodes
  | some parts ↦ parts.0 ∷ bootnode_ids bootnodes
]

unfoldable pub purge_bootnodes : PersistedState → PersistedState
purge_bootnodes persisted = record persisted {
  relay_peers = purge_peers (bootnode_ids relay_wss_bootnodes) (persisted.relay_peers);
  assethub_peers = purge_peers (bootnode_ids assethub_wss_bootnodes) (persisted.assethub_peers);
}

-- `.map(|c| c.saved_at_unix_ms).unwrap_or(0)`
abbrev pub saved_at : Option AssetHubHeadCache → ℕ
saved_at none = 0
saved_at (some c) = c.saved_at_unix_ms

-- `format!(" — head cached, {age}s old")`; the dash has three bytes.
abbrev pub cached_note : ℕ → Option AssetHubHeadCache → Text
cached_note now head =
    (b' ' ∷ 0xe2 ∷ 0x80 ∷ 0x94 ∷ [])
    ++ (text " head cached, " ++ (show ((now - saved_at head) / 1000) ++ text "s old"))

-- each bootnode with its surroundings, from the `i`-th on
abbrev pub attach : (ℕ → Link) → ℕ → List Text → List (Text × Link)
attach links i [] = []
attach links i (b ∷ bootnodes) = (b, links i) ∷ attach links (i + 1) bootnodes

module _ {D A : Type 0} (setting : Setting D A) where
  -- The two decoders repeat those of example/dotli/src/state.rs.
  abbrev pub decode_0x_to_vec : Text → Result StateError Bytes
  decode_0x_to_vec s =
      Outcome.◌>>=◌ (ok_or (strip_prefix s) expected_prefix)
        (λ stripped. ok_or (setting.crates.hex_decode stripped) invalid_hex)

  abbrev pub parse_0x_array : ℕ → Text → Result StateError Bytes
  parse_0x_array n s =
      Outcome.◌>>=◌ (decode_0x_to_vec s)
        (λ v. if length v == n then ok v else err (wrong_length n (length v)))

  unfoldable pub cached_head_to_struct : AssetHubHeadCache → Result StateError AssetHubHead
  cached_head_to_struct c = Outcome.◌>>=◌ (parse_0x_array 32 (c.hash)) (λ hash.
      Outcome.◌>>=◌ (parse_0x_array 32 (c.state_root))
        (λ state_root. ok (record { number = c.number; hash = hash; state_root = state_root })))

  -- the key of the contract in the cache
  abbrev pub contract_key : Text
  contract_key = encode_0x (setting.crates) dotns_content_resolver

  abbrev pub base_slot_key_of : Text → Bytes
  base_slot_key_of full_name =
      compute_mapping_slot (setting.chain.keccak_256)
        (namehash_eip137 (setting.chain.keccak_256) full_name) contenthash_slot

  unfoldable pub cached_trie_id : PersistedState → Result StateError (Option Bytes)
  cached_trie_id persisted = elim (get contract_key (persisted.contracts)) [
    | none ↦ ok none
    | some c ↦ Outcome.◌>>=◌ (decode_0x_to_vec (c.trie_id)) (λ t. ok (some t))
  ]

  module _ {W : Type 0} (world : World W) where
    -- `relay_phase_with_pool(&mut persisted).await?`, and the head kept for the next run
    unfoldable pub refresh_head : PersistedState → Run W (AssetHubHead × PersistedState)
    refresh_head persisted w =
        let run = relay_phase_with_pool setting world persisted w in
        let now = world.unix_now_ms (run.2) in
        elim (run.0) [
          | err e ↦ (err (phase e), run.2)
          | ok answer ↦
              let head = answer.1 in
              let updated = update_relay (setting.crates) (answer.0) (run.1) in
              (
                ok (
                  head,
                  record updated {
                    assethub_head = some (record {
                      number = head.number;
                      hash = encode_0x (setting.crates) (head.hash);
                      state_root = encode_0x (setting.crates) (head.state_root);
                      saved_at_unix_ms = now.0;
                    });
                  },
                ),
                now.1,
              )
        ]

    abbrev pub refreshed_head : PersistedState → Run W (AssetHubHead × Bool × PersistedState)
    refreshed_head persisted =
        refresh_head persisted >>= λ (head, kept) w. (ok (head, false, kept), w)

    -- the head, whether it was cached, and the state: the `match` on the decision
    unfoldable pub head_by :
        HeadDecision → PersistedState → Run W (AssetHubHead × Bool × PersistedState)
    head_by (use_cached c age) persisted w = (
      Outcome.◌>>=◌ (map_err state (cached_head_to_struct c)) (λ head. ok (head, true, persisted)),
      w,
    )
    head_by no_cached_head persisted w = refreshed_head persisted w
    head_by fresh_asked persisted w = refreshed_head persisted w
    head_by older_than_allowed persisted w = refreshed_head persisted w

    unfoldable pub choose_head : ℕ → PersistedState → Run W (AssetHubHead × Bool × PersistedState)
    choose_head max_head_age_secs persisted w =
        let now = world.unix_now_ms w in
        head_by (decide (persisted.assethub_head) max_head_age_secs (now.0)) persisted (now.1)

    -- one attempt at the value
    unfoldable pub attempt_value :
        Bytes
        → AssetHubHead
        → Option Bytes
        → PersistedState
        → W
        → Result Text (AssetHubResult × AssetHubHead × PersistedState) × W
    attempt_value base_slot_key head cached persisted w =
        let run =
          assethub_phase_with_pool setting world persisted head dotns_content_resolver base_slot_key
            cached w in
        (Outcome.◌>>=◌ (run.0) (λ r. ok (r, head, run.1)), run.2)

    -- the attempt with a fresh head, without the cached trie id
    abbrev pub retry :
        Bytes
        → AssetHubHead × PersistedState
        → Run W (AssetHubResult × AssetHubHead × PersistedState)
    retry base_slot_key (head, persisted) w =
        let again = attempt_value base_slot_key head none persisted w in
        (map_err phase (again.0), again.1)

    -- The value, the head it is from, and the state: one more attempt if the head was cached.
    unfoldable pub query_with :
        AssetHubHead
        → Bool
        → Bytes
        → PersistedState
        → Option Bytes
        → Run W (AssetHubResult × AssetHubHead × PersistedState)
    query_with head head_was_cached base_slot_key persisted cached w =
        let first = attempt_value base_slot_key head cached persisted w in
        let left =
          (assethub_phase_with_pool setting world persisted head dotns_content_resolver
            base_slot_key cached w).1 in
        elim (first.0) [
          | ok answer ↦ (ok answer, first.1)
          | err e ↦
              if head_was_cached
              then (refresh_head left >>= retry base_slot_key) (first.1)
              else (err (phase e), first.1)
        ]

    unfoldable pub query :
        Bytes
        → AssetHubHead × Bool × PersistedState
        → Run W (AssetHubResult × AssetHubHead × PersistedState)
    query base_slot_key (head, head_was_cached, persisted) =
        lift (map_err state (cached_trie_id persisted))
        >>= query_with head head_was_cached base_slot_key persisted

    abbrev pub cache_trie_id : Option Bytes → ℕ → PersistedState → PersistedState
    cache_trie_id none number persisted = persisted
    cache_trie_id (some trie_id) number persisted = record persisted {
      contracts =
          insert contract_key
            (record { trie_id = encode_0x (setting.crates) trie_id; verified_at_block = number })
            (persisted.contracts);
    }

    -- The state that is saved: the trie id, if it was fetched, and the resolution.
    unfoldable pub cache_result :
        Text → AssetHubResult → AssetHubHead → PersistedState → Text → PersistedState
    cache_result full_name r final_head persisted cid =
        let kept = cache_trie_id (r.fetched_trie_id) (final_head.number) persisted in
        record kept {
          resolved =
              insert full_name (record { cid = cid; verified_at_block = final_head.number })
                (kept.resolved);
        }

    -- The note on a cached head, and the world behind the clock's reading, which only it needs.
    abbrev pub cache_note : Bool → PersistedState → W → Text × W
    cache_note false persisted w = ([], w)
    cache_note true persisted w =
        let now = world.unix_now_ms w in (cached_note (now.0) (persisted.assethub_head), now.1)

    -- The save, whose failure does not fail the run.
    unfoldable pub conclude :
        Text → Bool → AssetHubResult → AssetHubHead → PersistedState → Text → Run W Finished
    conclude full_name head_was_cached r final_head persisted cid w =
        let now = world.unix_now_ms w in
        let saved =
          save (setting.crates) (world.browser) (now.0)
            (cache_result full_name r final_head persisted cid) (now.1) in
        let noted =
          cache_note head_was_cached (saved.0) (elim (saved.1) [ ok w' ↦ w' | err e ↦ now.1 ]) in
        (
          ok (record {
            result = record {
              full_name = full_name;
              cid = cid;
              contenthash_bytes = r.contenthash;
              final_head_number = final_head.number;
              cache_note = noted.0;
            };
            persisted = saved.0;
          }),
          noted.1,
        )

    unfoldable pub finish_run :
        Text → Bool → AssetHubResult × AssetHubHead × PersistedState → Run W Finished
    finish_run full_name head_was_cached (r, final_head, persisted) =
        lift (map_err contenthash (decode_contenthash_cid (setting.bs58_encode) (r.contenthash)))
        >>= conclude full_name head_was_cached r final_head persisted

    abbrev pub run_chosen : Text → AssetHubHead × Bool × PersistedState → Run W Finished
    run_chosen full_name chosen =
        query (base_slot_key_of full_name) chosen >>= finish_run full_name (chosen.1)

    abbrev pub run_loaded : Text → ℕ → PersistedState × Source → Run W Finished
    run_loaded full_name max_head_age_secs (persisted, source) =
        choose_head max_head_age_secs (purge_bootnodes persisted) >>= run_chosen full_name

    unfoldable pub run_inner : Text → ℕ → Run W Finished
    run_inner label max_head_age_secs w =
        (lift (map_err state (load_or_bundled (setting.crates) (world.browser) w))
            >>= run_loaded (label ++ text ".dot") max_head_age_secs)
          w

    -- The two pools replaced in the state stored by then; a save that fails is only logged.
    unfoldable pub merge_pools : PeerPool → PeerPool → PersistedState × Source → W → W
    merge_pools relay_updated assethub_updated (latest, source) w =
        let now = world.unix_now_ms w in
        let merged : PersistedState = record latest {
          relay_peers = relay_updated;
          assethub_peers = assethub_updated;
        } in
        elim ((save (setting.crates) (world.browser) (now.0) merged (now.1)).1) [
          | ok w' ↦ w'
          | err e ↦ now.1
        ]

    -- The detached task: both bursts, then the merge into the state that is loaded again, if it can
    -- be. What it leaves is the browser's storage.
    unfoldable pub background_discovery :
        (ℕ → Link) → (ℕ → Link) → ℕ → ℕ → PeerPool → PeerPool → W → W
    background_discovery relay_links assethub_links relay_now assethub_now relay_pool assethub_pool
          w =
        let relay_updated =
          discovery_burst (setting.w) (setting.bs58_encode) relay_pool
            (attach relay_links 0 relay_wss_bootnodes)
            (relay_protocol_prefix_hex (setting.crates.hex_encode)) relay_now in
        let assethub_updated =
          discovery_burst (setting.w) (setting.bs58_encode) assethub_pool
            (attach assethub_links 0 assethub_wss_bootnodes)
            (assethub_protocol_prefix_hex (setting.crates.hex_encode)) assethub_now in
        elim (load_or_bundled (setting.crates) (world.browser) w) [
          | ok latest ↦ merge_pools (relay_updated.0) (assethub_updated.0) latest w
          | err e ↦ w
        ]
