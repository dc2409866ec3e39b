-- ===== src/Runs/Resolutions.antt =====
-- A run of `run_inner` of example/dotli/src/lib.rs with a cached head, and the discovery behind it.
use microdot.Base.{
  ℕ, ◌≡◌, refl, ap, ◌∙◌, Bool, true, false, Option, none, some, List, [], ◌∷◌, ◌++◌, Bytes, length,
  ◌==◌, Result, ok, err, map_err, ◌⊎◌, ◌≤◌,
}
use microdot.Base as Outcome
use microdot.Base.Sort.{sort_by}
use microdot.Text.{Text, text, show}
use microdot.BTreeMap.{get, insert, text_order, remove_all, remove}
use microdot.PeerPool.{new, ranked_available, purge_peers}
use microdot.PeerPool.Reputation.{IsValid}
use microdot.PeerPool.Invariant.{Reaches-IsValid, here}
use microdot.PoolFallback.{run_with_pool_fallback, try_peers}
use microdot.Dotli.Persistence.{
  PersistedState, Source, saved_local_storage, available, load_or_bundled, read_storage, current,
  save, write_storage, encode_0x,
}
use microdot.Dotli.Words.{decide, revive_account_info_key}
use microdot.Dotli.Session.{AssetHubHead}
use microdot.Dotli.AssetHub.{AssetHubResult}
use microdot.Dotli.Contenthash.{decode_contenthash_cid, base32_lower_no_pad, base32_digits}
use microdot.Dotli.Polkadot.{dotns_content_resolver, assethub_wss}
use microdot.Dotli.Pooled.{Setting, World, assethub_phase_with_pool, assethub_env}
use microdot.Dotli.Run.{
  Finished, run_inner, purge_bootnodes, choose_head, head_by, cached_head_to_struct, query,
  query_with, cached_trie_id, attempt_value, Run, ◌>>=◌, RunError, lift, run_chosen, run_loaded,
  base_slot_key_of, finish_run, conclude, cache_result,
}
use microdot.Discovery.{Link, discovery_burst, fold_outcomes, probe_one_bootnode}
use microdot.PeerPool.{evict_to_capacity}
use microdot.Kad.Multiaddr.{parse_bootnode_multiaddr}
use microdot.Text.{split, trim_start_matches, parse_u16}
use microdot.Dotli.Run.Provenance.{IsFresh, IsCached, IsValueAt}
use microdot.Dotli.Run.Resolution.{IsResultOf, run_inner_sound}
use microdot.Dotli.Run.Cache.{IsKept, run_inner-IsKept}
use microdot.Dotli.Run.Background.{discovered}
use microdot.Runs.Toys.{zeros, slot, held, library, Commits, library-IsSound}
use microdot.Runs.Phases.{warp, chain, socket, head, assethub_answered}

abbrev pub stored : PersistedState
stored = record {
  version = 1;
  saved_at_unix_ms = 0;
  relay = record {
    finalized_number = 3;
    finalized_hash = [];
    finalized_state_root = [];
    set_id = 2;
    authorities_scale = [];
  };
  assethub_head = some (record {
    number = 7;
    hash = text "0x" ++ slot;
    state_root = text "0x" ++ zeros;
    saved_at_unix_ms = 0;
  });
  contracts = [];
  resolved = [];
  relay_peers = new;
  assethub_peers = new;
}

-- the state at the end: the trie id, the resolution and the time are new
abbrev pub kept : PersistedState
kept = record stored {
  saved_at_unix_ms = 5;
  contracts =
      (
        text "0x" ++ dotns_content_resolver,
        record { trie_id = text "0x" ++ (9 ∷ []); verified_at_block = 7 },
      )
      ∷ [];
  resolved = (text "a.dot", record { cid = text "bafyq"; verified_at_block = 7 }) ∷ [];
}

-- the empty text stands for the state at the start, any other for the state at the end
abbrev pub reads : Text → Option PersistedState
reads [] = some stored
reads (c ∷ t) = some kept

abbrev pub setting : Setting (Unit {0}) Bytes
setting = record {
  w = 32;
  lib = library;
  warp = warp;
  chain = chain;
  crates = record {
    hex_encode = λ bytes. bytes;
    hex_decode = λ t. some t;
    encode_authorities = λ a. a;
    decode_authorities = λ bytes. some bytes;
    decode_header = λ bytes. none;
    decode_authority_set = λ bytes. none;
    to_json = λ s. some (1 ∷ []);
    from_json = reads;
    bundled_lightsync = none;
  };
  twox_64 = λ bytes. bytes;
  encode_u32 = λ n. n ∷ [];
  bs58_encode = λ bytes. bytes;
  show_state_error = λ e. [];
  show_phase_error = λ e. [];
}

abbrev pub world : World (Option Text)
world = record {
  unix_now_ms = λ w. (5, w);
  dial = λ url w. (socket, w);
  browser = record {
    access = available;
    get_item = λ key w. ok w;
    set_item = λ key value w. ok (some value);
  };
}

abbrev resolution : AssetHubResult
resolution = record { contenthash = 0xe3 ∷ 1 ∷ 1 ∷ 0x71 ∷ []; fetched_trie_id = some (9 ∷ []) }

abbrev pub finished : Finished
finished = record {
  result = record {
    full_name = text "a.dot";
    cid = text "bafyq";
    contenthash_bytes = resolution.contenthash;
    final_head_number = 7;
    cache_note = b' ' ∷ 0xe2 ∷ 0x80 ∷ 0x94 ∷ text " head cached, 0s old";
  };
  persisted = kept;
}

pub loaded :
    load_or_bundled (setting.crates) (world.browser) (some []) ≡ ok (stored, saved_local_storage)
unfolding load_or_bundled read_storage current
loaded = refl

remove_all-new : (ids : List Text) → remove_all ids new ≡ new
unfolding remove_all remove
remove_all-new [] = refl
remove_all-new (id ∷ ids) = remove_all-new ids

purged : purge_bootnodes stored ≡ stored
unfolding purge_bootnodes purge_peers
purged = rw (remove_all-new, remove_all-new) refl

pub info_key :
    (length (revive_account_info_key (λ bytes. bytes) dotns_content_resolver) == 24) ≡ false
unfolding revive_account_info_key
info_key = refl

chosen : choose_head setting world 30 stored (some []) ≡ (ok (head, true, stored), some [])
unfolding choose_head head_by decide cached_head_to_struct
chosen = refl

bind_gives :
    {W X Y : Type 0} (m : Run W X) (f : X → Run W Y) (w w' : W) (x : X)
    → m w ≡ (ok x, w')
    → (m >>= f) w ≡ f x w'
bind_gives m f w w' x e =
    rw (ap (λ (y : Result RunError _ × _). y.0) e, ◌>>=◌)
      (ap (λ (y : Result RunError _ × _). f x (y.1)) e)

answered :
    (key : Bytes)
    → assethub_phase_with_pool setting world stored head dotns_content_resolver key none (some [])
      ≡ (ok resolution, stored, some [])
unfolding assethub_phase_with_pool run_with_pool_fallback try_peers ranked_available assethub_env
    sort_by
answered key = rw (assethub_answered dotns_content_resolver key assethub_wss info_key) refl

attempted :
    (key : Bytes)
    → attempt_value setting world key head none stored (some [])
      ≡ (ok (resolution, head, stored), some [])
unfolding attempt_value
attempted key =
    ap
      (λ (run : Result Text AssetHubResult × PersistedState × Option Text).
        (Outcome.◌>>=◌ (run.0) (λ r. ok (r, head, run.1)), run.2))
      (answered key)

queried_with :
    (key : Bytes)
    → query_with setting world head true key stored none (some [])
      ≡ (ok (resolution, head, stored), some [])
unfolding query_with
queried_with key =
    rw
      (
        ap (λ (y : Result Text (AssetHubResult × AssetHubHead × PersistedState) × Option Text). y.0)
            (attempted key),
        query_with,
      )
      (ap
        (λ (y : Result Text (AssetHubResult × AssetHubHead × PersistedState) × Option Text).
          (ok (resolution, head, stored), y.1))
        (attempted key))

queried :
    (key : Bytes)
    → query setting world key (head, true, stored) (some [])
      ≡ (ok (resolution, head, stored), some [])
unfolding query cached_trie_id get
queried key = queried_with key

concluded :
    finish_run setting world (text "a.dot") true (resolution, head, stored) (some [])
    ≡ (ok finished, some (1 ∷ []))
unfolding finish_run conclude show save write_storage cache_result insert encode_0x
    decode_contenthash_cid base32_lower_no_pad base32_digits
concluded = refl

resolved :
    run_chosen setting world (text "a.dot") (head, true, stored) (some [])
    ≡ (ok finished, some (1 ∷ []))
resolved =
    bind_gives (query setting world (base_slot_key_of setting (text "a.dot")) (head, true, stored))
      (finish_run setting world (text "a.dot") true) (some []) (some []) (resolution, head, stored)
      (queried (base_slot_key_of setting (text "a.dot")))
    ∙ concluded

pub ran_world : run_inner setting world (text "a") 30 (some []) ≡ (ok finished, some (1 ∷ []))
unfolding run_inner
ran_world =
    bind_gives
      (lift (map_err RunError.state (load_or_bundled (setting.crates) (world.browser) (some []))))
      (run_loaded setting world (text "a.dot") 30) (some []) (some []) (stored, saved_local_storage)
      (rw (loaded) refl)
    ∙ bind_gives (choose_head setting world 30 (purge_bootnodes stored))
        (run_chosen setting world (text "a.dot")) (some []) (some []) (head, true, stored)
        (rw (purged) chosen)
    ∙ resolved

pub ran : (run_inner setting world (text "a") 30 (some [])).0 ≡ ok finished
ran = ap (λ (y : Result RunError Finished × Option Text). y.0) ran_world

run_inner_sound_example :
    (from : PersistedState × Source) × (h : AssetHubHead) × (found : Bytes) × (load_or_bundled
        (setting.crates)
        (world.browser)
        (some [])
      ≡ ok from)
    × (IsCached setting Commits library-IsSound held (λ root key. refl) (from.0) h
        ⊎ IsFresh setting Commits library-IsSound held (λ root key. refl) (from.0) h)
    × IsValueAt setting Commits library-IsSound held
        (λ root key. refl)
        (from.0)
        (base_slot_key_of setting (text "a.dot"))
        h
        found
    × IsResultOf setting Commits library-IsSound held
        (λ root key. refl)
        world
        (text "a.dot")
        h
        found
        (finished.result)
run_inner_sound_example =
    run_inner_sound setting Commits library-IsSound held (λ root key. refl) world (text "a") 30
      (some []) finished ran

pub new-IsValid : IsValid new
new-IsValid = Reaches-IsValid here

run_inner-IsKept_example : IsKept setting world (text "a.dot") finished
run_inner-IsKept_example =
    run_inner-IsKept setting world (text "a") 30 (some []) finished (stored, saved_local_storage)
      loaded new-IsValid new-IsValid ran

-- a bootnode that does not answer
abbrev pub silent : Link
silent = record {
  connect = λ url. err [];
  add_protocol = λ name. 1;
  handshake = λ name. ok tt;
  fill_with_random_bytes = λ n. [];
  request = λ bytes. ok tt;
  incoming = [];
  times_out = false;
}

-- The discovery of a run at whose end nobody answers.
pub discovered_kept :
    discovered setting world (λ i. silent) (λ i. silent) 4 4 new new kept (some (1 ∷ [])) ≡ kept
unfolding discovery_burst evict_to_capacity fold_outcomes probe_one_bootnode
    parse_bootnode_multiaddr split trim_start_matches parse_u16
discovered_kept = refl
