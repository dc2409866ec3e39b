-- ===== src/Dotli/Run/Returns.antt =====
-- When `run_inner` of example/dotli/src/lib.rs returns: a cached head that has become useless does
-- not fail the run.
use microdot.Base.{
  ℕ, ◌≡◌, refl, sym, ap, ◌∙◌, ◌⊎◌, inl, inr, subst, Bool, true, false, Option, none, some, Bytes,
  ok, map_err, Result-cases, ◌++◌,
}
use microdot.Text.{Text, text}
use microdot.PoolFallback.Effects.{
  Gives, run_with_pool_fallback_answers, run_with_pool_fallback_from,
}
use microdot.Dotli.Persistence.{
  RelaySnapshot, AssetHubHeadCache, PersistedState, Source, GrandpaState, update_relay,
  load_or_bundled,
}
use microdot.Dotli.Words.{
  HeadDecision, use_cached, no_cached_head, fresh_asked, older_than_allowed, decide,
  decide-use_cached,
}
use microdot.Dotli.Session.{AssetHubHead}
use microdot.Dotli.AssetHub.{AssetHubResult}
use microdot.Dotli.Polkadot.{dotns_content_resolver, relay_wss, assethub_wss}
use microdot.Dotli.Pooled.{
  Setting, World, relay_env, relay_phase_with_pool, assethub_env, assethub_phase_with_pool,
}
use microdot.Dotli.Run.{
  state, Run, ◌>>=◌, lift, purge_bootnodes, cached_head_to_struct, cached_trie_id, refresh_head,
  choose_head, refreshed_head, head_by, attempt_value, retry, query_with, query, finish_run,
  base_slot_key_of, run_chosen, run_loaded, run_inner,
}

pub bind-Gives :
    {W X Y : Type 0} (m : Run W X) (f : X → Run W Y) (w : W) (x : X)
    → (m w).0 ≡ ok x
    → Gives ((f x ((m w).1)).0)
    → Gives (((m >>= f) w).0)
bind-Gives m f w x q h = rw (q, ◌>>=◌) h

bind_goes :
    {W X Y : Type 0} (m : Run W X) (f : X → Run W Y) (w : W) (x : X)
    → (m w).0 ≡ ok x
    → (m >>= f) w ≡ f x ((m w).1)
bind_goes m f w x q = rw (q, ◌>>=◌) refl

module _ {D A : Type 0} (setting : Setting D A) {W : Type 0} (world : World W) where
  -- A head that some relay-chain node answers with, from this light-client state.
  abbrev pub IsOffered : RelaySnapshot → AssetHubHead → Type 0
  IsOffered snapshot head =
      (url : Text) × (w : W) × (gs : GrandpaState A) × (((relay_env setting world snapshot).request
          url w).0
        ≡ ok (gs, head))

  -- The relay chain's own endpoint answers.
  abbrev pub RelayAnswers : RelaySnapshot → Type 0
  RelayAnswers snapshot =
      (w : W) → Gives (((relay_env setting world snapshot).request relay_wss w).0)

  -- A run asks with no trie id, or with the cached one.
  abbrev pub IsTried : PersistedState → Option Bytes → Type 0
  IsTried p cached = (cached ≡ none) ⊎ (cached_trie_id setting p ≡ ok cached)

  -- AssetHub's own endpoint answers for every head that a relay-chain node offers.
  abbrev pub AssetHubAnswers : PersistedState → Bytes → Type 0
  AssetHubAnswers p key =
      (head : AssetHubHead) (cached : Option Bytes) (w : W)
      → IsOffered (p.relay) head
      → IsTried p cached
      → Gives (
          ((assethub_env setting world head dotns_content_resolver key cached).request assethub_wss
            w).0)

  -- A fresh head comes with the caches as they were.
  refresh_head-Gives :
      (p : PersistedState) (w : W)
      → RelayAnswers (p.relay)
      → (r : AssetHubHead × PersistedState) × ((refresh_head setting world p w).0 ≡ ok r)
        × IsOffered (p.relay) (r.0)
        × ((r.1).contracts ≡ p.contracts)
  unfolding refresh_head relay_phase_with_pool update_relay
  refresh_head-Gives p w h =
      let env = relay_env setting world (p.relay) in
      let (answer, q) = run_with_pool_fallback_answers env relay_wss (p.relay_peers) w h in
      let (url, w', k) = run_with_pool_fallback_from env relay_wss (p.relay_peers) w answer q in
      rw (q, refresh_head) (_, refl, (url, w', answer.0, k), refl)

  attempt_value-Gives :
      (start : PersistedState) (key : Bytes) (head : AssetHubHead) (cached : Option Bytes)
      (p : PersistedState) (w : W)
      → AssetHubAnswers start key
      → IsOffered (start.relay) head
      → IsTried start cached
      → Gives ((attempt_value setting world key head cached p w).0)
  unfolding attempt_value assethub_phase_with_pool
  attempt_value-Gives start key head cached p w h offered tried =
      let env = assethub_env setting world head dotns_content_resolver key cached in
      let (answer, q) =
        run_with_pool_fallback_answers env assethub_wss (p.assethub_peers) w
          (λ w'. h head cached w' offered tried) in
      rw (q, attempt_value) (_, refl)

  -- The retry: a fresh head, and an attempt that is answered.
  retry-Gives :
      (key : Bytes) (p left : PersistedState) (w : W)
      → left.relay ≡ p.relay
      → RelayAnswers (p.relay)
      → AssetHubAnswers p key
      → Gives (((refresh_head setting world left >>= retry setting world key) w).0)
  retry-Gives key p left w same relay assethub =
      let (fresh, q, offered, _) =
        refresh_head-Gives left w (subst RelayAnswers (sym same) relay) in
      let (answer, k) =
        attempt_value-Gives p key (fresh.0) none (fresh.1) ((refresh_head setting world left w).1)
          assethub (subst (λ s. IsOffered s (fresh.0)) same offered) (inl refl) in
      bind-Gives (refresh_head setting world left) (retry setting world key) w fresh q
        (answer, rw k refl)

  -- The query is answered whatever trie id was cached, with a head that may be useless.
  query_with-cached :
      (head : AssetHubHead) (key : Bytes) (p : PersistedState) (cached : Option Bytes) (w : W)
      → RelayAnswers (p.relay)
      → AssetHubAnswers p key
      → Gives ((query_with setting world head true key p cached w).0)
  unfolding query_with assethub_phase_with_pool
  query_with-cached head key p cached w relay assethub =
      let left =
        (assethub_phase_with_pool setting world p head dotns_content_resolver key cached w).1 in
      let first = attempt_value setting world key head cached p w in
      elim (Result-cases (first.0)) [
        | inl (answer, q) ↦ rw (q, query_with) (answer, refl)
        | inr (x, q) ↦ rw (q, query_with) (retry-Gives key p left (first.1) refl relay assethub)
      ]

  -- With a head on offer the first attempt is enough.
  query_with-offered :
      (start : PersistedState) (head : AssetHubHead) (b : Bool) (key : Bytes) (p : PersistedState)
      (cached : Option Bytes) (w : W)
      → AssetHubAnswers start key
      → IsOffered (start.relay) head
      → IsTried start cached
      → Gives ((query_with setting world head b key p cached w).0)
  unfolding query_with
  query_with-offered start head b key p cached w assethub offered tried =
      let (answer, q) = attempt_value-Gives start key head cached p w assethub offered tried in
      rw (q, query_with) (answer, refl)

  -- The chosen head is one that the query is answered with.
  abbrev pub IsReady : Bytes → PersistedState → AssetHubHead × Bool × PersistedState → Type 0
  IsReady key p (head, b, kept) =
      (kept.contracts ≡ p.contracts)
      × ((cached : Option Bytes) (w : W)
          → cached_trie_id setting p ≡ ok cached
          → Gives ((query_with setting world head b key kept cached w).0))

  -- What is cached can be read.
  abbrev pub IsReadable : PersistedState → Type 0
  IsReadable p =
      Gives (cached_trie_id setting p)
      × ((c : AssetHubHeadCache)
          → p.assethub_head ≡ some c
          → Gives (cached_head_to_struct setting c))

  refreshed_head-IsReady :
      (key : Bytes) (p : PersistedState) (w : W)
      → RelayAnswers (p.relay)
      → AssetHubAnswers p key
      → (r : AssetHubHead × Bool × PersistedState) × ((refreshed_head setting world p w).0 ≡ ok r)
        × IsReady key p r
  refreshed_head-IsReady key p w relay assethub =
      let (fresh, q, offered, same) = refresh_head-Gives p w relay in
      (
        (fresh.0, false, fresh.1),
        rw (q, ◌>>=◌) refl,
        (
          same,
          λ cached w' e.
              query_with-offered p (fresh.0) false key (fresh.1) cached w' assethub offered (inr e),
        ),
      )

  head_by-IsReady :
      (decision : HeadDecision) (key : Bytes) (p : PersistedState) (w : W)
      → ((c : AssetHubHeadCache) (age : ℕ)
          → decision ≡ use_cached c age
          → Gives (cached_head_to_struct setting c))
      → RelayAnswers (p.relay)
      → AssetHubAnswers p key
      → (r : AssetHubHead × Bool × PersistedState) × ((head_by setting world decision p w).0 ≡ ok r)
        × IsReady key p r
  unfolding head_by
  head_by-IsReady (use_cached c age) key p w read relay assethub =
      let (head, q) = read c age refl in
      (
        (head, true, p),
        rw q refl,
        (refl, λ cached w' e. query_with-cached head key p cached w' relay assethub),
      )
  head_by-IsReady no_cached_head key p w read relay assethub =
      refreshed_head-IsReady key p w relay assethub
  head_by-IsReady fresh_asked key p w read relay assethub =
      refreshed_head-IsReady key p w relay assethub
  head_by-IsReady older_than_allowed key p w read relay assethub =
      refreshed_head-IsReady key p w relay assethub

  query-Gives :
      (key : Bytes) (p : PersistedState) (chosen : AssetHubHead × Bool × PersistedState) (w : W)
      → Gives (cached_trie_id setting p)
      → IsReady key p chosen
      → Gives ((query setting world key chosen w).0)
  unfolding query cached_trie_id
  query-Gives key p (head, b, kept) w (cached, q) (same, ready) =
      let read : cached_trie_id setting kept ≡ ok cached = rw same q in
      bind-Gives (lift (map_err state (cached_trie_id setting kept)))
        (query_with setting world head b key kept) w cached (ap (map_err state) read)
        (ready cached w q)

  -- The run comes to an answer, with which it ends.
  pub run_inner_reaches :
      (label : Text) (max_head_age_secs : ℕ) (w : W) (loaded : PersistedState × Source)
      → load_or_bundled (setting.crates) (world.browser) w ≡ ok loaded
      → IsReadable (loaded.0)
      → RelayAnswers ((loaded.0).relay)
      → AssetHubAnswers (loaded.0) (base_slot_key_of setting (label ++ text ".dot"))
      → (chosen : AssetHubHead × Bool × PersistedState) × (answer : AssetHubResult × AssetHubHead
          × PersistedState)
        × (u : W) × ((choose_head setting world max_head_age_secs (purge_bootnodes (loaded.0)) w).0
            ≡ ok chosen)
        × ((query setting world (base_slot_key_of setting (label ++ text ".dot")) chosen u).0
            ≡ ok answer)
        × (run_inner setting world label max_head_age_secs w
            ≡ finish_run setting world (label ++ text ".dot") (chosen.1) answer (
                (query setting world (base_slot_key_of setting (label ++ text ".dot")) chosen u).1))
  unfolding run_inner choose_head purge_bootnodes cached_trie_id
  run_inner_reaches label max w loaded l (trie, head) relay assethub =
      let full_name = label ++ text ".dot" in
      let key = base_slot_key_of setting full_name in
      let p = purge_bootnodes (loaded.0) in
      let now = world.unix_now_ms w in
      let (chosen, q, ready) =
        head_by-IsReady (decide (p.assethub_head) max (now.0)) key p (now.1)
          (λ c age e. head c (decide-use_cached (p.assethub_head) max (now.0) age c e).0) relay
          assethub in
      let (answer, k) =
        query-Gives key p chosen ((choose_head setting world max p w).1) trie ready in
      (
        chosen,
        answer,
        (choose_head setting world max p w).1,
        q,
        k,
        bind_goes (lift (map_err state (load_or_bundled (setting.crates) (world.browser) w)))
              (run_loaded setting world full_name max) w loaded (ap (map_err state) l)
            ∙ bind_goes (choose_head setting world max p) (run_chosen setting world full_name) w
                chosen q
            ∙ bind_goes (query setting world key chosen)
                (finish_run setting world full_name (chosen.1)) _ answer k,
      )
