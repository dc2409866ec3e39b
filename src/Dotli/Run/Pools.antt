-- ===== src/Dotli/Run/Pools.antt =====
-- What the steps of a run of example/dotli/src/lib.rs leave of the two peer pools.
use microdot.Base.{
  ◌≡◌, ap, ◌∙◌, subst, inl, inr, Bool, true, false, Option, none, List, Bytes, ok, map_err,
  bind-eq-ok, map_err-eq-ok, Bool-cases, Result-cases, arith,
}
use microdot.Text.{Text}
use microdot.BTreeMap.{text_order, get}
use microdot.BTreeMap.Removal.{contains, get-remove_all}
use microdot.PeerPool.{PeerPool, purge_peers}
use microdot.PeerPool.Reputation.{IsValid}
use microdot.PeerPool.Invariant.{perform-IsValid, purging}
use microdot.PoolFallback.Effects.{run_with_pool_fallback_keeps, run_with_pool_fallback_absent}
use microdot.Dotli.Persistence.{PersistedState, update_relay}
use microdot.Dotli.Words.{HeadDecision, use_cached, no_cached_head, fresh_asked, older_than_allowed}
use microdot.Dotli.Session.{AssetHubHead}
use microdot.Dotli.Session.Reads.{ok_inj}
use microdot.Dotli.AssetHub.{AssetHubResult}
use microdot.Dotli.Polkadot.{
  relay_wss, assethub_wss, relay_wss_bootnodes, assethub_wss_bootnodes, dotns_content_resolver,
}
use microdot.Dotli.Pooled.{
  Setting, World, relay_env, relay_phase_with_pool, assethub_env, assethub_phase_with_pool,
}
use microdot.Dotli.Run.{
  state, phase, bootnode_ids, purge_bootnodes, cached_head_to_struct, refresh_head, refreshed_head,
  head_by, attempt_value, retry, query_with,
}
use microdot.Dotli.Run.Provenance.{bind_ok}

-- A valid pool without the given peers.
abbrev pub IsPoolWithout : List Text → PeerPool → Type 0
IsPoolWithout ids pool = IsValid pool × ((id : Text) → contains id ids ≡ true → get id pool ≡ none)

-- Both pools are valid, and no bootnode is in its chain's pool.
abbrev pub IsClean : PersistedState → Type 0
IsClean persisted =
    IsPoolWithout (bootnode_ids relay_wss_bootnodes) (persisted.relay_peers)
    × IsPoolWithout (bootnode_ids assethub_wss_bootnodes) (persisted.assethub_peers)

purge_peers-IsPoolWithout :
    (ids : List Text) (pool : PeerPool) → IsValid pool → IsPoolWithout ids (purge_peers ids pool)
unfolding purge_peers
purge_peers-IsPoolWithout ids pool h = (
  perform-IsValid (purging ids) pool h,
  λ id c. ground (arith, get-remove_all id ids pool (h.ascending), c),
)

pub purge_bootnodes-IsClean :
    (persisted : PersistedState)
    → IsValid (persisted.relay_peers)
    → IsValid (persisted.assethub_peers)
    → IsClean (purge_bootnodes persisted)
unfolding purge_bootnodes
purge_bootnodes-IsClean persisted r a =
    (purge_peers-IsPoolWithout _ _ r, purge_peers-IsPoolWithout _ _ a)

module _ {D A : Type 0} (setting : Setting D A) {W : Type 0} (world : World W) where
  relay_phase_with_pool-IsClean :
      (p : PersistedState) (w : W)
      → IsClean p
      → IsClean ((relay_phase_with_pool setting world p w).1)
  unfolding relay_phase_with_pool
  relay_phase_with_pool-IsClean p w ((v, f), a) =
      let env = relay_env setting world (p.relay) in
      (
        (
          (run_with_pool_fallback_keeps env relay_wss (p.relay_peers) w v).0,
          λ id c. run_with_pool_fallback_absent env relay_wss (p.relay_peers) w id (f id c),
        ),
        a,
      )

  assethub_phase_with_pool-IsClean :
      (p : PersistedState) (head : AssetHubHead) (addr key : Bytes) (cached : Option Bytes) (w : W)
      → IsClean p
      → IsClean ((assethub_phase_with_pool setting world p head addr key cached w).1)
  unfolding assethub_phase_with_pool
  assethub_phase_with_pool-IsClean p head addr key cached w (r, (v, f)) =
      let env = assethub_env setting world head addr key cached in
      (
        r,
        (
          (run_with_pool_fallback_keeps env assethub_wss (p.assethub_peers) w v).0,
          λ id c. run_with_pool_fallback_absent env assethub_wss (p.assethub_peers) w id (f id c),
        ),
      )

  refresh_head-IsClean :
      (p : PersistedState) (w : W) (r : AssetHubHead × PersistedState)
      → IsClean p
      → (refresh_head setting world p w).0 ≡ ok r
      → IsClean (r.1)
  unfolding refresh_head update_relay
  refresh_head-IsClean p w r h = elim (Result-cases ((relay_phase_with_pool setting world p w).0)) [
    | inr (x, q) ↦ rw (q, refresh_head) (λ e. cc)
    | inl (answer, q) ↦
        rw (q, refresh_head)
          (λ e.
            subst IsClean (ap (λ (x : AssetHubHead × PersistedState). x.1) (ok_inj _ r e))
              (relay_phase_with_pool-IsClean p w h))
  ]

  refreshed_head-IsClean :
      (p : PersistedState) (w : W) (r : AssetHubHead × Bool × PersistedState)
      → IsClean p
      → (refreshed_head setting world p w).0 ≡ ok r
      → IsClean (r.2)
  refreshed_head-IsClean p w r h e =
      let (fresh, q, k) =
        bind_ok (refresh_head setting world p) (λ (head, kept) w'. (ok (head, false, kept), w')) w r
          e in
      subst IsClean
        (ap (λ (x : AssetHubHead × Bool × PersistedState). x.2)
          (ok_inj (fresh.0, false, fresh.1) r k))
        (refresh_head-IsClean p w fresh h q)

  pub head_by-IsClean :
      (decision : HeadDecision) (p : PersistedState) (w : W)
      (r : AssetHubHead × Bool × PersistedState)
      → IsClean p
      → (head_by setting world decision p w).0 ≡ ok r
      → IsClean (r.2)
  unfolding head_by
  head_by-IsClean (use_cached c age) p w r h e =
      let (head, q, k) = bind-eq-ok (map_err state (cached_head_to_struct setting c)) _ e in
      subst IsClean
        (ap (λ (x : AssetHubHead × Bool × PersistedState). x.2) (ok_inj (head, true, p) r k)) h
  head_by-IsClean no_cached_head p w r h e = refreshed_head-IsClean p w r h e
  head_by-IsClean fresh_asked p w r h e = refreshed_head-IsClean p w r h e
  head_by-IsClean older_than_allowed p w r h e = refreshed_head-IsClean p w r h e

  attempt_value-IsClean :
      (key : Bytes) (head : AssetHubHead) (cached : Option Bytes) (p : PersistedState) (w : W)
      (r : AssetHubResult × AssetHubHead × PersistedState)
      → IsClean p
      → (attempt_value setting world key head cached p w).0 ≡ ok r
      → IsClean (r.2)
  unfolding attempt_value
  attempt_value-IsClean key head cached p w r h e =
      let run = assethub_phase_with_pool setting world p head dotns_content_resolver key cached w in
      let (v, q, k) = bind-eq-ok (run.0) _ e in
      subst IsClean
        (ap (λ (x : AssetHubResult × AssetHubHead × PersistedState). x.2)
          (ok_inj (v, head, run.1) r k))
        (assethub_phase_with_pool-IsClean p head dotns_content_resolver key cached w h)

  pub query_with-IsClean :
      (head : AssetHubHead) (b : Bool) (key : Bytes) (p : PersistedState) (cached : Option Bytes)
      (w : W) (r : AssetHubResult × AssetHubHead × PersistedState)
      → IsClean p
      → (query_with setting world head b key p cached w).0 ≡ ok r
      → IsClean (r.2)
  unfolding query_with
  query_with-IsClean head b key p cached w r h =
      let left =
        (assethub_phase_with_pool setting world p head dotns_content_resolver key cached w).1 in
      let clean = assethub_phase_with_pool-IsClean p head dotns_content_resolver key cached w h in
      elim (Result-cases ((attempt_value setting world key head cached p w).0)) [
        | inl (answer, q) ↦
            rw (q, query_with)
              (λ e. attempt_value-IsClean key head cached p w r h (q ∙ ap ok (ok_inj answer r e)))
        | inr (x, q) ↦ elim (Bool-cases b) [
          | inr c ↦ rw (q, query_with, c) (λ e. cc)
          | inl c ↦
              rw (q, query_with, c)
                (λ e.
                  let (fresh, k, m) =
                    bind_ok (refresh_head setting world left) (retry setting world key)
                      ((attempt_value setting world key head cached p w).1) r e in
                  attempt_value-IsClean key (fresh.0) none (fresh.1) _ r
                    (refresh_head-IsClean left _ fresh clean k) (map_err-eq-ok phase _ m))
        ]
      ]
