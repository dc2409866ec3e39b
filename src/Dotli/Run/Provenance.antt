-- ===== src/Dotli/Run/Provenance.antt =====
-- Where the value that `run_inner` of example/dotli/src/lib.rs returns comes from, whatever the
-- peers answered.
use microdot.Base.{
  ℕ, ◌≡◌, ◌≢◌, refl, sym, ap, ◌∙◌, [], ◌⊎◌, inl, inr, subst, Bool, true, false, Option, none, some,
  Bytes, ok, map_err, map_err-eq-ok, bind-eq-ok, Result-cases,
}
use microdot.Text.{Text}
use microdot.PoolFallback.Effects.{run_with_pool_fallback_from}
use microdot.State.{child_storage_default_prefix}
use microdot.State.Soundness.{Storage, IsSound}
use microdot.Dotli.Persistence.{
  AssetHubHeadCache, PersistedState, GrandpaState, snapshot_to_grandpa_state, update_relay,
}
use microdot.Dotli.Words.{
  use_cached, no_cached_head, fresh_asked, older_than_allowed, HeadDecision, decide-use_cached,
  revive_account_info_key,
}
use microdot.Dotli.Session.{AssetHubHead, Socket}
use microdot.Dotli.Session.Reads.{ok_inj}
use microdot.Dotli.Relay.Sound.{Warped, IsHeadOf, relay_phase_sound}
use microdot.Dotli.AssetHub.{AssetHubResult, AccountInfo, contract}
use microdot.Dotli.AssetHub.Value.{IsBytesAt}
use microdot.Dotli.AssetHub.Sound.{IsTrieIdOf, assethub_phase_sound}
use microdot.Dotli.Polkadot.{dotns_content_resolver, relay_wss, assethub_wss}
use microdot.Dotli.Pooled.{
  Setting, World, paras_key, relay_env, relay_phase_with_pool, assethub_env,
  assethub_phase_with_pool,
}
use microdot.Dotli.Run.{
  state, Run, ◌>>=◌, cached_head_to_struct, cached_trie_id, refresh_head, choose_head,
  refreshed_head, head_by, attempt_value,
}

pub bind_ok :
    {W X Y : Type 0} (m : Run W X) (f : X → Run W Y) (w : W) (y : Y)
    → ((m >>= f) w).0 ≡ ok y
    → (x : X) × ((m w).0 ≡ ok x) × ((f x ((m w).1)).0 ≡ ok y)
bind_ok m f w y = elim (Result-cases ((m w).0)) [
  | inl (x, q) ↦ rw (q, ◌>>=◌) (λ e. (x, refl, e))
  | inr (x, q) ↦ rw (q, ◌>>=◌) (λ e. cc)
]

some_ne_none : {X : Type 0} {x : X} → some x ≢ none
some_ne_none e = cc

-- The storage under each root, and the child storage of a trie id in it.
abbrev pub child_of : (Bytes → Storage) → Bytes → Bytes → Storage
child_of storage_of root trie_id = elim (storage_of root (child_storage_default_prefix trie_id)) [
  | none ↦ λ key. none
  | some child_root ↦ storage_of child_root
]

module _ {D A : Type 0} (setting : Setting D A) (Commits : Bytes → Storage → Type 0)
    (sound : IsSound (setting.lib) Commits) (storage_of : Bytes → Storage)
    (committed : (root : Bytes) → Commits root (storage_of root)) where
  -- A head that the relay chain's storage holds, at a block that accepted warp-sync responses lead to
  -- from the light-client state of the persisted state.
  abbrev pub IsFresh : PersistedState → AssetHubHead → Type 0
  IsFresh origin head =
      (gs : GrandpaState A) × (gs' : GrandpaState A) × (found : Bytes) × (snapshot_to_grandpa_state
          (setting.crates) (origin.relay)
        ≡ ok gs)
      × Warped (setting.warp) gs gs'
      × (storage_of (gs'.finalized_state_root) (paras_key setting) ≡ some found)
      × IsHeadOf (setting.warp) found head

  -- The head that the state has cached.
  abbrev pub IsCached : PersistedState → AssetHubHead → Type 0
  IsCached persisted head =
      (c : AssetHubHeadCache) × (persisted.assethub_head ≡ some c)
      × (cached_head_to_struct setting c ≡ ok head)

  -- The trie id of the resolver contract: the one that the persisted state has cached, or the one in
  -- the account information of the contract that the storage of the head holds.
  abbrev pub IsResolverId : PersistedState → AssetHubHead → Bytes → Type 0
  IsResolverId origin head trie_id =
      (cached_trie_id setting origin ≡ ok (some trie_id))
      ⊎ ((info : Bytes) × (acc : AccountInfo) × (storage_of (head.state_root)
              (revive_account_info_key (setting.chain.twox_128) dotns_content_resolver)
            ≡ some info)
          × (setting.chain.decode_account_info info ≡ some (acc, []))
          × (acc.account_type ≡ contract trie_id))

  -- A contenthash that the storage of the head holds, in the child storage of the resolver contract.
  abbrev pub IsValueAt : PersistedState → Bytes → AssetHubHead → Bytes → Type 0
  IsValueAt origin base_slot_key head found =
      (trie_id : Bytes) × IsResolverId origin head trie_id
      × IsBytesAt (setting.chain.keccak_256) (setting.chain.blake2_256)
          (child_of storage_of (head.state_root) trie_id) (setting.w) base_slot_key found

  pub child_committed :
      (root t child_root : Bytes)
      → storage_of root (child_storage_default_prefix t) ≡ some child_root
      → Commits child_root (child_of storage_of root t)
  child_committed root t child_root e = rw (e, child_of) (committed child_root)

  -- What an attempt is given as the cached trie id.
  abbrev pub MayUse : PersistedState → Option Bytes → Type 0
  MayUse origin cached = (cached ≡ none) ⊎ (cached_trie_id setting origin ≡ ok cached)

  -- The state chosen with a head has the cached trie id of `origin`; its head is cached there, and
  -- its light-client state is then unchanged, or it is fresh, and then not called cached.
  abbrev pub IsChosen : PersistedState → AssetHubHead × Bool × PersistedState → Type 0
  IsChosen origin (head, head_was_cached, p) =
      (cached_trie_id setting p ≡ cached_trie_id setting origin)
      × ((IsCached origin head × (p.relay ≡ origin.relay))
          ⊎ ((head_was_cached ≡ false) × IsFresh origin head))

  module _ {W : Type 0} (world : World W) where
    resolver_id :
        (origin : PersistedState) (head : AssetHubHead) (cached fetched : Option Bytes)
        (socket : Socket) (trie_id : Bytes)
        → MayUse origin cached
        → IsTrieIdOf
            (setting.w)
            (setting.lib)
            (setting.chain)
            socket
            Commits
            sound
            head
            (storage_of (head.state_root))
            (committed _)
            cached
            dotns_content_resolver
            trie_id
            fetched
        → IsResolverId origin head trie_id
    resolver_id origin head none fetched socket trie_id m (info, acc, f, h, d, a) =
        inr (info, acc, h, d, a)
    resolver_id origin head (some t) fetched socket trie_id (inl e) h = absurd (some_ne_none e)
    resolver_id origin head (some t) fetched socket trie_id (inr q) (s, f) =
        inl (q ∙ ap (λ x. ok (some x)) (sym s))

    relay_request_sound :
        (origin : PersistedState) (url : Text) (w : W) (r : GrandpaState A × AssetHubHead)
        → ((relay_env setting world (origin.relay)).request url w).0 ≡ ok r
        → IsFresh origin (r.1)
    unfolding relay_env
    relay_request_sound origin url w (gs', head) =
        elim (Result-cases (snapshot_to_grandpa_state (setting.crates) (origin.relay))) [
          | inr (x, q) ↦ rw (q, relay_env) (λ e. cc)
          | inl (gs, q) ↦
              rw (q, relay_env)
                (λ e.
                  let (h, (found, k, d)) =
                    relay_phase_sound (setting.w) (setting.lib) (setting.warp) (paras_key setting)
                      ((world.dial url w).0) Commits sound gs gs' url head
                      (storage_of (gs'.finalized_state_root)) (committed _)
                      (map_err-eq-ok (setting.show_phase_error) _ e) in
                  (gs, gs', found, refl, h, k, d))
        ]

    assethub_request_sound :
        (origin : PersistedState) (head : AssetHubHead) (key : Bytes) (cached : Option Bytes)
        (url : Text) (w : W) (r : AssetHubResult)
        → MayUse origin cached
        → ((assethub_env setting world head dotns_content_resolver key cached).request url w).0
          ≡ ok r
        → IsValueAt origin key head (r.contenthash)
    unfolding assethub_env
    assethub_request_sound origin head key cached url w r m e =
        let (trie_id, t, h) =
          assethub_phase_sound (setting.w) (setting.lib) (setting.chain) ((world.dial url w).0)
            Commits sound head (storage_of (head.state_root)) (committed _)
            (child_of storage_of (head.state_root)) (child_committed (head.state_root))
            dotns_content_resolver key cached url r
            (map_err-eq-ok (setting.show_phase_error) _ e) in
        (
          trie_id,
          resolver_id origin head cached (r.fetched_trie_id) ((world.dial url w).0) trie_id m t,
          h,
        )

    pub relay_phase_with_pool_sound :
        (persisted : PersistedState) (w : W) (r : GrandpaState A × AssetHubHead)
        → (relay_phase_with_pool setting world persisted w).0 ≡ ok r
        → IsFresh persisted (r.1)
    unfolding relay_phase_with_pool
    relay_phase_with_pool_sound persisted w r e =
        let (u, w', h) =
          run_with_pool_fallback_from (relay_env setting world (persisted.relay)) relay_wss
            (persisted.relay_peers) w r e in
        relay_request_sound persisted u w' r h

    assethub_phase_with_pool_sound :
        (origin persisted : PersistedState) (head : AssetHubHead) (key : Bytes)
        (cached : Option Bytes) (w : W) (r : AssetHubResult)
        → MayUse origin cached
        → (assethub_phase_with_pool setting world persisted head dotns_content_resolver key cached
            w).0
          ≡ ok r
        → IsValueAt origin key head (r.contenthash)
    unfolding assethub_phase_with_pool
    assethub_phase_with_pool_sound origin persisted head key cached w r m e =
        let (u, w', h) =
          run_with_pool_fallback_from
            (assethub_env setting world head dotns_content_resolver key cached) assethub_wss
            (persisted.assethub_peers) w r e in
        assethub_request_sound origin head key cached u w' r m h

    -- A refreshed head, and the cached trie id, which stays.
    abbrev IsRefreshed : PersistedState → AssetHubHead × PersistedState → Type 0
    IsRefreshed persisted (head, p) =
        IsFresh persisted head × (cached_trie_id setting p ≡ cached_trie_id setting persisted)

    refresh_head-IsRefreshed :
        (persisted : PersistedState) (w : W) (r : AssetHubHead × PersistedState)
        → (refresh_head setting world persisted w).0 ≡ ok r
        → IsRefreshed persisted r
    unfolding refresh_head relay_phase_with_pool update_relay cached_trie_id
    refresh_head-IsRefreshed persisted w r =
        elim (Result-cases ((relay_phase_with_pool setting world persisted w).0)) [
          | inr (x, q) ↦ rw (q, refresh_head) (λ e. cc)
          | inl (answer, q) ↦
              rw (q, refresh_head)
                (λ e.
                  subst (IsRefreshed persisted) (ok_inj _ r e)
                    (relay_phase_with_pool_sound persisted w answer q, refl))
        ]

    pub refresh_head_sound :
        (origin persisted : PersistedState) (w : W) (r : AssetHubHead × PersistedState)
        → persisted.relay ≡ origin.relay
        → (refresh_head setting world persisted w).0 ≡ ok r
        → IsFresh origin (r.0)
    refresh_head_sound origin persisted w r s e =
        let (gs, gs', found, anchor, warped, held, is) =
          (refresh_head-IsRefreshed persisted w r e).0 in
        (
          gs,
          gs',
          found,
          subst (λ x. snapshot_to_grandpa_state (setting.crates) x ≡ ok gs) s anchor,
          warped,
          held,
          is,
        )

    refreshed_head_sound :
        (persisted : PersistedState) (w : W) (r : AssetHubHead × Bool × PersistedState)
        → (refreshed_head setting world persisted w).0 ≡ ok r
        → IsChosen persisted r
    refreshed_head_sound persisted w r e =
        let (fresh, q, k) =
          bind_ok (refresh_head setting world persisted)
            (λ (head, kept) w'. (ok (head, false, kept), w')) w r e in
        let (h, same) = refresh_head-IsRefreshed persisted w fresh q in
        subst (IsChosen persisted) (ok_inj (fresh.0, false, fresh.1) r k) (same, inr (refl, h))

    head_by_sound :
        (decision : HeadDecision) (persisted : PersistedState) (w : W)
        (r : AssetHubHead × Bool × PersistedState)
        → ((c : AssetHubHeadCache) (age : ℕ)
            → decision ≡ use_cached c age
            → persisted.assethub_head ≡ some c)
        → (head_by setting world decision persisted w).0 ≡ ok r
        → IsChosen persisted r
    unfolding head_by
    head_by_sound (use_cached c age) persisted w r h e =
        let (head, q, k) = bind-eq-ok (map_err state (cached_head_to_struct setting c)) _ e in
        subst (IsChosen persisted) (ok_inj (head, true, persisted) r k)
          (refl, inl ((c, h c age refl, map_err-eq-ok state _ q), refl))
    head_by_sound no_cached_head persisted w r h e = refreshed_head_sound persisted w r e
    head_by_sound fresh_asked persisted w r h e = refreshed_head_sound persisted w r e
    head_by_sound older_than_allowed persisted w r h e = refreshed_head_sound persisted w r e

    pub choose_head_sound :
        (max : ℕ) (persisted : PersistedState) (w : W) (r : AssetHubHead × Bool × PersistedState)
        → (choose_head setting world max persisted w).0 ≡ ok r
        → IsChosen persisted r
    unfolding choose_head
    choose_head_sound max persisted w r e =
        head_by_sound _ persisted _ r
          (λ c age q. (decide-use_cached (persisted.assethub_head) max _ age c q).0) e

    pub attempt_sound :
        (origin : PersistedState) (key : Bytes) (head : AssetHubHead) (cached : Option Bytes)
        (persisted : PersistedState) (w : W) (r : AssetHubResult × AssetHubHead × PersistedState)
        → MayUse origin cached
        → (attempt_value setting world key head cached persisted w).0 ≡ ok r
        → (head ≡ r.1) × IsValueAt origin key (r.1) ((r.0).contenthash)
    unfolding attempt_value
    attempt_sound origin key head cached persisted w r m e =
        let run =
          assethub_phase_with_pool setting world persisted head dotns_content_resolver key cached
            w in
        let (v, q, k) = bind-eq-ok (run.0) _ e in
        let same = ok_inj (v, head, run.1) r k in
        (
          ap (λ (x : AssetHubResult × AssetHubHead × PersistedState). x.1) same,
          subst
              (λ (x : AssetHubResult × AssetHubHead × PersistedState).
                IsValueAt origin key (x.1) ((x.0).contenthash))
              same (assethub_phase_with_pool_sound origin persisted head key cached w v m q),
        )
