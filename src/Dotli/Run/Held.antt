-- ===== src/Dotli/Run/Held.antt =====
-- The head that a run of example/dotli/src/lib.rs uses is the one in its cache from then on.
use microdot.Base.{
  ℕ, ◌≡◌, refl, sym, ap, ◌∙◌, ==_iff, inl, inr, subst, Bool, true, false, Option, none, some, Bytes,
  length, ok, map_err, map_err-eq-ok, bind-eq-ok, Result-cases, Option-cases, Bool-cases,
}
use microdot.Text.{Text}
use microdot.State.Soundness.{Storage, IsSound}
use microdot.Dotli.Persistence.{
  AssetHubHeadCache, PersistedState, BlockHeader, encode_0x, update_relay, version_number,
}
use microdot.Dotli.Persistence.Laws.{HexRoundTrip}
use microdot.Dotli.Words.{HeadDecision, use_cached, no_cached_head, fresh_asked, older_than_allowed}
use microdot.Dotli.Session.{AssetHubHead}
use microdot.Dotli.Session.Reads.{ok_inj}
use microdot.Dotli.Relay.{WarpSync}
use microdot.Dotli.AssetHub.{AssetHubResult}
use microdot.Dotli.Polkadot.{dotns_content_resolver}
use microdot.Dotli.Pooled.{Setting, World, relay_phase_with_pool, assethub_phase_with_pool}
use microdot.Dotli.Run.{
  state, phase, Finished, lift, cached_head_to_struct, cached_trie_id, refresh_head, refreshed_head,
  head_by, attempt_value, retry, query_with, query, cache_result, conclude,
}
use microdot.Dotli.Run.Provenance.{bind_ok, IsFresh, relay_phase_with_pool_sound}
use microdot.Dotli.Run.Cache.{conclude_state}

-- The two hashes of a header are arrays of 32 bytes.
abbrev pub HasArrays : {A : Type 0} → WarpSync A → Type 0
HasArrays warp =
    (bytes : Bytes) (header : BlockHeader)
    → warp.decode_header bytes ≡ some header
    → (length (header.hash) ≡ 32) × (length (header.state_root) ≡ 32)

module _ {D A : Type 0} (setting : Setting D A) where
  -- The cache of the state is this head.
  abbrev pub IsHeld : PersistedState → AssetHubHead → Type 0
  IsHeld p head =
      (p.version ≡ version_number)
      × ((c : AssetHubHeadCache) × (p.assethub_head ≡ some c)
          × (cached_head_to_struct setting c ≡ ok head))

  -- A head that is written to the cache is read back.
  cached_head_to_struct-encode :
      (head : AssetHubHead) (now : ℕ)
      → HexRoundTrip (setting.crates)
      → length (head.hash) ≡ 32
      → length (head.state_root) ≡ 32
      → cached_head_to_struct setting (record {
        number = head.number;
        hash = encode_0x (setting.crates) (head.hash);
        state_root = encode_0x (setting.crates) (head.state_root);
        saved_at_unix_ms = now;
      })
        ≡ ok head
  unfolding cached_head_to_struct encode_0x
  cached_head_to_struct-encode head now hex h r =
      rw
        (
          hex (head.hash),
          (==_iff (length (head.hash)) 32).1 h,
          hex (head.state_root),
          (==_iff (length (head.state_root)) 32).1 r,
        )
        refl

module _ {D A : Type 0} (setting : Setting D A) {W : Type 0} (world : World W) where
  pub cache_result-IsHeld :
      (full_name : Text) (r : AssetHubResult) (head : AssetHubHead) (p : PersistedState)
      (cid : Text)
      → IsHeld setting p head
      → IsHeld setting (cache_result setting world full_name r head p cid) head
  unfolding cache_result
  cache_result-IsHeld full_name r head p cid h = elim (Option-cases (r.fetched_trie_id)) [
    | inl q ↦ rw (q, cache_result) h
    | inr (t, q) ↦ rw (q, cache_result) h
  ]

module _ {D A : Type 0} (setting : Setting D A) (Commits : Bytes → Storage → Type 0)
    (sound : IsSound (setting.lib) Commits) (storage_of : Bytes → Storage)
    (committed : (root : Bytes) → Commits root (storage_of root))
    (hex : HexRoundTrip (setting.crates)) (arrays : HasArrays (setting.warp)) {W : Type 0}
    (world : World W) where
  fresh-arrays :
      (p : PersistedState) (head : AssetHubHead)
      → IsFresh setting Commits sound storage_of committed p head
      → (length (head.hash) ≡ 32) × (length (head.state_root) ≡ 32)
  fresh-arrays p head (gs, gs', found, anchor, warped, held, (head_data, header, d, e, same)) =
      subst (λ (h : AssetHubHead). (length (h.hash) ≡ 32) × (length (h.state_root) ≡ 32)) (sym same)
        (arrays head_data header e)

  refresh_head-IsHeld :
      (p : PersistedState) (w : W) (r : AssetHubHead × PersistedState)
      → p.version ≡ version_number
      → (refresh_head setting world p w).0 ≡ ok r
      → IsHeld setting (r.1) (r.0)
  unfolding refresh_head update_relay relay_phase_with_pool
  refresh_head-IsHeld p w r v = elim (Result-cases ((relay_phase_with_pool setting world p w).0)) [
    | inr (x, q) ↦ rw (q, refresh_head) (λ e. cc)
    | inl (answer, q) ↦
        rw (q, refresh_head)
          (λ e.
            let (h, s) = fresh-arrays p (answer.1) (
              relay_phase_with_pool_sound setting Commits sound storage_of committed world p w
                answer q) in
            subst (λ (x : AssetHubHead × PersistedState). IsHeld setting (x.1) (x.0)) (ok_inj _ r e)
              (v, (_, refl, cached_head_to_struct-encode setting (answer.1) _ hex h s)))
  ]

  refreshed_head-IsHeld :
      (p : PersistedState) (w : W) (r : AssetHubHead × Bool × PersistedState)
      → p.version ≡ version_number
      → (refreshed_head setting world p w).0 ≡ ok r
      → IsHeld setting (r.2) (r.0)
  refreshed_head-IsHeld p w r v e =
      let (fresh, q, k) =
        bind_ok (refresh_head setting world p) (λ (head, kept) w'. (ok (head, false, kept), w')) w r
          e in
      subst (λ (x : AssetHubHead × Bool × PersistedState). IsHeld setting (x.2) (x.0))
        (ok_inj (fresh.0, false, fresh.1) r k) (refresh_head-IsHeld p w fresh v q)

  pub head_by-IsHeld :
      (decision : HeadDecision) (p : PersistedState) (w : W)
      (r : AssetHubHead × Bool × PersistedState)
      → p.version ≡ version_number
      → ((c : AssetHubHeadCache) (age : ℕ) → decision ≡ use_cached c age → p.assethub_head ≡ some c)
      → (head_by setting world decision p w).0 ≡ ok r
      → IsHeld setting (r.2) (r.0)
  unfolding head_by
  head_by-IsHeld (use_cached c age) p w r v h e =
      let (head, q, k) = bind-eq-ok (map_err state (cached_head_to_struct setting c)) _ e in
      subst (λ (x : AssetHubHead × Bool × PersistedState). IsHeld setting (x.2) (x.0))
        (ok_inj (head, true, p) r k) (v, (c, h c age refl, map_err-eq-ok state _ q))
  head_by-IsHeld no_cached_head p w r v h e = refreshed_head-IsHeld p w r v e
  head_by-IsHeld fresh_asked p w r v h e = refreshed_head-IsHeld p w r v e
  head_by-IsHeld older_than_allowed p w r v h e = refreshed_head-IsHeld p w r v e

  attempt_value-IsHeld :
      (key : Bytes) (head : AssetHubHead) (cached : Option Bytes) (p : PersistedState) (w : W)
      (r : AssetHubResult × AssetHubHead × PersistedState)
      → IsHeld setting p head
      → (attempt_value setting world key head cached p w).0 ≡ ok r
      → IsHeld setting (r.2) (r.1)
  unfolding attempt_value assethub_phase_with_pool
  attempt_value-IsHeld key head cached p w r h e =
      let run = assethub_phase_with_pool setting world p head dotns_content_resolver key cached w in
      let (v, q, k) = bind-eq-ok (run.0) _ e in
      subst (λ (x : AssetHubResult × AssetHubHead × PersistedState). IsHeld setting (x.2) (x.1))
        (ok_inj (v, head, run.1) r k) h

  query_with-IsHeld :
      (head : AssetHubHead) (b : Bool) (key : Bytes) (p : PersistedState) (cached : Option Bytes)
      (w : W) (r : AssetHubResult × AssetHubHead × PersistedState)
      → IsHeld setting p head
      → (query_with setting world head b key p cached w).0 ≡ ok r
      → IsHeld setting (r.2) (r.1)
  unfolding query_with assethub_phase_with_pool
  query_with-IsHeld head b key p cached w r h =
      let left =
        (assethub_phase_with_pool setting world p head dotns_content_resolver key cached w).1 in
      elim (Result-cases ((attempt_value setting world key head cached p w).0)) [
        | inl (answer, q) ↦
            rw (q, query_with)
              (λ e. attempt_value-IsHeld key head cached p w r h (q ∙ ap ok (ok_inj answer r e)))
        | inr (x, q) ↦ elim (Bool-cases b) [
          | inr c ↦ rw (q, query_with, c) (λ e. cc)
          | inl c ↦
              rw (q, query_with, c)
                (λ e.
                  let (fresh, k, m) =
                    bind_ok (refresh_head setting world left) (retry setting world key)
                      ((attempt_value setting world key head cached p w).1) r e in
                  attempt_value-IsHeld key (fresh.0) none (fresh.1) _ r
                    (refresh_head-IsHeld left _ fresh (h.0) k) (map_err-eq-ok phase _ m))
        ]
      ]

  pub query-IsHeld :
      (key : Bytes) (chosen : AssetHubHead × Bool × PersistedState) (w : W)
      (r : AssetHubResult × AssetHubHead × PersistedState)
      → IsHeld setting (chosen.2) (chosen.0)
      → (query setting world key chosen w).0 ≡ ok r
      → IsHeld setting (r.2) (r.1)
  unfolding query
  query-IsHeld key (head, b, p) w r h e =
      let (cached, q, k) =
        bind_ok (lift (map_err state (cached_trie_id setting p)))
          (query_with setting world head b key p) w r e in
      query_with-IsHeld head b key p cached w r h k

  -- The state at the end caches the head of the result.
  abbrev pub KeepsHead : AssetHubHead → Bytes → Finished → Type 0
  KeepsHead head found fin =
      IsHeld setting (fin.persisted) head
      × ((fin.result).final_head_number ≡ head.number)
      × (found ≡ (fin.result).contenthash_bytes)

  pub conclude-KeepsHead :
      (full_name : Text) (b : Bool) (r : AssetHubResult) (head : AssetHubHead) (p : PersistedState)
      (cid : Text) (w : W) (fin : Finished)
      → IsHeld setting p head
      → (conclude setting world full_name b r head p cid w).0 ≡ ok fin
      → KeepsHead head (r.contenthash) fin
  conclude-KeepsHead full_name b r head p cid w fin h e =
      subst (KeepsHead head (r.contenthash))
        (sym (conclude_state setting world full_name b r head p cid w fin e))
        (cache_result-IsHeld setting world full_name r head p cid h, refl, refl)
