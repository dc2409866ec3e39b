-- ===== src/Dotli/Run/Cache.antt =====
-- What a run of example/dotli/src/lib.rs leaves in the state: its pools and its caches.
use microdot.Base.{
  ℕ, ◌≡◌, refl, sym, ◌∙◌, subst, inl, inr, Bool, some, ◌++◌, Bytes, ok, map_err, map_err-eq-ok,
  Option-cases,
}
use microdot.Text.{Text, text}
use microdot.Text.Order.{text_cmp_refl}
use microdot.BTreeMap.{text_order, get}
use microdot.BTreeMap.Laws.{get-insert}
use microdot.PeerPool.Reputation.{IsValid}
use microdot.Dotli.Persistence.{PersistedState, Source, load_or_bundled, save}
use microdot.Dotli.Session.{AssetHubHead}
use microdot.Dotli.Session.Reads.{ok_inj}
use microdot.Dotli.AssetHub.{AssetHubResult}
use microdot.Dotli.Contenthash.{decode_contenthash_cid}
use microdot.Dotli.Pooled.{Setting, World}
use microdot.Dotli.Run.{
  state, contenthash, Finished, lift, purge_bootnodes, cached_trie_id, choose_head, query_with,
  query, cache_result, conclude, finish_run, base_slot_key_of, run_chosen, run_loaded, run_inner,
}
use microdot.Dotli.Run.Provenance.{bind_ok}
use microdot.Dotli.Run.Pools.{IsClean, purge_bootnodes-IsClean, head_by-IsClean, query_with-IsClean}

module _ {D A : Type 0} (setting : Setting D A) {W : Type 0} (world : World W) where
  cache_result-IsClean :
      (full_name : Text) (r : AssetHubResult) (head : AssetHubHead) (p : PersistedState)
      (cid : Text)
      → IsClean p
      → IsClean (cache_result setting world full_name r head p cid)
  unfolding cache_result
  cache_result-IsClean full_name r head p cid h = elim (Option-cases (r.fetched_trie_id)) [
    | inl q ↦ rw (q, cache_result) h
    | inr (t, q) ↦ rw (q, cache_result) h
  ]

  -- The end of a run, but for its note: the state is the one that was cached, with the time of the
  -- save.
  abbrev pub IsConcluded :
      Text → AssetHubResult → AssetHubHead → PersistedState → Text → ℕ → Finished → Type 0
  IsConcluded full_name r head left cid now fin = fin ≡ record {
    result = record {
      full_name = full_name;
      cid = cid;
      contenthash_bytes = r.contenthash;
      final_head_number = head.number;
      cache_note = (fin.result).cache_note;
    };
    persisted = record left { saved_at_unix_ms = now };
  }

  pub conclude_state :
      (full_name : Text) (b : Bool) (r : AssetHubResult) (head : AssetHubHead) (p : PersistedState)
      (cid : Text) (w : W) (fin : Finished)
      → (conclude setting world full_name b r head p cid w).0 ≡ ok fin
      → IsConcluded full_name r head
          (cache_result setting world full_name r head p cid)
          cid
          ((world.unix_now_ms w).0)
          fin
  unfolding conclude save
  conclude_state full_name b r head p cid w fin e =
      let left = cache_result setting world full_name r head p cid in
      subst (IsConcluded full_name r head left cid ((world.unix_now_ms w).0)) (ok_inj _ fin e) refl

  cache_result_resolved :
      (full_name : Text) (r : AssetHubResult) (head : AssetHubHead) (p : PersistedState)
      (cid : Text)
      → get full_name ((cache_result setting world full_name r head p cid).resolved)
        ≡ some (record { cid = cid; verified_at_block = head.number })
  unfolding cache_result
  cache_result_resolved full_name r head p cid =
      get-insert full_name full_name _ _ ∙ rw (text_cmp_refl full_name) refl

  -- What holds at the end: clean pools, and the resolution that was returned in the cache.
  abbrev pub IsKept : Text → Finished → Type 0
  IsKept full_name fin =
      IsClean (fin.persisted)
      × (get full_name ((fin.persisted).resolved)
          ≡ some (record {
            cid = (fin.result).cid;
            verified_at_block = (fin.result).final_head_number;
          }))

  finish_run-IsKept :
      (full_name : Text) (b : Bool) (answer : AssetHubResult × AssetHubHead × PersistedState)
      (w : W) (fin : Finished)
      → IsClean (answer.2)
      → (finish_run setting world full_name b answer w).0 ≡ ok fin
      → IsKept full_name fin
  unfolding finish_run
  finish_run-IsKept full_name b (r, head, p) w fin h e =
      let (cid, q, k) =
        bind_ok
          (lift
            (map_err contenthash (decode_contenthash_cid (setting.bs58_encode) (r.contenthash))))
          (conclude setting world full_name b r head p) w fin e in
      subst (IsKept full_name) (sym (conclude_state full_name b r head p cid w fin k)) (
        cache_result-IsClean full_name r head p cid h,
        cache_result_resolved full_name r head p cid,
      )

  query-IsClean :
      (key : Bytes) (chosen : AssetHubHead × Bool × PersistedState) (w : W)
      (r : AssetHubResult × AssetHubHead × PersistedState)
      → IsClean (chosen.2)
      → (query setting world key chosen w).0 ≡ ok r
      → IsClean (r.2)
  unfolding query
  query-IsClean key (head, b, p) w r h e =
      let (cached, q, k) =
        bind_ok (lift (map_err state (cached_trie_id setting p)))
          (query_with setting world head b key p) w r e in
      query_with-IsClean setting world head b key p cached w r h k

  -- If a run starts from a stored state with valid pools and returns, then the state at its end has
  -- valid pools without any bootnode, whatever the phases recorded in them, and caches under the full
  -- name the resolution that it returned.
  pub run_inner-IsKept :
      (label : Text) (max_head_age_secs : ℕ) (w : W) (fin : Finished)
      (loaded : PersistedState × Source)
      → load_or_bundled (setting.crates) (world.browser) w ≡ ok loaded
      → IsValid ((loaded.0).relay_peers)
      → IsValid ((loaded.0).assethub_peers)
      → (run_inner setting world label max_head_age_secs w).0 ≡ ok fin
      → IsKept (label ++ text ".dot") fin
  unfolding run_inner choose_head
  run_inner-IsKept label max w fin loaded l r a e =
      let full_name = label ++ text ".dot" in
      let (loaded', q₁, k₁) =
        bind_ok (lift (map_err state (load_or_bundled (setting.crates) (world.browser) w)))
          (run_loaded setting world full_name max) w fin e in
      let same = ok_inj loaded loaded' (sym l ∙ map_err-eq-ok state _ q₁) in
      let clean =
        subst (λ (x : PersistedState × Source). IsClean (purge_bootnodes (x.0))) same
          (purge_bootnodes-IsClean (loaded.0) r a) in
      let (chosen, q₂, k₂) =
        bind_ok (choose_head setting world max (purge_bootnodes (loaded'.0)))
          (run_chosen setting world full_name) w fin k₁ in
      let (answer, q₃, k₃) =
        bind_ok (query setting world (base_slot_key_of setting full_name) chosen)
          (finish_run setting world full_name (chosen.1)) _ fin k₂ in
      let chosen_clean =
        head_by-IsClean setting world _ (purge_bootnodes (loaded'.0)) _ chosen clean q₂ in
      finish_run-IsKept full_name (chosen.1) answer _ fin
        (query-IsClean (base_slot_key_of setting full_name) chosen _ answer chosen_clean q₃) k₃
