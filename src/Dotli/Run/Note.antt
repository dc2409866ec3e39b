-- ===== src/Dotli/Run/Note.antt =====
-- The note on a cached head that a run of example/dotli/src/lib.rs returns.
use microdot.Base.{
  ℕ, ◌≡◌, ◌≢◌, refl, sym, ap, ◌∙◌, subst, ◌⊎◌, inl, inr, Bool, true, false, [], ok, map_err,
  map_err-eq-ok, bind-eq-ok, ◌++◌,
}
use microdot.Text.{Text, text}
use microdot.Dotli.Persistence.{AssetHubHeadCache, PersistedState, Source, load_or_bundled}
use microdot.Dotli.Words.{
  HeadDecision, use_cached, no_cached_head, fresh_asked, older_than_allowed, decide,
}
use microdot.Dotli.Session.{AssetHubHead}
use microdot.Dotli.Session.Reads.{ok_inj}
use microdot.Dotli.AssetHub.{AssetHubResult}
use microdot.Dotli.Contenthash.{decode_contenthash_cid}
use microdot.Dotli.Pooled.{Setting, World}
use microdot.Dotli.Run.{
  state, contenthash, Finished, lift, purge_bootnodes, cached_note, cached_head_to_struct,
  refresh_head, refreshed_head, choose_head, head_by, query, conclude, finish_run, base_slot_key_of,
  run_chosen, run_loaded, run_inner,
}
use microdot.Dotli.Run.Provenance.{bind_ok}

-- The decision is to use a cached head, or it is another one.
abbrev pub IsUse : HeadDecision → Bool → Type 0
IsUse decision b =
    ((c : AssetHubHeadCache) × (age : ℕ) × (decision ≡ use_cached c age) × (b ≡ true))
    ⊎ (((c : AssetHubHeadCache) (age : ℕ) → decision ≢ use_cached c age) × (b ≡ false))

-- The note speaks of the head that the state at the end caches, or there is none.
abbrev pub IsNoted : Bool → Finished → Type 0
IsNoted true fin =
    (now : ℕ) × ((fin.result).cache_note ≡ cached_note now ((fin.persisted).assethub_head))
IsNoted false fin = (fin.result).cache_note ≡ []

module _ {D A : Type 0} (setting : Setting D A) {W : Type 0} (world : World W) where
  refreshed_head_flag :
      (p : PersistedState) (w : W) (r : AssetHubHead × Bool × PersistedState)
      → (refreshed_head setting world p w).0 ≡ ok r
      → r.1 ≡ false
  refreshed_head_flag p w r e =
      let (fresh, q, k) =
        bind_ok (refresh_head setting world p) (λ (head, kept) w'. (ok (head, false, kept), w')) w r
          e in
      sym (
        ap (λ (x : AssetHubHead × Bool × PersistedState). x.1)
          (ok_inj (fresh.0, false, fresh.1) r k))

  head_by-IsUse :
      (decision : HeadDecision) (p : PersistedState) (w : W)
      (r : AssetHubHead × Bool × PersistedState)
      → (head_by setting world decision p w).0 ≡ ok r
      → IsUse decision (r.1)
  unfolding head_by
  head_by-IsUse (use_cached c age) p w r e =
      let (head, q, k) = bind-eq-ok (map_err state (cached_head_to_struct setting c)) _ e in
      inl (
        c,
        age,
        refl,
        sym (ap (λ (x : AssetHubHead × Bool × PersistedState). x.1) (ok_inj (head, true, p) r k)),
      )
  head_by-IsUse no_cached_head p w r e = inr ((λ c age q. cc), refreshed_head_flag p w r e)
  head_by-IsUse fresh_asked p w r e = inr ((λ c age q. cc), refreshed_head_flag p w r e)
  head_by-IsUse older_than_allowed p w r e = inr ((λ c age q. cc), refreshed_head_flag p w r e)

  conclude-IsNoted :
      (full_name : Text) (b : Bool) (r : AssetHubResult) (head : AssetHubHead) (p : PersistedState)
      (cid : Text) (w : W) (fin : Finished)
      → (conclude setting world full_name b r head p cid w).0 ≡ ok fin
      → IsNoted b fin
  unfolding conclude
  conclude-IsNoted full_name true r head p cid w fin e =
      subst (IsNoted true) (ok_inj _ fin e) (_, refl)
  conclude-IsNoted full_name false r head p cid w fin e =
      subst (IsNoted false) (ok_inj _ fin e) refl

  -- The note of a run that returns from a stored state is settled by the first decision on the
  -- head alone: if that is to use the cached head, the note calls the head of the result a
  -- cached one, also when the first attempt failed and the result is of a fresh head; otherwise
  -- there is no note.
  pub run_inner-IsNoted :
      (label : Text) (max : ℕ) (w : W) (fin : Finished) (loaded : PersistedState × Source)
      → load_or_bundled (setting.crates) (world.browser) w ≡ ok loaded
      → (run_inner setting world label max w).0 ≡ ok fin
      → (b : Bool) × IsUse (decide ((loaded.0).assethub_head) max ((world.unix_now_ms w).0)) b
        × IsNoted b fin
  unfolding run_inner choose_head finish_run purge_bootnodes
  run_inner-IsNoted label max w fin loaded l e =
      let full_name = label ++ text ".dot" in
      let (loaded', q₁, k₁) =
        bind_ok (lift (map_err state (load_or_bundled (setting.crates) (world.browser) w)))
          (run_loaded setting world full_name max) w fin e in
      let same = ok_inj loaded' loaded (sym (map_err-eq-ok state _ q₁) ∙ l) in
      let (chosen, q₂, k₂) =
        bind_ok (choose_head setting world max (purge_bootnodes (loaded'.0)))
          (run_chosen setting world full_name) w fin k₁ in
      let ((r, head, left), q₃, k₃) =
        bind_ok (query setting world (base_slot_key_of setting full_name) chosen)
          (finish_run setting world full_name (chosen.1)) _ fin k₂ in
      let (cid, q₄, k₄) =
        bind_ok
          (lift
            (map_err contenthash (decode_contenthash_cid (setting.bs58_encode) (r.contenthash))))
          (conclude setting world full_name (chosen.1) r head left) _ fin k₃ in
      (
        chosen.1,
        subst
            (λ (x : PersistedState × Source).
              IsUse (decide ((x.0).assethub_head) max ((world.unix_now_ms w).0)) (chosen.1))
            same (head_by-IsUse _ (purge_bootnodes (loaded'.0)) _ chosen q₂),
        conclude-IsNoted full_name (chosen.1) r head left cid _ fin k₄,
      )
