-- ===== src/Dotli/Run/Resolution.antt =====
-- What `run_inner` of example/dotli/src/lib.rs returns, whatever the peers answered.
use microdot.Base.{
  ℕ, ◌≡◌, ◌≢◌, true, false, refl, sym, ap, ◌∙◌, ◌⊎◌, inl, inr, subst, Bool, Option, none, Bytes, ok,
  map_err, map_err-eq-ok, Bool-cases, Result-cases, ◌++◌,
}
use microdot.Text.{Text, text}
use microdot.State.Soundness.{Storage, IsSound}
use microdot.Dotli.Persistence.{PersistedState, Source, load_or_bundled}
use microdot.Dotli.Session.{AssetHubHead}
use microdot.Dotli.Session.Reads.{ok_inj}
use microdot.Dotli.AssetHub.{AssetHubResult}
use microdot.Dotli.Contenthash.{decode_contenthash_cid}
use microdot.Dotli.Polkadot.{dotns_content_resolver}
use microdot.Dotli.Pooled.{Setting, World, assethub_phase_with_pool}
use microdot.Dotli.Run.{
  state, phase, contenthash, RunResult, Finished, lift, purge_bootnodes, cached_trie_id,
  refresh_head, choose_head, attempt_value, retry, query_with, query, conclude, finish_run,
  base_slot_key_of, run_chosen, run_loaded, run_inner,
}
use microdot.Dotli.Run.Provenance.{
  bind_ok, IsFresh, IsCached, IsValueAt, IsChosen, refresh_head_sound, choose_head_sound,
  attempt_sound,
}

true_ne_false : true ≢ false
true_ne_false e = cc

unchanged : {X : Type 0} (b : Bool) (x y : X) → b ≡ true → (b ≡ false) ⊎ (x ≡ y) → x ≡ y
unchanged b x y c (inl f) = absurd (true_ne_false (sym c ∙ f))
unchanged b x y c (inr q) = q

module _ {D A : Type 0} (setting : Setting D A) (Commits : Bytes → Storage → Type 0)
    (sound : IsSound (setting.lib) Commits) (storage_of : Bytes → Storage)
    (committed : (root : Bytes) → Commits root (storage_of root)) where
  module _ {W : Type 0} (world : World W) where
    -- Where the head of an answer comes from, and what the answer is.
    abbrev pub IsAnswered :
        PersistedState
        → AssetHubHead
        → Bytes
        → AssetHubResult × AssetHubHead × PersistedState
        → Type 0
    IsAnswered origin head key (r, final_head, p) =
        ((head ≡ final_head) ⊎ IsFresh setting Commits sound storage_of committed origin final_head)
        × IsValueAt setting Commits sound storage_of committed origin key final_head (r.contenthash)

    query_with_sound :
        (origin : PersistedState) (head : AssetHubHead) (head_was_cached : Bool) (key : Bytes)
        (persisted : PersistedState) (cached : Option Bytes) (w : W)
        (r : AssetHubResult × AssetHubHead × PersistedState)
        → cached_trie_id setting origin ≡ ok cached
        → (head_was_cached ≡ false) ⊎ (persisted.relay ≡ origin.relay)
        → (query_with setting world head head_was_cached key persisted cached w).0 ≡ ok r
        → IsAnswered origin head key r
    unfolding query_with assethub_phase_with_pool
    query_with_sound origin head b key persisted cached w r o u =
        elim (Result-cases ((attempt_value setting world key head cached persisted w).0)) [
          | inl (answer, q) ↦
              rw (q, query_with)
                (λ e.
                  let (same, h) =
                    attempt_sound setting Commits sound storage_of committed world origin key head
                      cached persisted w r (inr o) (q ∙ ap ok (ok_inj answer r e)) in
                  (inl same, h))
          | inr (x, q) ↦ elim (Bool-cases b) [
            | inr c ↦ rw (q, query_with, c) (λ e. cc)
            | inl c ↦
                rw (q, query_with, c)
                  (λ e.
                    let left =
                      (assethub_phase_with_pool setting world persisted head dotns_content_resolver
                        key cached w).1 in
                    let (fresh, k, m) =
                      bind_ok (refresh_head setting world left) (retry setting world key)
                        ((attempt_value setting world key head cached persisted w).1) r e in
                    let (same, h) =
                      attempt_sound setting Commits sound storage_of committed world origin key
                        (fresh.0) none (fresh.1) _ r (inl refl) (map_err-eq-ok phase _ m) in
                    (
                      inr (
                          subst (IsFresh setting Commits sound storage_of committed origin) same (
                            refresh_head_sound setting Commits sound storage_of committed world
                              origin left _ fresh (unchanged b (persisted.relay) (origin.relay) c u)
                              k)),
                      h,
                    ))
          ]
        ]

    pub query_sound :
        (origin : PersistedState) (key : Bytes) (chosen : AssetHubHead × Bool × PersistedState)
        (w : W) (r : AssetHubResult × AssetHubHead × PersistedState)
        → IsChosen setting Commits sound storage_of committed origin chosen
        → (query setting world key chosen w).0 ≡ ok r
        → (IsCached setting Commits sound storage_of committed origin (r.1)
            ⊎ IsFresh setting Commits sound storage_of committed origin (r.1))
          × IsValueAt setting Commits sound storage_of committed origin key
              (r.1)
              ((r.0).contenthash)
    unfolding query
    query_sound origin key (head, b, persisted) w r (same, from) e =
        let (cached, q, k) =
          bind_ok (lift (map_err state (cached_trie_id setting persisted)))
            (query_with setting world head b key persisted) w r e in
        let (is, value) =
          query_with_sound origin head b key persisted cached w r
            (sym same ∙ map_err-eq-ok state _ q)
            (elim from [ inl (c, s) ↦ inr s | inr (f, h) ↦ inl f ]) k in
        (
          (elim is [
            | inr fresh ↦ inr fresh
            | inl here ↦
                subst
                  (λ h.
                    IsCached setting Commits sound storage_of committed origin h
                    ⊎ IsFresh setting Commits sound storage_of committed origin h)
                  here (elim from [ inl (c, s) ↦ inl c | inr (f, h) ↦ inr h ])
          ]),
          value,
        )

    -- A purge of the pools leaves the head and the trie id.
    pub purged-IsChosen :
        (persisted : PersistedState) (chosen : AssetHubHead × Bool × PersistedState)
        → IsChosen setting Commits sound storage_of committed (purge_bootnodes persisted) chosen
        → IsChosen setting Commits sound storage_of committed persisted chosen
    unfolding purge_bootnodes cached_trie_id
    purged-IsChosen persisted chosen h = h

    -- What the result of a run is: the decoded contenthash, of the head whose number it has.
    abbrev pub IsResultOf : Text → AssetHubHead → Bytes → RunResult → Type 0
    IsResultOf full_name head found result =
        (result.full_name ≡ full_name)
        × (result.contenthash_bytes ≡ found)
        × (result.final_head_number ≡ head.number)
        × (decode_contenthash_cid (setting.bs58_encode) found ≡ ok (result.cid))

    conclude_result :
        (full_name : Text) (b : Bool) (r : AssetHubResult) (head : AssetHubHead)
        (persisted : PersistedState) (cid : Text) (w : W) (fin : Finished)
        → (conclude setting world full_name b r head persisted cid w).0 ≡ ok fin
        → fin.result ≡ record {
          full_name = full_name;
          cid = cid;
          contenthash_bytes = r.contenthash;
          final_head_number = head.number;
          cache_note = (fin.result).cache_note;
        }
    unfolding conclude
    conclude_result full_name b r head persisted cid w fin e =
        subst
          (λ (x : Finished). x.result ≡ record {
            full_name = full_name;
            cid = cid;
            contenthash_bytes = r.contenthash;
            final_head_number = head.number;
            cache_note = (x.result).cache_note;
          })
          (ok_inj _ fin e) refl

    finish_run_sound :
        (full_name : Text) (b : Bool) (r : AssetHubResult) (head : AssetHubHead)
        (persisted : PersistedState) (w : W) (fin : Finished)
        → (finish_run setting world full_name b (r, head, persisted) w).0 ≡ ok fin
        → IsResultOf full_name head (r.contenthash) (fin.result)
    unfolding finish_run
    finish_run_sound full_name b r head persisted w fin e =
        let (cid, q, k) =
          bind_ok
            (lift
              (map_err contenthash (decode_contenthash_cid (setting.bs58_encode) (r.contenthash))))
            (conclude setting world full_name b r head persisted) w fin e in
        let same = conclude_result full_name b r head persisted cid w fin k in
        (
          ap (λ (x : RunResult). x.full_name) same,
          ap (λ (x : RunResult). x.contenthash_bytes) same,
          ap (λ (x : RunResult). x.final_head_number) same,
          map_err-eq-ok contenthash _ q ∙ ap ok (sym (ap (λ (x : RunResult). x.cid) same)),
        )

    -- If a run returns, then, with a sound trie library, what it returns is the decoded contenthash
    -- that the storage of some AssetHub head holds for the name, with the number of that head. The
    -- head is the one that the stored state had cached, or one that the relay chain's storage holds
    -- at a block that accepted warp-sync responses led to from the stored light-client state. And
    -- the contenthash stands in the child storage of the trie id that the stored state had cached
    -- for the resolver contract, or of the one that the contract's account in the head's storage
    -- names.
    pub run_inner_sound :
        (label : Text) (max_head_age_secs : ℕ) (w : W) (fin : Finished)
        → (run_inner setting world label max_head_age_secs w).0 ≡ ok fin
        → (loaded : PersistedState × Source) × (head : AssetHubHead) × (found : Bytes)
          × (load_or_bundled (setting.crates) (world.browser) w ≡ ok loaded)
          × (IsCached setting Commits sound storage_of committed (loaded.0) head
              ⊎ IsFresh setting Commits sound storage_of committed (loaded.0) head)
          × IsValueAt setting Commits sound storage_of committed
              (loaded.0)
              (base_slot_key_of setting (label ++ text ".dot"))
              head
              found
          × IsResultOf (label ++ text ".dot") head found (fin.result)
    unfolding run_inner
    run_inner_sound label max w fin e =
        let full_name = label ++ text ".dot" in
        let (loaded, q₁, k₁) =
          bind_ok (lift (map_err state (load_or_bundled (setting.crates) (world.browser) w)))
            (run_loaded setting world full_name max) w fin e in
        let (chosen, q₂, k₂) =
          bind_ok (choose_head setting world max (purge_bootnodes (loaded.0)))
            (run_chosen setting world full_name) w fin k₁ in
        let (answer, q₃, k₃) =
          bind_ok (query setting world (base_slot_key_of setting full_name) chosen)
            (finish_run setting world full_name (chosen.1)) _ fin k₂ in
        let (from, value) =
          query_sound (loaded.0) (base_slot_key_of setting full_name) chosen _ answer
            (purged-IsChosen (loaded.0) chosen (
              choose_head_sound setting Commits sound storage_of committed world max
                (purge_bootnodes (loaded.0)) w chosen q₂))
            q₃ in
        (
          loaded,
          answer.1,
          (answer.0).contenthash,
          map_err-eq-ok state _ q₁,
          from,
          value,
          finish_run_sound full_name (chosen.1) (answer.0) (answer.1) (answer.2) _ fin k₃,
        )
