-- ===== src/Dotli/Run/Rerun.antt =====
-- What a run of example/dotli/src/lib.rs leaves for the next one: the state that it ends with, and
-- so the head that it used.
use microdot.Base.{
  ℕ, ◌≡◌, refl, sym, ap, ◌∙◌, ◌⊎◌, subst, Bool, true, false, some, Bytes, Result, ok, map_err,
  map_err-eq-ok, Result-cases, ◌++◌, inl, inr, arith,
}
use microdot.Text.{Text, text}
use microdot.State.Soundness.{Storage, IsSound, some_inj}
use microdot.Dotli.Persistence.{
  AssetHubHeadCache, PersistedState, Source, saved_local_storage, version_number, read_storage,
  storage_key, load_or_bundled, save,
}
use microdot.Dotli.Persistence.Laws.{
  HexRoundTrip, Stores, Accepts, save_succeeds, load_or_bundled-save, load_or_bundled-version,
}
use microdot.Dotli.Words.{use_cached, decide, decide-use_cached}
use microdot.Dotli.Session.{AssetHubHead}
use microdot.Dotli.AssetHub.{AssetHubResult}
use microdot.Dotli.Contenthash.{decode_contenthash_cid}
use microdot.Dotli.Pooled.{Setting, World}
use microdot.Dotli.Run.{
  state, contenthash, RunError, Finished, Run, ◌>>=◌, lift, purge_bootnodes, cached_head_to_struct,
  choose_head, head_by, query, cache_result, cache_note, conclude, finish_run, base_slot_key_of,
  run_chosen, run_loaded, run_inner,
}
use microdot.Dotli.Run.Cache.{conclude_state}
use microdot.Dotli.Run.Provenance.{IsFresh, IsCached, IsValueAt, choose_head_sound}
use microdot.Dotli.Run.Resolution.{query_sound, purged-IsChosen}
use microdot.Dotli.Run.Held.{
  HasArrays, IsHeld, head_by-IsHeld, query-IsHeld, cache_result-IsHeld, conclude-KeepsHead,
}

-- The steps of a computation that returns, with the worlds between them.
bind_ok_world :
    {W X Y : Type 0} (m : Run W X) (f : X → Run W Y) (w w' : W) (y : Y)
    → (m >>= f) w ≡ (ok y, w')
    → (x : X) × ((m w).0 ≡ ok x) × (f x ((m w).1) ≡ (ok y, w'))
bind_ok_world m f w w' y = elim (Result-cases ((m w).0)) [
  | inl (x, q) ↦ rw (q, ◌>>=◌) (λ e. (x, refl, e))
  | inr (x, q) ↦ rw (q, ◌>>=◌) (λ e. cc)
]

module _ {D A : Type 0} (setting : Setting D A) {W : Type 0} (world : World W) where
  -- The clock leaves the storage alone.
  abbrev pub LeavesStorage : Type 0
  LeavesStorage =
      (key : Text) (w : W)
      → world.browser.get_item key ((world.unix_now_ms w).1) ≡ world.browser.get_item key w

  read_storage-unix_now_ms :
      (w : W)
      → LeavesStorage
      → read_storage (setting.crates) (world.browser) storage_key ((world.unix_now_ms w).1)
        ≡ read_storage (setting.crates) (world.browser) storage_key w
  unfolding read_storage
  read_storage-unix_now_ms w leaves = ground (arith, leaves storage_key w)

  load_or_bundled-unix_now_ms :
      (w : W)
      → LeavesStorage
      → load_or_bundled (setting.crates) (world.browser) ((world.unix_now_ms w).1)
        ≡ load_or_bundled (setting.crates) (world.browser) w
  unfolding load_or_bundled
  load_or_bundled-unix_now_ms w leaves = rw (read_storage-unix_now_ms w leaves) refl

  load_or_bundled-cache_note :
      (b : Bool) (p : PersistedState) (w : W)
      → LeavesStorage
      → load_or_bundled (setting.crates) (world.browser) ((cache_note setting world b p w).1)
        ≡ load_or_bundled (setting.crates) (world.browser) w
  load_or_bundled-cache_note false p w leaves = refl
  load_or_bundled-cache_note true p w leaves = load_or_bundled-unix_now_ms w leaves

  conclude_stores :
      (full_name : Text) (b : Bool) (r : AssetHubResult) (head : AssetHubHead) (p : PersistedState)
      (cid : Text) (w w' : W)
      → (save
          (setting.crates)
          (world.browser)
          ((world.unix_now_ms w).0)
          (cache_result setting world full_name r head p cid)
          ((world.unix_now_ms w).1)).1
        ≡ ok w'
      → LeavesStorage
      → load_or_bundled (setting.crates) (world.browser) w'
        ≡ load_or_bundled
            (setting.crates)
            (world.browser)
            ((conclude setting world full_name b r head p cid w).1)
  unfolding conclude
  conclude_stores full_name b r head p cid w w' q leaves =
      rw (q, conclude) (sym (load_or_bundled-cache_note b _ w' leaves))

  -- The state at the end is what a load then gives.
  conclude-load_or_bundled :
      (full_name : Text) (b : Bool) (r : AssetHubResult) (head : AssetHubHead) (p : PersistedState)
      (cid : Text) (w w' : W) (fin : Finished)
      → Stores (world.browser)
      → Accepts (setting.crates) (world.browser)
      → LeavesStorage
      → IsHeld setting p head
      → ((t : Text)
          → setting.crates.to_json (fin.persisted) ≡ some t
          → setting.crates.from_json t ≡ some (fin.persisted))
      → conclude setting world full_name b r head p cid w ≡ (ok fin, w')
      → load_or_bundled (setting.crates) (world.browser) w'
        ≡ ok (fin.persisted, saved_local_storage)
  unfolding save
  conclude-load_or_bundled full_name b r head p cid w w' fin stores accepts leaves (v, c) json e =
      let now = world.unix_now_ms w in
      let left = cache_result setting world full_name r head p cid in
      let same =
        conclude_state setting world full_name b r head p cid w fin
          (ap (λ (x : Result RunError Finished × W). x.0) e) in
      let version : left.version ≡ version_number =
        (cache_result-IsHeld setting world full_name r head p cid (v, c)).0 in
      let (w'', q) = save_succeeds (setting.crates) (world.browser) (now.0) left (now.1) accepts in
      let stamped : PersistedState = record left { saved_at_unix_ms = now.0 } in
      let kept : fin.persisted ≡ stamped = ap (λ (f : Finished). f.persisted) same in
      let json_of_stamped =
        subst
          (λ (s : PersistedState).
            (t : Text) → setting.crates.to_json s ≡ some t → setting.crates.from_json t ≡ some s)
          kept json in
      ap
        (λ (x : Result RunError Finished × W).
          load_or_bundled (setting.crates) (world.browser) (x.1))
        (sym e)
      ∙ sym (conclude_stores full_name b r head p cid w w'' q leaves)
      ∙ load_or_bundled-save (setting.crates) (world.browser) (now.0) left (now.1) w'' stores
          json_of_stamped version q
      ∙ ap (λ (s : PersistedState). ok (s, saved_local_storage)) (sym kept)

module _ {D A : Type 0} (setting : Setting D A) (Commits : Bytes → Storage → Type 0)
    (sound : IsSound (setting.lib) Commits) (storage_of : Bytes → Storage)
    (committed : (root : Bytes) → Commits root (storage_of root))
    (hex : HexRoundTrip (setting.crates)) (arrays : HasArrays (setting.warp)) {W : Type 0}
    (world : World W) where
  -- Where a head and the contenthash in its storage come from, for a run from this world: the head
  -- was stored or is fresh, and the contenthash is what its storage holds for the name.
  abbrev pub IsProvided : Text → W → AssetHubHead → Bytes → Type 0
  IsProvided label w head found =
      (loaded : PersistedState × Source) × (load_or_bundled (setting.crates) (world.browser) w
        ≡ ok loaded)
      × (IsCached setting Commits sound storage_of committed (loaded.0) head
          ⊎ IsFresh setting Commits sound storage_of committed (loaded.0) head)
      × IsValueAt setting Commits sound storage_of committed (loaded.0)
          (base_slot_key_of setting (label ++ text ".dot")) head found

  -- A run that returns comes to its end with a state that holds the head.
  run_inner_ends :
      (label : Text) (max : ℕ) (w w' : W) (fin : Finished)
      → run_inner setting world label max w ≡ (ok fin, w')
      → (b : Bool) × (r : AssetHubResult) × (head : AssetHubHead) × (p : PersistedState)
        × (cid : Text) × (u : W) × IsProvided label w head (r.contenthash)
        × IsHeld setting p head
        × (conclude setting world (label ++ text ".dot") b r head p cid u ≡ (ok fin, w'))
  unfolding run_inner choose_head finish_run purge_bootnodes
  run_inner_ends label max w w' fin e =
      let full_name = label ++ text ".dot" in
      let ((loaded, source), q₁, k₁) =
        bind_ok_world (lift (map_err state (load_or_bundled (setting.crates) (world.browser) w)))
          (run_loaded setting world full_name max) w w' fin e in
      let version =
        load_or_bundled-version (setting.crates) (world.browser) w loaded source
          (map_err-eq-ok state _ q₁) in
      let p = purge_bootnodes loaded in
      let (chosen, q₂, k₂) =
        bind_ok_world (choose_head setting world max p) (run_chosen setting world full_name) w w'
          fin k₁ in
      let held =
        head_by-IsHeld setting Commits sound storage_of committed hex arrays world _ p _ chosen
          version (λ c age q. (decide-use_cached (p.assethub_head) max _ age c q).0) q₂ in
      let ((r, head, left), q₃, k₃) =
        bind_ok_world (query setting world (base_slot_key_of setting full_name) chosen)
          (finish_run setting world full_name (chosen.1)) _ w' fin k₂ in
      let (cid, q₄, k₄) =
        bind_ok_world
          (lift
            (map_err contenthash (decode_contenthash_cid (setting.bs58_encode) (r.contenthash))))
          (conclude setting world full_name (chosen.1) r head left) _ w' fin k₃ in
      let (from, value) =
        query_sound setting Commits sound storage_of committed world loaded
          (base_slot_key_of setting full_name) chosen _ (r, head, left)
          (purged-IsChosen setting Commits sound storage_of committed world loaded chosen
            (choose_head_sound setting Commits sound storage_of committed world max p w chosen q₂))
          q₃ in
      (
        chosen.1,
        r,
        head,
        left,
        cid,
        _,
        ((loaded, source), map_err-eq-ok state _ q₁, from, value),
        query-IsHeld setting Commits sound storage_of committed hex arrays world
            (base_slot_key_of setting full_name) chosen _ (r, head, left) held q₃,
        k₄,
      )

  -- What a load gives after a run that returned.
  pub run_inner-load_or_bundled :
      (label : Text) (max : ℕ) (w w' : W) (fin : Finished)
      → Stores (world.browser)
      → Accepts (setting.crates) (world.browser)
      → LeavesStorage setting world
      → ((t : Text)
          → setting.crates.to_json (fin.persisted) ≡ some t
          → setting.crates.from_json t ≡ some (fin.persisted))
      → run_inner setting world label max w ≡ (ok fin, w')
      → load_or_bundled (setting.crates) (world.browser) w'
        ≡ ok (fin.persisted, saved_local_storage)
  run_inner-load_or_bundled label max w w' fin stores accepts leaves json e =
      let (b, r, head, p, cid, u, from, held, k) = run_inner_ends label max w w' fin e in
      conclude-load_or_bundled setting world (label ++ text ".dot") b r head p cid u w' fin stores
        accepts leaves held json k

  held_choice :
      (p : PersistedState) (head : AssetHubHead) (max age : ℕ) (w : W) (c : AssetHubHeadCache)
      → IsHeld setting p head
      → decide (p.assethub_head) max ((world.unix_now_ms w).0) ≡ use_cached c age
      → choose_head setting world max (purge_bootnodes p) w
        ≡ (ok (head, true, purge_bootnodes p), (world.unix_now_ms w).1)
  unfolding choose_head purge_bootnodes head_by
  held_choice p head max age w c (v, (d, h, s)) e =
      let same : d ≡ c =
        some_inj d c
          (sym h ∙ (decide-use_cached (p.assethub_head) max ((world.unix_now_ms w).0) age c e).0) in
      let read : cached_head_to_struct setting c ≡ ok head =
        subst (λ (x : AssetHubHeadCache). cached_head_to_struct setting x ≡ ok head) same s in
      rw (e, read) refl

  -- The run after a run. If the trie library is sound, the hashes of a header have 32 bytes, the
  -- hex decoder undoes its encoder, the browser keeps what is set and takes the save, the JSON
  -- of the final state is read back, and reading the clock does not change the storage, then
  -- after a run that returned, a load gives the state that the run ended with; and a next run
  -- that finds the cached head young enough starts, without asking the relay chain and only reading
  -- the clock, from the very head of the first result, with its hash and its state root: the one
  -- whose storage holds the contenthash that the first run returned.
  pub run_inner_rerun :
      (label : Text) (max next_max age : ℕ) (w w' : W) (fin : Finished) (c : AssetHubHeadCache)
      → Stores (world.browser)
      → Accepts (setting.crates) (world.browser)
      → LeavesStorage setting world
      → ((t : Text)
          → setting.crates.to_json (fin.persisted) ≡ some t
          → setting.crates.from_json t ≡ some (fin.persisted))
      → run_inner setting world label max w ≡ (ok fin, w')
      → decide ((fin.persisted).assethub_head) next_max ((world.unix_now_ms w').0)
        ≡ use_cached c age
      → (head : AssetHubHead) × ((fin.result).final_head_number ≡ head.number)
        × IsProvided label w head ((fin.result).contenthash_bytes)
        × (load_or_bundled (setting.crates) (world.browser) w'
            ≡ ok (fin.persisted, saved_local_storage))
        × (choose_head setting world next_max (purge_bootnodes (fin.persisted)) w'
            ≡ (ok (head, true, purge_bootnodes (fin.persisted)), (world.unix_now_ms w').1))
  run_inner_rerun label max next_max age w w' fin c stores accepts leaves json e d =
      let full_name = label ++ text ".dot" in
      let (b, r, head, p, cid, u, from, held, k) = run_inner_ends label max w w' fin e in
      let (kept, number, same) =
        conclude-KeepsHead setting Commits sound storage_of committed hex arrays world full_name b r
          head p cid u fin held (ap (λ (x : Result RunError Finished × W). x.0) k) in
      (
        head,
        number,
        subst (IsProvided label w head) same from,
        run_inner-load_or_bundled label max w w' fin stores accepts leaves json e,
        held_choice (fin.persisted) head next_max age w' c kept d,
      )
