-- ===== src/Runs/Reruns.antt =====
-- The run after the run of example/dotli/src/lib.rs in Resolutions.
use microdot.Base.{◌≡◌, refl, sym, subst, Bool, true, some, [], ◌∷◌, ◌++◌, length, ok}
use microdot.Text.{Text, text}
use microdot.Dotli.Persistence.{
  saved_local_storage, load_or_bundled, AssetHubHeadCache, BlockHeader,
}
use microdot.State.Soundness.{some_inj}
use microdot.Dotli.Words.{decide, use_cached}
use microdot.Dotli.Session.{AssetHubHead}
use microdot.Dotli.Persistence.{PersistedState}
use microdot.BTreeMap.{get, text_order}
use microdot.PeerPool.{new}
use microdot.Dotli.Run.{choose_head, purge_bootnodes, background_discovery}
use microdot.Dotli.Run.Background.{IsMergedInto, IsBounded, JsonKeeps}
use microdot.Dotli.Run.Sequel.{run_inner-background_discovery}
use microdot.Dotli.Run.Note.{IsUse, IsNoted, run_inner-IsNoted}
use microdot.Dotli.Run.Held.{HasArrays}
use microdot.Dotli.Run.Rerun.{IsProvided, run_inner_rerun}
use microdot.Runs.Toys.{zeros, slot, held, Commits, library-IsSound}
use microdot.Runs.Phases.{warp}
use microdot.Runs.Resolutions.{
  stored, setting, world, kept, reads, finished, loaded, ran, ran_world, silent, new-IsValid,
  discovered_kept,
}

arrays : HasArrays warp
arrays bytes header e =
    subst (λ (h : BlockHeader). (length (h.hash) ≡ 32) × (length (h.state_root) ≡ 32))
      (some_inj (record { number = 7; hash = slot; state_root = zeros }) header e) (refl, refl)

-- the head that `kept` caches
abbrev cached : AssetHubHeadCache
cached = record {
  number = 7;
  hash = text "0x" ++ slot;
  state_root = text "0x" ++ zeros;
  saved_at_unix_ms = 0;
}

read_back : (t : Text) → some (1 ∷ []) ≡ some t → reads t ≡ some kept
read_back t e = subst (λ (s : Text). reads s ≡ some kept) (some_inj (1 ∷ []) t e) refl

young : decide (kept.assethub_head) 30 5 ≡ use_cached cached 0
unfolding decide
young = refl

run_inner_rerun_example :
    (head : AssetHubHead) × (7 ≡ head.number)
    × IsProvided setting Commits library-IsSound held
        (λ root key. refl)
        (λ bytes. refl)
        arrays
        world
        (text "a")
        (some [])
        head
        ((finished.result).contenthash_bytes)
    × (load_or_bundled (setting.crates) (world.browser) (some (1 ∷ []))
        ≡ ok (kept, saved_local_storage))
    × (choose_head setting world 30 (purge_bootnodes kept) (some (1 ∷ []))
        ≡ (ok (head, true, purge_bootnodes kept), some (1 ∷ [])))
run_inner_rerun_example =
    run_inner_rerun setting Commits library-IsSound held (λ root key. refl) (λ bytes. refl) arrays
      world (text "a") 30 30 0 (some []) (some (1 ∷ [])) finished cached (λ key value w w' e. sym e)
      (refl, (λ key value w. (some value, refl)), (λ s. (1 ∷ [], refl))) (λ key w. refl)
      (λ t e. read_back t e) ran_world young

run_inner-IsNoted_example :
    (b : Bool) × IsUse (decide (stored.assethub_head) 30 5) b × IsNoted b finished
run_inner-IsNoted_example =
    run_inner-IsNoted setting world (text "a") 30 (some []) finished (stored, saved_local_storage)
      loaded ran

run_inner-background_discovery_example :
    (after : PersistedState) × (load_or_bundled
        (setting.crates)
        (world.browser)
        (background_discovery setting world (λ i. silent) (λ i. silent) 4 4 new new (some (1 ∷ [])))
      ≡ ok (after, saved_local_storage))
    × IsMergedInto kept after
    × (get (text "a.dot") (after.resolved)
        ≡ some (record { cid = text "bafyq"; verified_at_block = 7 }))
    × IsBounded (after.relay_peers)
    × IsBounded (after.assethub_peers)
run_inner-background_discovery_example =
    run_inner-background_discovery setting Commits library-IsSound held (λ root key. refl)
      (λ bytes. refl) arrays world (text "a") 30 (some []) (some (1 ∷ [])) finished
      (stored, saved_local_storage) (λ i. silent) (λ i. silent) 4 4 loaded new-IsValid new-IsValid
      (λ key value w w' e. sym e) (refl, (λ key value w. (some value, refl)), (λ s. (1 ∷ [], refl)))
      (λ key w. refl) (λ t e. read_back t e)
      (subst (JsonKeeps setting) (sym discovered_kept) (λ t e. read_back t e)) ran_world
