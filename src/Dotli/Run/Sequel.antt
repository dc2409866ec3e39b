-- ===== src/Dotli/Run/Sequel.antt =====
-- The discovery that a run of example/dotli/src/lib.rs starts at its end, on the state of that end.
use microdot.Base.{ℕ, ◌≡◌, refl, ap, some, Bytes, Result, ok, ◌++◌}
use microdot.Text.{Text, text}
use microdot.BTreeMap.{text_order, get}
use microdot.PeerPool.Reputation.{IsValid}
use microdot.Discovery.{Link}
use microdot.State.Soundness.{Storage, IsSound}
use microdot.Dotli.Persistence.{PersistedState, Source, saved_local_storage, load_or_bundled}
use microdot.Dotli.Persistence.Laws.{HexRoundTrip, Stores, Accepts}
use microdot.Dotli.Pooled.{Setting, World}
use microdot.Dotli.Run.{RunError, Finished, run_inner, background_discovery}
use microdot.Dotli.Run.Background.{
  IsMergedInto, IsBounded, JsonKeeps, discovered, relay_discovered-IsBounded,
  assethub_discovered-IsBounded, background_discovery-load_or_bundled,
}
use microdot.Dotli.Run.Cache.{run_inner-IsKept}
use microdot.Dotli.Run.Held.{HasArrays}
use microdot.Dotli.Run.Rerun.{LeavesStorage, run_inner-load_or_bundled}

module _ {D A : Type 0} (setting : Setting D A) (Commits : Bytes → Storage → Type 0)
    (sound : IsSound (setting.lib) Commits) (storage_of : Bytes → Storage)
    (committed : (root : Bytes) → Commits root (storage_of root))
    (hex : HexRoundTrip (setting.crates)) (arrays : HasArrays (setting.warp)) {W : Type 0}
    (world : World W) where
  -- A run and then its discovery, with no other run between. If the pools that the run started
  -- from were valid, the trie library is sound, the hashes of a header have 32 bytes, the
  -- decoders undo their encoders on the states that are written, and the browser keeps what is
  -- set, takes the saves and has a clock apart from it, then a load after both gives a state,
  -- from the storage, that is what the run saved but for the pools and the time of the save: so
  -- the resolution that was returned is still stored; and its pools are valid and within the
  -- capacity.
  pub run_inner-background_discovery :
      (label : Text) (max : ℕ) (w w' : W) (fin : Finished) (loaded : PersistedState × Source)
      (ls ms : ℕ → Link) (rn an : ℕ)
      → load_or_bundled (setting.crates) (world.browser) w ≡ ok loaded
      → IsValid ((loaded.0).relay_peers)
      → IsValid ((loaded.0).assethub_peers)
      → Stores (world.browser)
      → Accepts (setting.crates) (world.browser)
      → LeavesStorage setting world
      → JsonKeeps setting (fin.persisted)
      → JsonKeeps setting (
          discovered setting world ls ms rn an
            ((fin.persisted).relay_peers)
            ((fin.persisted).assethub_peers)
            (fin.persisted)
            w')
      → run_inner setting world label max w ≡ (ok fin, w')
      → (after : PersistedState) × (load_or_bundled (setting.crates) (world.browser) (
            background_discovery setting world ls ms rn an
              ((fin.persisted).relay_peers)
              ((fin.persisted).assethub_peers)
              w')
          ≡ ok (after, saved_local_storage))
        × IsMergedInto (fin.persisted) after
        × (get (label ++ text ".dot") (after.resolved)
            ≡ some (record {
              cid = (fin.result).cid;
              verified_at_block = (fin.result).final_head_number;
            }))
        × IsBounded (after.relay_peers)
        × IsBounded (after.assethub_peers)
  run_inner-background_discovery label max w w' fin loaded ls ms rn an load r a stores accepts
        leaves json json' e =
      let saved =
        run_inner-load_or_bundled setting Commits sound storage_of committed hex arrays world label
          max w w' fin stores accepts leaves json e in
      let (((rv, _), (av, _)), resolved) =
        run_inner-IsKept setting world label max w fin loaded load r a
          (ap (λ (x : Result RunError Finished × W). x.0) e) in
      let rp = (fin.persisted).relay_peers in
      let q = (fin.persisted).assethub_peers in
      (
        discovered setting world ls ms rn an rp q (fin.persisted) w',
        background_discovery-load_or_bundled setting world ls ms rn an rp q (fin.persisted)
            saved_local_storage w' stores accepts saved json',
        refl,
        resolved,
        relay_discovered-IsBounded setting ls rn rp rv,
        assethub_discovered-IsBounded setting ms an q av,
      )
