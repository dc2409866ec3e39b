-- ===== src/Dotli/Run/Total.antt =====
-- A run of example/dotli/src/lib.rs as a whole: it returns, and what it returns is right.
use microdot.Base.{
  ℕ, ◌≡◌, ◌≢◌, some, err, Option, refl, sym, ap, subst, ◌∙◌, ◌⊎◌, Bool, Bytes, Result, ok, ◌++◌,
}
use microdot.Text.{Text, text}
use microdot.PoolFallback.Effects.{Gives}
use microdot.State.Soundness.{Storage, IsSound}
use microdot.Dotli.Persistence.{PersistedState, Source, load_or_bundled}
use microdot.Dotli.Session.{AssetHubHead, panicked}
use microdot.Dotli.Polkadot.{dotns_content_resolver}
use microdot.Dotli.Session.Reads.{ok_inj}
use microdot.Dotli.AssetHub.{AssetHubResult, assethub_phase}
use microdot.Dotli.Contenthash.{decode_contenthash_cid}
use microdot.Dotli.AssetHub.Steady.{IsFormed, assethub_phase_steady}
use microdot.Dotli.Pooled.{Setting, World}
use microdot.Dotli.Run.{
  RunError, Finished, conclude, finish_run, base_slot_key_of, purge_bootnodes, run_inner,
}
use microdot.Dotli.Run.Provenance.{
  IsFresh, IsCached, IsValueAt, child_of, child_committed, choose_head_sound,
}
use microdot.Dotli.Run.Resolution.{IsResultOf, query_sound, purged-IsChosen, run_inner_sound}
use microdot.Dotli.Run.Returns.{IsReadable, RelayAnswers, AssetHubAnswers, run_inner_reaches}

module _ {D A : Type 0} (setting : Setting D A) {W : Type 0} (world : World W) where
  finish_run-Gives :
      (full_name : Text) (b : Bool) (answer : AssetHubResult × AssetHubHead × PersistedState)
      (w : W)
      → Gives (decode_contenthash_cid (setting.bs58_encode) ((answer.0).contenthash))
      → Gives ((finish_run setting world full_name b answer w).0)
  unfolding finish_run conclude
  finish_run-Gives full_name b (r, head, p) w (cid, q) = rw (q, finish_run) (_, refl)

module _ {D A : Type 0} (setting : Setting D A) (Commits : Bytes → Storage → Type 0)
    (sound : IsSound (setting.lib) Commits) (storage_of : Bytes → Storage)
    (committed : (root : Bytes) → Commits root (storage_of root)) {W : Type 0}
    (world : World W) where
  -- Every value that the storage of a head holds for the name is a contenthash with a CID.
  abbrev pub IsContenthash : PersistedState → Bytes → Type 0
  IsContenthash origin key =
      (head : AssetHubHead) (found : Bytes)
      → IsValueAt setting Commits sound storage_of committed origin key head found
      → Gives (decode_contenthash_cid (setting.bs58_encode) found)

  -- Every base slot that a storage holds for the name is one that Solidity writes, of a value whose
  -- bytes can be allocated. On any other the source panics, which ends the program.
  abbrev pub HoldsFormed : Bytes → Type 0
  HoldsFormed key =
      (root trie_id base_slot : Bytes)
      → child_of storage_of root trie_id (setting.chain.blake2_256 key) ≡ some base_slot
      → IsFormed (setting.w) base_slot

  -- No attempt at the value panics, with whatever head, trie id and peer.
  abbrev pub NeverPanics : Bytes → Type 0
  NeverPanics key =
      (head : AssetHubHead) (cached : Option Bytes) (url : Text) (u : W)
      → assethub_phase (setting.w) (setting.lib) (setting.chain) ((world.dial url u).0) head
          dotns_content_resolver key cached url
        ≢ err panicked

  -- A run resolves the name. If the stored state can be read, the relay chain's endpoint answers
  -- from that state, AssetHub's endpoint answers for every head that is then offered, both with
  -- the trie id that is cached for the contract and with none, the trie library is sound, no
  -- storage holds a malformed base slot for the name, and every value it holds for the name is a
  -- supported contenthash, then no attempt at the value panics and the run returns, and its
  -- result is the decoded contenthash that the storage holds for the name at the head whose
  -- number it has: the cached head, or one that the relay chain's storage holds at a block that
  -- warp-sync responses led to from the stored state; whatever the pooled peers do, and also when
  -- AssetHub no longer answers for the cached head.
  pub run_inner_resolves :
      (label : Text) (max_head_age_secs : ℕ) (w : W) (loaded : PersistedState × Source)
      → load_or_bundled (setting.crates) (world.browser) w ≡ ok loaded
      → IsReadable setting world (loaded.0)
      → RelayAnswers setting world ((loaded.0).relay)
      → AssetHubAnswers setting world (loaded.0) (base_slot_key_of setting (label ++ text ".dot"))
      → HoldsFormed (base_slot_key_of setting (label ++ text ".dot"))
      → IsContenthash (loaded.0) (base_slot_key_of setting (label ++ text ".dot"))
      → (fin : Finished) × NeverPanics (base_slot_key_of setting (label ++ text ".dot"))
        × ((run_inner setting world label max_head_age_secs w).0 ≡ ok fin)
        × (head : AssetHubHead) × (found : Bytes) × (IsCached setting Commits sound storage_of
              committed
              (loaded.0)
              head
            ⊎ IsFresh setting Commits sound storage_of committed (loaded.0) head)
        × IsValueAt setting Commits sound storage_of committed
            (loaded.0)
            (base_slot_key_of setting (label ++ text ".dot"))
            head
            found
        × IsResultOf setting Commits sound storage_of committed world
            (label ++ text ".dot")
            head
            found
            (fin.result)
  run_inner_resolves label max w loaded l readable relay assethub formed values =
      let full_name = label ++ text ".dot" in
      let key = base_slot_key_of setting full_name in
      let (chosen, answer, u, c, k, e) =
        run_inner_reaches setting world label max w loaded l readable relay assethub in
      let held =
        query_sound setting Commits sound storage_of committed world (loaded.0) key chosen u answer
          (purged-IsChosen setting Commits sound storage_of committed world (loaded.0) chosen (
            choose_head_sound setting Commits sound storage_of committed world max
              (purge_bootnodes (loaded.0)) w chosen c))
          k in
      let (fin, f) =
        finish_run-Gives setting world full_name (chosen.1) answer _
          (values (answer.1) ((answer.0).contenthash) (held.1)) in
      let ran : (run_inner setting world label max w).0 ≡ ok fin =
        ap (λ (x : Result RunError Finished × W). x.0) e ∙ f in
      let (from, head, found, q, source, value, result) =
        run_inner_sound setting Commits sound storage_of committed world label max w fin ran in
      let same : from ≡ loaded = ok_inj from loaded (sym q ∙ l) in
      (
        fin,
        (λ h cached url u.
            assethub_phase_steady (setting.w) (setting.lib) (setting.chain) ((world.dial url u).0)
              Commits sound h (storage_of (h.state_root)) (committed _)
              (child_of storage_of (h.state_root))
              (child_committed setting Commits sound storage_of committed (h.state_root))
              dotns_content_resolver key cached url (formed (h.state_root))),
        ran,
        head,
        found,
        subst
            (λ (x : PersistedState × Source).
              IsCached setting Commits sound storage_of committed (x.0) head
              ⊎ IsFresh setting Commits sound storage_of committed (x.0) head)
            same source,
        subst
            (λ (x : PersistedState × Source).
              IsValueAt setting Commits sound storage_of committed (x.0) key head found)
            same value,
        result,
      )
