-- ===== src/PoolFallback.antt =====
-- src/request.rs: a request tried on the pooled peers, best first, then on the bootnode.
-- The clock and the request closure are parameters: each reads and changes a world `W`.
pub mod Course
pub mod Effects
pub mod Asked
use microdot.Base.{ℕ, List, [], ◌∷◌, Result, ok, err}
use microdot.Text.{Text}
use microdot.PeerPool.{PeerEntry, PeerPool, ranked_available, record_success, record_failure}

-- `Clock::now_ms` and `FnMut(&str) -> Fut`.
pub record Env {ℓ κ} (W : Type ℓ) (T : Type κ) : Type (ℓ ⊔ κ) where
  pub now_ms : W → ℕ × W
  pub request : Text → W → Result Text T × W

module _ {ℓ κ} {W : Type ℓ} {T : Type κ} (env : Env W T) where
  -- the loop over the peers, and the request that follows it
  unfoldable pub try_peers :
      Text → List (Text × PeerEntry) → PeerPool → W → Result Text T × PeerPool × W
  try_peers bootnode_url [] pool w =
      let answer = env.request bootnode_url w in (answer.0, pool, answer.1)
  try_peers bootnode_url ((picked_id, picked_entry) ∷ peers) pool w =
      let answer = env.request (picked_entry.wss_url) w in
      let clock = env.now_ms (answer.1) in
      elim (answer.0) [
        | ok value ↦ (ok value, record_success picked_id (clock.0) pool, clock.1)
        | err e ↦ try_peers bootnode_url peers (record_failure picked_id (clock.0) pool) (clock.1)
      ]

  unfoldable pub run_with_pool_fallback : Text → PeerPool → W → Result Text T × PeerPool × W
  run_with_pool_fallback bootnode_url pool w =
      let clock = env.now_ms w in
      try_peers bootnode_url (ranked_available (clock.0) pool) pool (clock.1)
