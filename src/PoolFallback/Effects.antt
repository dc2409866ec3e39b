-- ===== src/PoolFallback/Effects.antt =====
-- What a run leaves of the pool: the same keys, in a pool that is still valid (src/request.rs).
use microdot.Base.{
  ℕ, ◌≡◌, none, arith, refl, ◌∙◌, inl, inr, List, [], ◌∷◌, Result, ok, Result-cases,
}
use microdot.Text.{Text}
use microdot.Text.Order.{text_cmp-eq}
use microdot.BTreeMap.{text_order, get, modify}
use microdot.BTreeMap.Laws.{length-modify, get-modify}
use microdot.PeerPool.{
  PeerEntry, PeerPool, succeeded, failed, len, ranked_available, record_success, record_failure,
}
use microdot.PeerPool.Reputation.{IsValid}
use microdot.PeerPool.Invariant.{record_success-IsValid, record_failure-IsValid}
use microdot.PoolFallback.{Env, try_peers, run_with_pool_fallback}

len-record_success :
    (id : Text) (now : ℕ) (pool : PeerPool)
    → IsValid pool
    → len (record_success id now pool) ≡ len pool
unfolding record_success
len-record_success id now pool h = length-modify id (succeeded now) pool (h.ascending)

len-record_failure :
    (id : Text) (now : ℕ) (pool : PeerPool)
    → IsValid pool
    → len (record_failure id now pool) ≡ len pool
unfolding record_failure
len-record_failure id now pool h = length-modify id (failed now) pool (h.ascending)

modify_absent :
    (f : PeerEntry → PeerEntry) (id j : Text) (pool : PeerPool)
    → get j pool ≡ none
    → get j (modify id f pool) ≡ none
modify_absent f id j pool h = ground (arith, get-modify j id f pool, h, text_cmp-eq j id)

record_success_absent :
    (id : Text) (now : ℕ) (j : Text) (pool : PeerPool)
    → get j pool ≡ none
    → get j (record_success id now pool) ≡ none
unfolding record_success
record_success_absent id now j pool h = modify_absent (succeeded now) id j pool h

record_failure_absent :
    (id : Text) (now : ℕ) (j : Text) (pool : PeerPool)
    → get j pool ≡ none
    → get j (record_failure id now pool) ≡ none
unfolding record_failure
record_failure_absent id now j pool h = modify_absent (failed now) id j pool h

-- A result that is not an error.
abbrev pub Gives {ℓ κ} : {E : Type ℓ} {X : Type κ} → Result E X → Type (ℓ ⊔ κ)
Gives r = (x : _) × (r ≡ ok x)

module _ {ℓ κ} {W : Type ℓ} {T : Type κ} (env : Env W T) where
  try_peers_keeps :
      (url : Text) (peers : List (Text × PeerEntry)) (pool : PeerPool) (w : W)
      → IsValid pool
      → IsValid ((try_peers env url peers pool w).1)
        × (len ((try_peers env url peers pool w).1) ≡ len pool)
  unfolding try_peers
  try_peers_keeps url [] pool w h = (h, refl)
  try_peers_keeps url ((id, e) ∷ peers) pool w h =
      let clock = env.now_ms ((env.request (e.wss_url) w).1) in
      elim (Result-cases ((env.request (e.wss_url) w).0)) [
        | inl (v, q) ↦
            rw (q, try_peers)
              (record_success-IsValid id (clock.0) pool h, len-record_success id (clock.0) pool h)
        | inr (x, q) ↦
            rw (q, try_peers)
              (let rest =
                  try_peers_keeps url peers (record_failure id (clock.0) pool) (clock.1)
                    (record_failure-IsValid id (clock.0) pool h) in
                (rest.0, rest.1 ∙ len-record_failure id (clock.0) pool h))
      ]

  try_peers_from :
      (url : Text) (peers : List (Text × PeerEntry)) (pool : PeerPool) (w : W) (v : T)
      → (try_peers env url peers pool w).0 ≡ ok v
      → (u : Text) × (w' : W) × ((env.request u w').0 ≡ ok v)
  unfolding try_peers
  try_peers_from url [] pool w v = λ e. (url, w, e)
  try_peers_from url ((id, p) ∷ peers) pool w v =
      elim (Result-cases ((env.request (p.wss_url) w).0)) [
        | inl (x, q) ↦ rw (q, try_peers) (λ e. (p.wss_url, w, q ∙ e))
        | inr (x, q) ↦ rw (q, try_peers) (λ e. try_peers_from url peers _ _ v e)
      ]

  try_peers_absent :
      (url : Text) (peers : List (Text × PeerEntry)) (pool : PeerPool) (w : W) (j : Text)
      → get j pool ≡ none
      → get j ((try_peers env url peers pool w).1) ≡ none
  unfolding try_peers
  try_peers_absent url [] pool w j h = h
  try_peers_absent url ((id, e) ∷ peers) pool w j h =
      let clock = env.now_ms ((env.request (e.wss_url) w).1) in
      elim (Result-cases ((env.request (e.wss_url) w).0)) [
        | inl (v, q) ↦ rw (q, try_peers) (record_success_absent id (clock.0) j pool h)
        | inr (x, q) ↦
            rw (q, try_peers)
              (try_peers_absent url peers (record_failure id (clock.0) pool) (clock.1) j
                (record_failure_absent id (clock.0) j pool h))
      ]

  -- A run adds no peer.
  pub run_with_pool_fallback_absent :
      (url : Text) (pool : PeerPool) (w : W) (j : Text)
      → get j pool ≡ none
      → get j ((run_with_pool_fallback env url pool w).1) ≡ none
  unfolding run_with_pool_fallback
  run_with_pool_fallback_absent url pool w j h =
      try_peers_absent url (ranked_available ((env.now_ms w).0) pool) pool ((env.now_ms w).1) j h

  -- A run keeps a valid pool valid and of the same size.
  pub run_with_pool_fallback_keeps :
      (url : Text) (pool : PeerPool) (w : W)
      → IsValid pool
      → IsValid ((run_with_pool_fallback env url pool w).1)
        × (len ((run_with_pool_fallback env url pool w).1) ≡ len pool)
  unfolding run_with_pool_fallback
  run_with_pool_fallback_keeps url pool w h =
      try_peers_keeps url (ranked_available ((env.now_ms w).0) pool) pool ((env.now_ms w).1) h

  -- What a run returns is what the request gave for some url.
  pub run_with_pool_fallback_from :
      (url : Text) (pool : PeerPool) (w : W) (v : T)
      → (run_with_pool_fallback env url pool w).0 ≡ ok v
      → (u : Text) × (w' : W) × ((env.request u w').0 ≡ ok v)
  unfolding run_with_pool_fallback
  run_with_pool_fallback_from url pool w v =
      try_peers_from url (ranked_available ((env.now_ms w).0) pool) pool ((env.now_ms w).1) v

  try_peers_answers :
      (url : Text) (peers : List (Text × PeerEntry)) (pool : PeerPool) (w : W)
      → ((w' : W) → Gives ((env.request url w').0))
      → Gives ((try_peers env url peers pool w).0)
  unfolding try_peers
  try_peers_answers url [] pool w h = h w
  try_peers_answers url ((id, p) ∷ peers) pool w h =
      elim (Result-cases ((env.request (p.wss_url) w).0)) [
        | inl (x, q) ↦ rw (q, try_peers) (x, refl)
        | inr (x, q) ↦ rw (q, try_peers) (try_peers_answers url peers _ _ h)
      ]

  -- A run returns if the bootnode answers, whatever the peers do.
  pub run_with_pool_fallback_answers :
      (url : Text) (pool : PeerPool) (w : W)
      → ((w' : W) → Gives ((env.request url w').0))
      → Gives ((run_with_pool_fallback env url pool w).0)
  unfolding run_with_pool_fallback
  run_with_pool_fallback_answers url pool w h =
      try_peers_answers url (ranked_available ((env.now_ms w).0) pool) pool ((env.now_ms w).1) h
