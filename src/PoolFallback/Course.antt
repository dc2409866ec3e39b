-- ===== src/PoolFallback/Course.antt =====
-- Which urls a run asks, in which order, and what it records (src/request.rs).
use microdot.Base.{
  ℕ, ◌+◌, ◌≤◌, ◌≡◌, refl, ap, ◌∙◌, ◌⊎◌, inl, inr, List, [], ◌∷◌, ◌++◌, map, length, length-append,
  length-map, Result, ok, err, Result-cases, arith,
}
use microdot.Text.{Text}
use microdot.PeerPool.{PeerEntry, PeerPool, ranked_available, record_success, record_failure}
use microdot.PoolFallback.{Env, try_peers, run_with_pool_fallback}

abbrev pub url_of : Text × PeerEntry → Text
url_of (id, e) = e.wss_url

abbrev pub id_of {ℓ} : {A : Type ℓ} → Text × A → Text
id_of (id, a) = id

append_assoc {ℓ} : {A : Type ℓ} (xs ys zs : List A) → (xs ++ ys) ++ zs ≡ xs ++ (ys ++ zs)
append_assoc [] ys zs = refl
append_assoc (x ∷ xs) ys zs = ap (◌∷◌ x) (append_assoc xs ys zs)

-- A peer that failed: the peer, its error and the time at which the failure was recorded.
abbrev pub Failed : Type 0
Failed = (Text × PeerEntry) × Text × ℕ

abbrev pub peer_of : Failed → Text × PeerEntry
peer_of (x, error, now) = x

-- a failure recorded for each peer, at its time
abbrev pub fail_each : List Failed → PeerPool → PeerPool
fail_each [] pool = pool
fail_each ((x, error, now) ∷ tries) pool = fail_each tries (record_failure (id_of x) now pool)

-- what was asked of the peers that failed, and what they answered
abbrev pub failed_at {κ} : {T : Type κ} → Failed → Text × Result Text T
failed_at (x, error, now) = (url_of x, err error)

-- The urls that are asked: those of the first peers, all or some, and at most one more.
abbrev pub IsAsked : List Text → Text → List (Text × PeerEntry) → List Text → Type 0
IsAsked start bootnode_url peers log =
    ((before : List (Text × PeerEntry)) × (x : Text × PeerEntry) × (after : List (Text × PeerEntry))
      × (peers ≡ before ++ (x ∷ after))
      × (log ≡ start ++ (map url_of before ++ (url_of x ∷ []))))
    ⊎ (log ≡ start ++ (map url_of peers ++ (bootnode_url ∷ [])))

module _ {ℓ κ} {W : Type ℓ} {T : Type κ} where
  -- `env` in a world that also lists the urls asked
  abbrev pub logged : Env W T → Env (List Text × W) T
  logged env = record {
    now_ms = λ (log, w). let clock = env.now_ms w in (clock.0, (log, clock.1));
    request =
        λ url (log, w). let answer = env.request url w in (answer.0, (log ++ (url ∷ []), answer.1));
  }

  -- `env` in a world that also lists the urls asked, each with its answer
  abbrev pub recorded : Env W T → Env (List (Text × Result Text T) × W) T
  recorded env = record {
    now_ms = λ (log, w). let clock = env.now_ms w in (clock.0, (log, clock.1));
    request = λ url (log, w).
        let answer = env.request url w in (answer.0, (log ++ ((url, answer.0) ∷ []), answer.1));
  }

  -- The peers before the first success were asked in order and each answered with an error; then
  -- a peer answered with a value, and nothing else is asked. `start` is what was listed before.
  abbrev pub IsEarlyStop :
      List (Text × Result Text T)
      → List (Text × PeerEntry)
      → PeerPool
      → Result Text T × PeerPool × (List (Text × Result Text T) × W)
      → Type κ
  IsEarlyStop start peers pool (result, after_pool, (log, w)) =
      (tries : List Failed) × (x : Text × PeerEntry) × (after : List (Text × PeerEntry)) × (now : ℕ)
      × (v : T) × (peers ≡ map peer_of tries ++ (x ∷ after))
      × (log ≡ start ++ (map failed_at tries ++ ((url_of x, ok v) ∷ [])))
      × (result ≡ ok v)
      × (after_pool ≡ record_success (id_of x) now (fail_each tries pool))

  -- Every peer was asked in order and answered with an error, then the bootnode was asked, and its
  -- answer is the result.
  abbrev pub IsFallback :
      List (Text × Result Text T)
      → Text
      → List (Text × PeerEntry)
      → PeerPool
      → Result Text T × PeerPool × (List (Text × Result Text T) × W)
      → Type κ
  IsFallback start bootnode_url peers pool (result, after_pool, (log, w)) =
      (tries : List Failed) × (peers ≡ map peer_of tries)
      × (log ≡ start ++ (map failed_at tries ++ ((bootnode_url, result) ∷ [])))
      × (after_pool ≡ fail_each tries pool)

  later_stop :
      (start : List (Text × Result Text T)) (x : Text × PeerEntry) (answer : Result Text T)
      (error : Text) (now : ℕ) (peers : List (Text × PeerEntry)) (pool : PeerPool)
      (r : Result Text T × PeerPool × (List (Text × Result Text T) × W))
      → answer ≡ err error
      → IsEarlyStop (start ++ ((url_of x, answer) ∷ [])) peers (record_failure (id_of x) now pool) r
      → IsEarlyStop start (x ∷ peers) pool r
  later_stop start x answer error now peers pool r e (tries, y, after, t, v, p, l, q, a) = (
    (x, error, now) ∷ tries,
    y,
    after,
    t,
    v,
    ap (◌∷◌ x) p,
    l
        ∙ append_assoc start ((url_of x, answer) ∷ []) _
        ∙ ap
            (λ a.
              start ++ ((url_of x, a) ∷ (map (failed_at {T = T}) tries ++ ((url_of y, ok v) ∷ []))))
            e,
    q,
    a,
  )

  later-IsFallback :
      (start : List (Text × Result Text T)) (url : Text) (x : Text × PeerEntry)
      (answer : Result Text T) (error : Text) (now : ℕ) (peers : List (Text × PeerEntry))
      (pool : PeerPool) (r : Result Text T × PeerPool × (List (Text × Result Text T) × W))
      → answer ≡ err error
      → IsFallback
          (start ++ ((url_of x, answer) ∷ []))
          url
          peers
          (record_failure (id_of x) now pool)
          r
      → IsFallback start url (x ∷ peers) pool r
  later-IsFallback start url x answer error now peers pool r e (tries, p, l, a) = (
    (x, error, now) ∷ tries,
    ap (◌∷◌ x) p,
    l
        ∙ append_assoc start ((url_of x, answer) ∷ []) _
        ∙ ap (λ a. start ++ ((url_of x, a) ∷ (map (failed_at {T = T}) tries ++ ((url, r.0) ∷ []))))
            e,
    a,
  )

  try_peers_course :
      (env : Env W T) (url : Text) (peers : List (Text × PeerEntry)) (pool : PeerPool)
      (start : List (Text × Result Text T)) (w : W)
      → IsEarlyStop start peers pool (try_peers (recorded env) url peers pool (start, w))
        ⊎ IsFallback start url peers pool (try_peers (recorded env) url peers pool (start, w))
  unfolding try_peers
  try_peers_course env url [] pool start w = inr ([], refl, refl, refl)
  try_peers_course env url ((id, e) ∷ peers) pool start w =
      elim (Result-cases ((env.request (e.wss_url) w).0)) [
        | inl (v, q) ↦
            rw (q, try_peers)
              (inl (
                [],
                (id, e),
                peers,
                _,
                v,
                refl,
                ap (λ a. start ++ ((e.wss_url, a) ∷ [])) q,
                refl,
                refl,
              ))
        | inr (x, q) ↦
            rw (q, try_peers)
              (let clock = env.now_ms ((env.request (e.wss_url) w).1) in
                let marked = record_failure id (clock.0) pool in
                let answer = (env.request (e.wss_url) w).0 in
                let said = start ++ ((e.wss_url, answer) ∷ []) in
                let rest = try_peers (recorded env) url peers marked (said, clock.1) in
                elim (try_peers_course env url peers marked said (clock.1)) [
                  | inl h ↦ inl (later_stop start (id, e) answer x (clock.0) peers pool rest q h)
                  | inr h ↦
                      inr
                        (later-IsFallback start url (id, e) answer x (clock.0) peers pool rest q h)
                ])
      ]

  -- A run asks the available peers in their ranking until one answers with a value, which is the
  -- result; each before it answered with an error. Only when every peer answered with an error
  -- is the bootnode asked, and its answer, value or error, is the result; nothing is asked after
  -- that. The run records a failure for each peer that answered with an error, a success for the
  -- one that did not, and nothing for the bootnode.
  pub run_with_pool_fallback_course :
      (env : Env W T) (url : Text) (pool : PeerPool) (w : W)
      → IsEarlyStop []
          (ranked_available ((env.now_ms w).0) pool)
          pool
          (run_with_pool_fallback (recorded env) url pool ([], w))
        ⊎ IsFallback [] url
            (ranked_available ((env.now_ms w).0) pool)
            pool
            (run_with_pool_fallback (recorded env) url pool ([], w))
  unfolding run_with_pool_fallback
  run_with_pool_fallback_course env url pool w =
      try_peers_course env url _ pool [] ((env.now_ms w).1)

  try_peers-IsAsked :
      (env : Env W T) (url : Text) (peers : List (Text × PeerEntry)) (pool : PeerPool)
      (start : List Text) (w : W)
      → IsAsked start url peers (((try_peers (logged env) url peers pool (start, w)).2).0)
  unfolding try_peers
  try_peers-IsAsked env url [] pool start w = inr refl
  try_peers-IsAsked env url ((id, e) ∷ peers) pool start w =
      elim (Result-cases ((env.request (e.wss_url) w).0)) [
        | inl (v, q) ↦ rw (q, try_peers) (inl ([], (id, e), peers, refl, refl))
        | inr (x, q) ↦
            rw (q, try_peers)
              (let clock = env.now_ms ((env.request (e.wss_url) w).1) in
                let said = start ++ (e.wss_url ∷ []) in
                elim (try_peers-IsAsked env url peers (record_failure id (clock.0) pool) said
                  (clock.1)) [
                    | inl (before, y, after, p, l) ↦ inl (
                      (id, e) ∷ before,
                      y,
                      after,
                      ap (◌∷◌ (id, e)) p,
                      l ∙ append_assoc start (e.wss_url ∷ []) _,
                    )
                    | inr l ↦ inr (l ∙ append_assoc start (e.wss_url ∷ []) _)
                  ])
      ]

  pub run_with_pool_fallback-IsAsked :
      (env : Env W T) (url : Text) (pool : PeerPool) (w : W)
      → IsAsked [] url
          (ranked_available ((env.now_ms w).0) pool)
          (((run_with_pool_fallback (logged env) url pool ([], w)).2).0)
  unfolding run_with_pool_fallback
  run_with_pool_fallback-IsAsked env url pool w =
      try_peers-IsAsked env url _ pool [] ((env.now_ms w).1)

  -- A run asks at most one url more than there are available peers.
  run_with_pool_fallback_bounded :
      (env : Env W T) (url : Text) (pool : PeerPool) (w : W)
      → length (((run_with_pool_fallback (logged env) url pool ([], w)).2).0)
        ≤ length (ranked_available ((env.now_ms w).0) pool) + 1
  run_with_pool_fallback_bounded env url pool w =
      elim (run_with_pool_fallback-IsAsked env url pool w) [
        | inl (before, y, after, p, l) ↦ omega (
          arith,
          ap length l,
          ap length p,
          length-append (map url_of before) (url_of y ∷ []),
          length-append before (y ∷ after),
          length-map url_of before,
        )
        | inr l ↦ omega (
          arith,
          ap length l,
          length-append (map url_of (ranked_available ((env.now_ms w).0) pool)) (url ∷ []),
          length-map url_of (ranked_available ((env.now_ms w).0) pool),
        )
      ]
