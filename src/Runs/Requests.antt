-- ===== src/Runs/Requests.antt =====
-- Runs of `run_with_pool_fallback` of src/request.rs, in a world that is a clock.
use microdot.Base.{ℕ, ◌+◌, ◌⊎◌, All, [], ok, err, if◌then◌else◌}
use microdot.Text.{text, text_eq}
use microdot.BTreeMap.{text_order}
use microdot.PeerPool.{PeerPool, new, observe, ranked_available}
use microdot.PeerPool.Reputation.{IsValid}
use microdot.PeerPool.Invariant.{observing, Reaches-IsValid, here, after}
use microdot.PoolFallback.{Env, run_with_pool_fallback}
use microdot.PoolFallback.Asked.{MayAsk, run_with_pool_fallback_asks}
use microdot.PoolFallback.Course.{
  IsEarlyStop, IsFallback, logged, recorded, run_with_pool_fallback_course,
}

-- every reading of the clock adds one; only the url `b` answers
abbrev world : Env ℕ ℕ
world = record {
  now_ms = λ t. (t, t + 1);
  request = λ url t. ((if text_eq url (text "b") then ok 1 else err (text "no")), t);
}

abbrev pool : PeerPool
pool = observe (text "Q") (text "b") 1 (observe (text "P") (text "a") 2 new)

pool-IsValid : IsValid pool
pool-IsValid =
    Reaches-IsValid
      (after (observing (text "Q") (text "b") 1) (after (observing (text "P") (text "a") 2) here))

run_with_pool_fallback_course_example :
    IsEarlyStop []
      (ranked_available 5 pool)
      pool
      (run_with_pool_fallback (recorded world) (text "c") pool ([], 5))
    ⊎ IsFallback []
        (text "c")
        (ranked_available 5 pool)
        pool
        (run_with_pool_fallback (recorded world) (text "c") pool ([], 5))
run_with_pool_fallback_course_example = run_with_pool_fallback_course world (text "c") pool 5

run_with_pool_fallback_asks_example :
    All
      (MayAsk pool 5 (text "c"))
      (((run_with_pool_fallback (logged world) (text "c") pool ([], 5)).2).0)
run_with_pool_fallback_asks_example =
    run_with_pool_fallback_asks world (text "c") pool 5 (pool-IsValid.ascending)
