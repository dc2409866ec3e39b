-- ===== src/PoolFallback/Asked.antt =====
-- Whom a run asks: only peers that are available, and the bootnode (src/request.rs).
use microdot.Base.{
  ℕ, ◌≡◌, refl, sym, ◌⊎◌, inl, inr, subst, true, some, List, [], ◌∷◌, ◌++◌, map, All, All-append,
  All-mono, map-All, Bool-cases,
}
use microdot.Base.Sort.{sort_by-All}
use microdot.Text.{Text}
use microdot.BTreeMap.{get, text_order}
use microdot.BTreeMap.Laws.{IsAscending, get-All}
use microdot.PeerPool.{
  PeerEntry, PeerPool, is_available, filter_available, by_rank, ranked_available,
}
use microdot.PoolFallback.{Env, run_with_pool_fallback}
use microdot.PoolFallback.Course.{logged, url_of, run_with_pool_fallback-IsAsked}

-- A peer of the pool that is available.
abbrev pub IsCandidate : PeerPool → ℕ → Text × PeerEntry → Type 0
IsCandidate pool now x = (get (x.0) pool ≡ some (x.1)) × (is_available now (x.1) ≡ true)

-- An url that may be asked.
abbrev pub MayAsk : PeerPool → ℕ → Text → Text → Type 0
MayAsk pool now bootnode_url url =
    (url ≡ bootnode_url) ⊎ ((x : Text × PeerEntry) × IsCandidate pool now x × (url_of x ≡ url))

filter_available-All :
    (P : Text × PeerEntry → Type 0) (now : ℕ) (l : List (Text × PeerEntry))
    → All P l
    → All (λ x. P x × (is_available now (x.1) ≡ true)) (filter_available now l)
filter_available-All P now [] h = tt
filter_available-All P now ((id, e) ∷ l) (p, h) = elim (Bool-cases (is_available now e)) [
  | inl q ↦ rw q ((p, q), filter_available-All P now l h)
  | inr q ↦ rw q (filter_available-All P now l h)
]

candidates :
    (pool : PeerPool) (now : ℕ)
    → IsAscending pool
    → All (IsCandidate pool now) (ranked_available now pool)
unfolding ranked_available
candidates pool now h =
    sort_by-All by_rank (IsCandidate pool now) (filter_available now pool)
      (filter_available-All (λ x. get (x.0) pool ≡ some (x.1)) now pool (get-All pool h))

All-parts : {A : Type 0} (P : A → Type 0) (xs ys : List A) → All P (xs ++ ys) → All P xs × All P ys
All-parts P [] ys h = (tt, h)
All-parts P (x ∷ xs) ys (p, h) = let (a, b) = All-parts P xs ys h in ((p, a), b)

asked :
    (pool : PeerPool) (now : ℕ) (url : Text) (l : List (Text × PeerEntry))
    → All (IsCandidate pool now) l
    → All (MayAsk pool now url) (map url_of l)
asked pool now url l h =
    map-All url_of (MayAsk pool now url) l (All-mono _ (λ x c. inr (x, c, refl)) l h)

module _ {ℓ κ} {W : Type ℓ} {T : Type κ} where
  -- On a pool in key order, every url that a run asks is the bootnode's or that of a peer of the
  -- pool which is not in quarantine at the start of the run. So a peer in quarantine is not
  -- asked, unless the bootnode or such a peer has its url.
  pub run_with_pool_fallback_asks :
      (env : Env W T) (url : Text) (pool : PeerPool) (w : W)
      → IsAscending pool
      → All
          (MayAsk pool ((env.now_ms w).0) url)
          (((run_with_pool_fallback (logged env) url pool ([], w)).2).0)
  run_with_pool_fallback_asks env url pool w h =
      let now = (env.now_ms w).0 in
      let all = candidates pool now h in
      elim (run_with_pool_fallback-IsAsked env url pool w) [
        | inl (before, x, after, p, l) ↦
            let (front, rest) =
              All-parts (IsCandidate pool now) before (x ∷ after)
                (subst (All (IsCandidate pool now)) p all) in
            subst (All (MayAsk pool now url)) (sym l) (
              All-append _ (map url_of before) (url_of x ∷ []) (asked pool now url before front)
                (inr (x, rest.0, refl), tt))
        | inr l ↦ subst (All (MayAsk pool now url)) (sym l) (
            All-append _ (map url_of (ranked_available now pool)) (url ∷ [])
              (asked pool now url _ all) (inl refl, tt))
      ]
