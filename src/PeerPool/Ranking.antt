-- ===== src/PeerPool/Ranking.antt =====
-- The order in which peers are tried (src/peer_pool.rs, `score`, `ranked_available`, `pick_best`).
use Prim.Native.Nat.{compare}
use microdot.Base.{
  ℕ, ◌+◌, ◌*◌, ◌≤◌, ◌<◌, ◌≡◌, refl, ◌⊎◌, inl, inr, Bool, true, false, Option, none, some, List, [],
  ◌∷◌, All, Any, Pairs, Pairs-mono, All-Any, ap, ◌∙◌, subst, Bool-cases, arith,
}
use microdot.Base.Int.{ℤ, pos, negsuc, cmp_ℤ, then_with}
use microdot.Base.Sort.{not_gt, sort_by-All, sort_by-Any, sort_by-sorted}
use microdot.Text.{Text}
use microdot.BTreeMap.{get, text_order}
use microdot.BTreeMap.Laws.{IsAscending, get-All, get-Any}
use microdot.PeerPool.{
  PeerEntry, PeerPool, score, is_available, filter_available, by_rank, ranked_available, pick_best,
  first,
}

-- `a` scores more than `b`, or the same and was not seen before it.
abbrev pub IsAtLeast : PeerEntry → PeerEntry → Type 0
IsAtLeast a b =
    (b.successes + 2 * a.failures < a.successes + 2 * b.failures)
    ⊎ ((b.successes + 2 * a.failures ≡ a.successes + 2 * b.failures)
        × (b.last_seen_unix_ms ≤ a.last_seen_unix_ms))

-- The tests of the two sorts, on a score and a time.
abbrev pub worth : ℤ → ℕ → ℤ → ℕ → Bool
worth x s y t = not_gt (then_with (cmp_ℤ x y) (compare s t))

pub worth_total : (x y : ℤ) (s t : ℕ) → worth x s y t ≡ false → worth y t x s ≡ true
worth_total (pos x) (pos y) s t h = ground (arith, h)
worth_total (pos x) (negsuc y) s t h = ground (arith, h)
worth_total (negsuc x) (pos y) s t h = ground (arith, h)
worth_total (negsuc x) (negsuc y) s t h = ground (arith, h)

pub worth_trans :
    (x y z : ℤ) (s t u : ℕ) → worth x s y t ≡ true → worth y t z u ≡ true → worth x s z u ≡ true
worth_trans x y z s t u h k = ground (arith, h, k)

pub worth-score :
    (a b : PeerEntry)
    → worth (score b) (b.last_seen_unix_ms) (score a) (a.last_seen_unix_ms) ≡ true
    → IsAtLeast a b
worth-score a b h = ground (arith, h)

filter_available-All :
    (P : Text × PeerEntry → Type 0) (now : ℕ) (l : PeerPool)
    → All P l
    → All (λ x. P x × (is_available now (x.1) ≡ true)) (filter_available now l)
filter_available-All P now [] h = tt
filter_available-All P now ((id, e) ∷ l) (p, h) = elim (Bool-cases (is_available now e)) [
  | inl a ↦ rw a ((p, a), filter_available-All P now l h)
  | inr a ↦ rw a (filter_available-All P now l h)
]

filter_available-Any :
    (x : Text × PeerEntry) (now : ℕ) (l : PeerPool)
    → is_available now (x.1) ≡ true
    → Any (λ y. y ≡ x) l
    → Any (λ y. y ≡ x) (filter_available now l)
filter_available-Any x now ((id, e) ∷ l) a (inl m) =
    let b = ap (λ y. is_available now (y.1)) m ∙ a in rw b (inl m)
filter_available-Any x now ((id, e) ∷ l) a (inr m) = elim (Bool-cases (is_available now e)) [
  | inl b ↦ rw b (inr (filter_available-Any x now l a m))
  | inr b ↦ rw b (filter_available-Any x now l a m)
]
filter_available-Any x now [] a m = absurd m

-- Every peer listed is in the pool and available.
pub ranked_available_sound :
    (now : ℕ) (pool : PeerPool)
    → IsAscending pool
    → All
        (λ x. (get (x.0) pool ≡ some (x.1)) × (is_available now (x.1) ≡ true))
        (ranked_available now pool)
unfolding ranked_available
ranked_available_sound now pool h =
    sort_by-All by_rank _ (filter_available now pool)
      (filter_available-All _ now pool (get-All pool h))

-- Every available peer of the pool is listed.
pub ranked_available_complete :
    (now : ℕ) (pool : PeerPool) (id : Text) (e : PeerEntry)
    → get id pool ≡ some e
    → is_available now e ≡ true
    → Any (λ x. x ≡ (id, e)) (ranked_available now pool)
unfolding ranked_available
ranked_available_complete now pool id e h a =
    sort_by-Any by_rank _ (filter_available now pool)
      (filter_available-Any (id, e) now pool a (get-Any id e pool h))

-- The list runs from best to worst.
pub ranked_available_sorted :
    (now : ℕ) (pool : PeerPool) → Pairs (λ x y. IsAtLeast (x.1) (y.1)) (ranked_available now pool)
unfolding ranked_available
ranked_available_sorted now pool =
    Pairs-mono _ (λ x y. worth-score (x.1) (y.1)) _
      (sort_by-sorted by_rank (λ x y. worth_total (score (y.1)) (score (x.1)) _ _)
        (λ x y z p q. worth_trans (score (z.1)) (score (y.1)) (score (x.1)) _ _ _ q p)
        (filter_available now pool))

-- What `pick_best` promises.
abbrev pub IsPick : ℕ → PeerPool → Option (Text × PeerEntry) → Type 0
IsPick now pool none =
    (id : Text) (e : PeerEntry) → get id pool ≡ some e → is_available now e ≡ false
IsPick now pool (some (id, e)) =
    (get id pool ≡ some e)
    × (is_available now e ≡ true)
    × ((j : Text) (f : PeerEntry) → get j pool ≡ some f → is_available now f ≡ true → IsAtLeast e f)

IsAtLeast-same : (a b : PeerEntry) → a ≡ b → IsAtLeast a b
IsAtLeast-same a b e = subst (IsAtLeast a) e (inr (refl, omega arith))

first-IsPick :
    (now : ℕ) (pool : PeerPool) (l : List (Text × PeerEntry))
    → All (λ x. (get (x.0) pool ≡ some (x.1)) × (is_available now (x.1) ≡ true)) l
    → ((id : Text) (e : PeerEntry)
        → get id pool ≡ some e
        → is_available now e ≡ true
        → Any (λ x. x ≡ (id, e)) l)
    → Pairs (λ x y. IsAtLeast (x.1) (y.1)) l
    → IsPick now pool (first l)
first-IsPick now pool [] sound complete sorted = λ id e h. elim (Bool-cases (is_available now e)) [
  | inl a ↦ absurd (complete id e h a)
  | inr a ↦ a
]
first-IsPick now pool ((id, e) ∷ l) ((g, a), sound) complete (best, sorted) = (
  g,
  a,
  λ j f h b. elim (complete j f h b) [
    | inl m ↦ IsAtLeast-same e f (ap (λ x. x.1) m)
    | inr m ↦ All-Any (λ x. IsAtLeast e (x.1)) (j, f) l best m
  ],
)

pick_best-IsPick :
    (now : ℕ) (pool : PeerPool) → IsAscending pool → IsPick now pool (pick_best now pool)
unfolding pick_best
pick_best-IsPick now pool h =
    first-IsPick now pool (ranked_available now pool) (ranked_available_sound now pool h)
      (ranked_available_complete now pool) (ranked_available_sorted now pool)

from_IsPick :
    (now : ℕ) (pool : PeerPool) (o p : Option (Text × PeerEntry))
    → o ≡ p
    → IsPick now pool o
    → IsPick now pool p
from_IsPick now pool o p e h = subst (IsPick now pool) e h

-- On a pool in key order the peer that `pick_best` gives is one of the pool, is available, and is at
-- least as good as any available peer.
pick_best_best :
    (now : ℕ) (pool : PeerPool) (id j : Text) (e f : PeerEntry)
    → IsAscending pool
    → pick_best now pool ≡ some (id, e)
    → get j pool ≡ some f
    → is_available now f ≡ true
    → (get id pool ≡ some e) × (is_available now e ≡ true) × IsAtLeast e f
pick_best_best now pool id j e f h p g a =
    let (found, available, best) = from_IsPick now pool _ _ p (pick_best-IsPick now pool h) in
    (found, available, best j f g a)

-- On a pool in key order `pick_best` gives none only if no peer of the pool is available.
pick_best-none :
    (now : ℕ) (pool : PeerPool) (j : Text) (f : PeerEntry)
    → IsAscending pool
    → pick_best now pool ≡ none
    → get j pool ≡ some f
    → is_available now f ≡ false
pick_best-none now pool j f h p g =
    from_IsPick now pool _ none p (pick_best-IsPick now pool h) j f g
