-- ===== src/PeerPool/Eviction.antt =====
-- Which peers leave a full pool (src/peer_pool.rs, `evict_to_capacity`).
use microdot.Base.{
  ℕ, zero, suc, ◌-◌, min, ◌≡◌, refl, sym, ap, ◌∙◌, subst, ◌⊎◌, inl, inr, true, false, none, some,
  List, [], ◌∷◌, map, take, length-take, All, Any, Pairs, All-mono, All-Any, length-map, map-All,
  map-Pairs, map-Any, take-All, take-Pairs, if◌then◌else◌, leb, Bool-cases, arith,
}
use microdot.Base.Int.{ℤ}
use microdot.Base.Sort.{
  not_gt, sort_by, length-sort_by, sort_by-All, sort_by-Any, sort_by-Pairs, sort_by-sorted,
}
use microdot.Text.{Text}
use microdot.BTreeMap.{same_key, get, text_order}
use microdot.BTreeMap.Laws.{
  IsAscending, get-All, get-Any, keys_distinct, same_key_eq, same_key_refl,
}
use microdot.BTreeMap.Removal.{contains, IsKey, get-remove_all, length-remove_all}
use microdot.PeerPool.{
  PeerEntry, PeerPool, standing, by_worth, key_of, len, max_pool_size, evict_to_capacity,
}
use microdot.PeerPool.Ranking.{IsAtLeast, worth_total, worth_trans, worth-score}

-- The rows that `evict_to_capacity` sorts, and those it takes.
abbrev rows : PeerPool → List (Text × ℤ × ℕ)
rows pool = sort_by by_worth (map standing pool)

abbrev dropped_rows : PeerPool → List (Text × ℤ × ℕ)
dropped_rows pool = take (len pool - max_pool_size) (rows pool)

-- A row tells of an entry of the pool.
abbrev IsRow : PeerPool → Text × ℤ × ℕ → Type 0
IsRow pool r = (x : Text × PeerEntry) × (r ≡ standing x) × (get (x.0) pool ≡ some (x.1))

-- In order, what is taken stands before what is left.
split_at :
    {A : Type 0} (R : A → A → Type 0) (n : ℕ) (xs : List A) (a b : A)
    → Pairs R xs
    → Any (λ x. x ≡ a) (take n xs)
    → Any (λ x. x ≡ b) xs
    → Any (λ x. x ≡ b) (take n xs) ⊎ R a b
split_at R zero xs a b h p q = absurd p
split_at R (suc n) [] a b h p q = absurd p
split_at R (suc n) (x ∷ xs) a b (hx, h) p (inl e) = inl (inl e)
split_at R (suc n) (x ∷ xs) a b (hx, h) (inl e) (inr q) =
    inr (All-Any (R a) b xs (subst (λ y. All (R y) xs) e hx) q)
split_at R (suc n) (x ∷ xs) a b (hx, h) (inr p) (inr q) = elim (split_at R n xs a b h p q) [
  | inl m ↦ inl (inr m)
  | inr r ↦ inr r
]

rows-IsRow : (pool : PeerPool) → IsAscending pool → All (IsRow pool) (rows pool)
rows-IsRow pool h =
    sort_by-All by_worth (IsRow pool) (map standing pool)
      (map-All standing (IsRow pool) pool (All-mono _ (λ x g. (x, refl, g)) pool (get-All pool h)))

standing_eq :
    (j : Text) (e : PeerEntry) (x : Text × PeerEntry)
    → j ≡ x.0
    → some e ≡ some (x.1)
    → standing x ≡ standing (j, e)
standing_eq j e (i, f) p q = cc

-- A key that the loop removes is that of a row taken, which tells of its entry.
contains-Any :
    (pool : PeerPool) (j : Text) (e : PeerEntry) (l : List (Text × ℤ × ℕ))
    → get j pool ≡ some e
    → All (IsRow pool) l
    → contains j (map key_of l) ≡ true
    → Any (λ r. r ≡ standing (j, e)) l
contains-Any pool j e [] g h c = cc
contains-Any pool j e (r ∷ l) g ((x, q, k), h) c = elim (Bool-cases (same_key j (key_of r))) [
  | inl s ↦ inl (
      let i = same_key_eq j (key_of r) s ∙ ap key_of q in
      q ∙ standing_eq j e x i (sym g ∙ (ap (λ y. get y pool) i ∙ k)))
  | inr s ↦ inr (contains-Any pool j e l g h (ground (arith, c, s)))
]

Any-contains :
    (j : Text) (e : PeerEntry) (l : List (Text × ℤ × ℕ))
    → Any (λ r. r ≡ standing (j, e)) l
    → contains j (map key_of l) ≡ true
Any-contains j e [] m = absurd m
Any-contains j e (r ∷ l) (inl q) =
    ground (arith, ap (λ y. same_key j (key_of y)) q, same_key_refl j)
Any-contains j e (r ∷ l) (inr m) = ground (arith, Any-contains j e l m)

row_of :
    (pool : PeerPool) (j : Text) (e : PeerEntry)
    → get j pool ≡ some e
    → Any (λ r. r ≡ standing (j, e)) (rows pool)
row_of pool j e g =
    sort_by-Any by_worth _ (map standing pool) (map-Any standing (j, e) pool (get-Any j e pool g))

rows_sorted : (pool : PeerPool) → Pairs (λ a b. not_gt (by_worth a b) ≡ true) (rows pool)
rows_sorted pool =
    sort_by-sorted by_worth (λ x y. worth_total (x.1) (y.1) (x.2) (y.2))
      (λ x y z. worth_trans (x.1) (y.1) (z.1) (x.2) (y.2) (z.2)) (map standing pool)

key_sym :
    (a b : Text × ℤ × ℕ)
    → same_key (key_of a) (key_of b) ≡ false
    → same_key (key_of b) (key_of a) ≡ false
key_sym a b e = elim (Bool-cases (same_key (key_of b) (key_of a))) [
  | inl s ↦
      let i = same_key_eq (key_of b) (key_of a) s in
      absurd (ground (arith, e, ap (same_key (key_of a)) i, same_key_refl (key_of a)))
  | inr s ↦ s
]

rows_distinct :
    (pool : PeerPool)
    → IsAscending pool
    → Pairs (λ a b. same_key (key_of a) (key_of b) ≡ false) (rows pool)
rows_distinct pool h =
    sort_by-Pairs by_worth _ key_sym (map standing pool)
      (map-Pairs standing _ pool (keys_distinct pool h))

dropped_keys :
    (pool : PeerPool) → IsAscending pool → All (IsKey pool) (map key_of (dropped_rows pool))
dropped_keys pool h = map-All key_of _ (dropped_rows pool) (
    take-All _ (len pool - max_pool_size) (rows pool) (
      All-mono _ (λ a (x, q, g). (x.1, ap (λ y. get (key_of y) pool) q ∙ g)) (rows pool)
        (rows-IsRow pool h)))

get-evict_to_capacity :
    (j : Text) (pool : PeerPool)
    → IsAscending pool
    → get j (evict_to_capacity pool)
      ≡ (if contains j (map key_of (dropped_rows pool)) then none else get j pool)
unfolding evict_to_capacity
get-evict_to_capacity j pool h = elim (Bool-cases (leb (len pool) max_pool_size)) [
  | inl e ↦ let z : len pool - max_pool_size ≡ 0 = ground (arith, e) in rw (e, z) refl
  | inr e ↦ rw e (get-remove_all j (map key_of (dropped_rows pool)) pool h)
]

pub evict_to_capacity_keeps :
    (j : Text) (e : PeerEntry) (pool : PeerPool)
    → IsAscending pool
    → get j (evict_to_capacity pool) ≡ some e
    → get j pool ≡ some e
evict_to_capacity_keeps j e pool h g = ground (arith, get-evict_to_capacity j pool h, g)

-- An eviction from a pool in key order leaves the smaller of 50 and the number of peers there were.
pub length-evict_to_capacity :
    (pool : PeerPool)
    → IsAscending pool
    → len (evict_to_capacity pool) ≡ min (len pool) max_pool_size
unfolding evict_to_capacity
length-evict_to_capacity pool h = ground (
  arith,
  length-remove_all (map key_of (dropped_rows pool)) pool h
      (map-Pairs key_of _ (dropped_rows pool)
        (take-Pairs _ (len pool - max_pool_size) (rows pool) (rows_distinct pool h)))
      (dropped_keys pool h),
  length-map key_of (dropped_rows pool),
  length-take (len pool - max_pool_size) (rows pool),
  length-sort_by by_worth (map standing pool),
  length-map standing pool,
)

-- An eviction from a pool in key order changes no entry that it keeps, and a peer it keeps is at
-- least as good as one it drops.
pub evict_to_capacity_keeps_best :
    (pool : PeerPool) (k j : Text) (f e : PeerEntry)
    → IsAscending pool
    → get k (evict_to_capacity pool) ≡ some f
    → get j pool ≡ some e
    → get j (evict_to_capacity pool) ≡ none
    → (get k pool ≡ some f) × IsAtLeast f e
evict_to_capacity_keeps_best pool k j f e h g p q =
    let c = get-evict_to_capacity k pool h in
    let kept : contains k (map key_of (dropped_rows pool)) ≡ false = ground (arith, c, g) in
    let found : get k pool ≡ some f = ground (arith, c, g, kept) in
    let d = get-evict_to_capacity j pool h in
    let gone : contains j (map key_of (dropped_rows pool)) ≡ true = ground (arith, d, p, q) in
    let taken = take-All (IsRow pool) (len pool - max_pool_size) (rows pool) (rows-IsRow pool h) in
    let at = contains-Any pool j e (dropped_rows pool) p taken gone in
    elim (split_at _ (len pool - max_pool_size) (rows pool) _ _ (rows_sorted pool) at
      (row_of pool k f found)) [
        | inl m ↦ absurd (ground (arith, kept, Any-contains k f (dropped_rows pool) m))
        | inr r ↦ (found, worth-score f e r)
      ]
