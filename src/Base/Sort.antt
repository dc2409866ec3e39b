-- ===== src/Base/Sort.antt =====
-- `slice::sort_by`, a stable sort: here insertion from the right, which puts an element before
-- the first that does not come before it.
use Prim.Native.Nat.{suc, Ordering}
use mathlib.Core.Path.{◌≡◌, refl}
use mathlib.Core.Bool.{Bool, true, false}
use mathlib.Core.Logic.{◌⊎◌, inl, inr}
use mathlib.Core.List.{List, [], ◌∷◌, Perm}
use mathlib.Core.List.Perm
use native.Mathlib.Omega.{arith}
use microdot.Base.Tests.{if◌then◌else◌, Bool-cases}
use microdot.Base.Lists.{length, All, Any, Pairs}

abbrev pub not_gt : Ordering → Bool
not_gt Ordering.gt = false
not_gt o = true

module _ {ℓ} {A : Type ℓ} (cmp : A → A → Ordering) where
  unfoldable pub insert_by : A → List A → List A
  insert_by x [] = x ∷ []
  insert_by x (y ∷ ys) =
      let rest = insert_by x ys in if not_gt (cmp x y) then x ∷ y ∷ ys else y ∷ rest

  unfoldable pub sort_by : List A → List A
  sort_by [] = []
  sort_by (x ∷ xs) = insert_by x (sort_by xs)

  -- `x` may stand before `y`.
  abbrev pub IsInOrder : A → A → Type 0
  IsInOrder x y = not_gt (cmp x y) ≡ true

  insert_by-Perm : (x : A) (ys : List A) → Perm (insert_by x ys) (x ∷ ys)
  unfolding insert_by
  insert_by-Perm x [] = Perm.rfl
  insert_by-Perm x (y ∷ ys) = elim (Bool-cases (not_gt (cmp x y))) [
    | inl e ↦ rw e Perm.rfl
    | inr e ↦ rw e (Perm.trans (Perm.cons y (insert_by-Perm x ys)) (Perm.swap x y ys))
  ]

  -- The sort only reorders.
  pub sort_by-Perm : (xs : List A) → Perm (sort_by xs) xs
  unfolding sort_by
  sort_by-Perm [] = Perm.rfl
  sort_by-Perm (x ∷ xs) = Perm.trans (insert_by-Perm x (sort_by xs)) (Perm.cons x (sort_by-Perm xs))

  length-insert_by : (x : A) (ys : List A) → length (insert_by x ys) ≡ suc (length ys)
  unfolding insert_by
  length-insert_by x [] = refl
  length-insert_by x (y ∷ ys) = ground (arith, length-insert_by x ys)

  pub length-sort_by : (xs : List A) → length (sort_by xs) ≡ length xs
  unfolding sort_by
  length-sort_by [] = refl
  length-sort_by (x ∷ xs) = ground (arith, length-insert_by x (sort_by xs), length-sort_by xs)

  insert_by-All {κ} :
      (P : A → Type κ) (x : A) (ys : List A) → P x → All P ys → All P (insert_by x ys)
  unfolding insert_by
  insert_by-All P x [] p h = (p, tt)
  insert_by-All P x (y ∷ ys) p (q, h) = elim (Bool-cases (not_gt (cmp x y))) [
    | inl e ↦ rw e (p, (q, h))
    | inr e ↦ rw e (q, insert_by-All P x ys p h)
  ]

  pub sort_by-All {κ} : (P : A → Type κ) (xs : List A) → All P xs → All P (sort_by xs)
  unfolding sort_by
  sort_by-All P [] h = tt
  sort_by-All P (x ∷ xs) (p, h) = insert_by-All P x (sort_by xs) p (sort_by-All P xs h)

  insert_by-Any : (P : A → Type 0) (x : A) (ys : List A) → P x ⊎ Any P ys → Any P (insert_by x ys)
  unfolding insert_by
  insert_by-Any P x [] p = p
  insert_by-Any P x (y ∷ ys) p = elim (Bool-cases (not_gt (cmp x y))) [
    | inl e ↦ rw e p
    | inr e ↦ rw e (elim p [
      | inl q ↦ inr (insert_by-Any P x ys (inl q))
      | inr (inl q) ↦ inl q
      | inr (inr q) ↦ inr (insert_by-Any P x ys (inr q))
    ])
  ]

  pub sort_by-Any : (P : A → Type 0) (xs : List A) → Any P xs → Any P (sort_by xs)
  unfolding sort_by
  sort_by-Any P [] p = p
  sort_by-Any P (x ∷ xs) (inl p) = insert_by-Any P x (sort_by xs) (inl p)
  sort_by-Any P (x ∷ xs) (inr p) = insert_by-Any P x (sort_by xs) (inr (sort_by-Any P xs p))

  insert_by-Pairs {κ} :
      (R : A → A → Type κ)
      → ((a b : A) → R a b → R b a)
      → (x : A) (ys : List A) → All (R x) ys
      → Pairs R ys
      → Pairs R (insert_by x ys)
  unfolding insert_by
  insert_by-Pairs R s x [] p h = (tt, tt)
  insert_by-Pairs R s x (y ∷ ys) (r, p) (q, h) = elim (Bool-cases (not_gt (cmp x y))) [
    | inl e ↦ rw e ((r, p), (q, h))
    | inr e ↦ rw e (insert_by-All (R y) x ys (s x y r) q, insert_by-Pairs R s x ys p h)
  ]

  -- What holds of any two elements holds of any two after the sort.
  pub sort_by-Pairs {κ} :
      (R : A → A → Type κ)
      → ((a b : A) → R a b → R b a)
      → (xs : List A) → Pairs R xs
      → Pairs R (sort_by xs)
  unfolding sort_by
  sort_by-Pairs R s [] h = tt
  sort_by-Pairs R s (x ∷ xs) (p, h) =
      insert_by-Pairs R s x (sort_by xs) (sort_by-All (R x) xs p) (sort_by-Pairs R s xs h)

module _ {ℓ} {A : Type ℓ} (cmp : A → A → Ordering)
    (total : (a b : A) → not_gt (cmp a b) ≡ false → IsInOrder cmp b a)
    (trans : (a b c : A) → IsInOrder cmp a b → IsInOrder cmp b c → IsInOrder cmp a c) where
  IsInOrder-trans :
      (a b : A) (ys : List A)
      → IsInOrder cmp a b
      → All (IsInOrder cmp b) ys
      → All (IsInOrder cmp a) ys
  IsInOrder-trans a b [] e h = tt
  IsInOrder-trans a b (y ∷ ys) e (q, h) = (trans a b y e q, IsInOrder-trans a b ys e h)

  insert_by-sorted :
      (x : A) (ys : List A) → Pairs (IsInOrder cmp) ys → Pairs (IsInOrder cmp) (insert_by cmp x ys)
  unfolding insert_by
  insert_by-sorted x [] h = (tt, tt)
  insert_by-sorted x (y ∷ ys) (q, h) = elim (Bool-cases (not_gt (cmp x y))) [
    | inl e ↦ rw e ((e, IsInOrder-trans x y ys e q), (q, h))
    | inr e ↦
        rw e (insert_by-All cmp (IsInOrder cmp y) x ys (total x y e) q, insert_by-sorted x ys h)
  ]

  -- The result is in the order of `cmp`.
  pub sort_by-sorted : (xs : List A) → Pairs (IsInOrder cmp) (sort_by cmp xs)
  unfolding sort_by
  sort_by-sorted [] = tt
  sort_by-sorted (x ∷ xs) = insert_by-sorted x (sort_by cmp xs) (sort_by-sorted xs)
