-- ===== src/Base/Lists.antt =====
-- Lists measured by native numbers, under the library's names.
use Prim.Native.Nat.{ℕ, zero, suc, ◌+◌, ◌-◌, min}
use mathlib.Core.Logic.{◌⊎◌, inl, inr}
use mathlib.Core.List.{List, [], ◌∷◌, ◌++◌, map}
use mathlib.Core.Path.{◌≡◌, refl, ap, subst}
use native.Mathlib.Omega.{arith}
use native.Mathlib.Numerals.{unary_clauses}

-- A slice of bytes; each element is below 256.
abbrev pub Bytes : Type 0
Bytes = List ℕ

module _ {ℓ} {A : Type ℓ} where
  abbrev pub length : List A → ℕ
  length [] = 0
  length (x ∷ xs) = suc (length xs)

  abbrev pub take : ℕ → List A → List A
  take zero xs = []
  take (suc n) [] = []
  take (suc n) (x ∷ xs) = x ∷ take n xs

  abbrev pub drop : ℕ → List A → List A
  drop zero xs = xs
  drop (suc n) [] = []
  drop (suc n) (x ∷ xs) = drop n xs

  abbrev pub All {κ} : (A → Type κ) → List A → Type κ
  All P [] = Unit {κ}
  All P (x ∷ xs) = P x × All P xs

  abbrev pub Any : (A → Type 0) → List A → Type 0
  Any P [] = ⊥
  Any P (x ∷ xs) = P x ⊎ Any P xs

  -- Every earlier element stands in `R` to every later one.
  abbrev pub Pairs {κ} : (A → A → Type κ) → List A → Type κ
  Pairs R [] = Unit {κ}
  Pairs R (x ∷ xs) = All (R x) xs × Pairs R xs

  pub length-append : (xs ys : List A) → length (xs ++ ys) ≡ length xs + length ys
  length-append [] ys = omega arith
  length-append (x ∷ xs) ys = omega (arith, length-append xs ys)

  pub length-take : (n : ℕ) (xs : List A) → length (take n xs) ≡ min n (length xs)
  length-take zero xs = omega arith
  length-take (suc n) [] = omega arith
  length-take (suc n) (x ∷ xs) = omega (arith, length-take n xs)

  pub length-drop : (n : ℕ) (xs : List A) → length (drop n xs) ≡ length xs - n
  length-drop zero xs = omega arith
  length-drop (suc n) [] = omega arith
  length-drop (suc n) (x ∷ xs) = omega (arith, length-drop n xs)

  pub take-append_self : (xs ys : List A) → take (length xs) (xs ++ ys) ≡ xs
  take-append_self [] ys = refl
  take-append_self (x ∷ xs) ys = ap (◌∷◌ x) (take-append_self xs ys)

  pub drop-append_self : (xs ys : List A) → drop (length xs) (xs ++ ys) ≡ ys
  drop-append_self [] ys = refl
  drop-append_self (x ∷ xs) ys = drop-append_self xs ys

  pub take-append-drop : (n : ℕ) (xs : List A) → take n xs ++ drop n xs ≡ xs
  take-append-drop zero xs = refl
  take-append-drop (suc n) [] = refl
  take-append-drop (suc n) (x ∷ xs) = ap (◌∷◌ x) (take-append-drop n xs)

  pub take_nil : (n : ℕ) → Path (List A) (take n []) []
  take_nil zero = refl
  take_nil (suc n) = refl

  pub take-append :
      (n : ℕ) (xs ys : List A) → take n (xs ++ ys) ≡ take n xs ++ take (n - length xs) ys
  take-append zero [] ys = refl
  take-append zero (x ∷ xs) ys = ap (λ n. take n ys) {x = 0} (omega arith)
  take-append (suc n) [] ys = ap (λ m. take m ys) {x = suc n} (omega arith)
  take-append (suc n) (x ∷ xs) ys = simp unary_clauses (ap (◌∷◌ x) (take-append n xs ys))

  pub take-min : (n : ℕ) (xs : List A) → take (min n (length xs)) xs ≡ take n xs
  take-min zero [] = refl
  take-min zero (x ∷ xs) = ap (λ m. take m (x ∷ xs)) {y = 0} (omega arith)
  take-min (suc n) [] = simp unary_clauses refl
  take-min (suc n) (x ∷ xs) = simp unary_clauses (ap (◌∷◌ x) (take-min n xs))

  pub All-append {κ} : (P : A → Type κ) (xs ys : List A) → All P xs → All P ys → All P (xs ++ ys)
  All-append P [] ys hx hy = hy
  All-append P (x ∷ xs) ys (h, hx) hy = (h, All-append P xs ys hx hy)

module _ {ℓ κ μ} {A : Type ℓ} where
  pub All-mono :
      {P : A → Type κ} (Q : A → Type μ)
      → ((a : A) → P a → Q a)
      → (xs : List A) → All P xs
      → All Q xs
  All-mono Q f [] h = tt
  All-mono Q f (x ∷ xs) (p, h) = (f x p, All-mono Q f xs h)

  pub Pairs-mono :
      {R : A → A → Type κ} (S : A → A → Type μ)
      → ((a b : A) → R a b → S a b)
      → (xs : List A) → Pairs R xs
      → Pairs S xs
  Pairs-mono S f [] h = tt
  Pairs-mono S f (x ∷ xs) (p, h) = (All-mono (S x) (f x) xs p, Pairs-mono S f xs h)

-- What holds of all elements holds of one.
pub All-Any {κ} :
    {A : Type 0} (P : A → Type κ) (a : A) (xs : List A) → All P xs → Any (λ x. x ≡ a) xs → P a
All-Any P a [] h m = absurd m
All-Any P a (x ∷ xs) (p, h) (inl e) = subst P e p
All-Any P a (x ∷ xs) (p, h) (inr m) = All-Any P a xs h m

module _ {ℓ κ} {A : Type ℓ} {B : Type κ} (f : A → B) where
  pub length-map : (xs : List A) → length (map f xs) ≡ length xs
  length-map [] = refl
  length-map (x ∷ xs) = ap suc (length-map xs)

  pub map-All {μ} : (P : B → Type μ) (xs : List A) → All (λ x. P (f x)) xs → All P (map f xs)
  map-All P [] h = tt
  map-All P (x ∷ xs) (p, h) = (p, map-All P xs h)

  pub map-Pairs {μ} :
      (R : B → B → Type μ) (xs : List A) → Pairs (λ x y. R (f x) (f y)) xs → Pairs R (map f xs)
  map-Pairs R [] h = tt
  map-Pairs R (x ∷ xs) (p, h) = (map-All (R (f x)) xs p, map-Pairs R xs h)

pub map-Any :
    {A B : Type 0} (f : A → B) (a : A) (xs : List A)
    → Any (λ x. x ≡ a) xs
    → Any (λ y. y ≡ f a) (map f xs)
map-Any f a [] m = m
map-Any f a (x ∷ xs) (inl e) = inl (ap f e)
map-Any f a (x ∷ xs) (inr m) = inr (map-Any f a xs m)

module _ {ℓ} {A : Type ℓ} where
  pub take-All {κ} : (P : A → Type κ) (n : ℕ) (xs : List A) → All P xs → All P (take n xs)
  take-All P zero xs h = tt
  take-All P (suc n) [] h = tt
  take-All P (suc n) (x ∷ xs) (p, h) = (p, take-All P n xs h)

  pub take-Pairs {κ} : (R : A → A → Type κ) (n : ℕ) (xs : List A) → Pairs R xs → Pairs R (take n xs)
  take-Pairs R zero xs h = tt
  take-Pairs R (suc n) [] h = tt
  take-Pairs R (suc n) (x ∷ xs) (p, h) = (take-All (R x) n xs p, take-Pairs R n xs h)
