-- ===== src/Base/Outcome.antt =====
-- Rust's `Result`, with `?` as the bind of a `do` block.
use microdot.Base.Tests.{if◌then◌else◌}
use mathlib.Core.Bool.{Bool, true, false}
use mathlib.Core.Logic.{◌⊎◌, inl, inr}
use mathlib.Core.Option.{Option, none, some}
use mathlib.Core.Path.{◌≡◌, refl}

pub data Result {ℓ κ} (E : Type ℓ) (A : Type κ) : Type (ℓ ⊔ κ) where
  ok : A → Result E A
  err : E → Result E A

infixl 5 ◌>>=◌
abbrev pub ◌>>=◌ {ℓ κ μ} :
    {E : Type ℓ} {A : Type κ} {B : Type μ} → Result E A → (A → Result E B) → Result E B
ok a >>= f = f a
err e >>= f = err e

module _ {ℓ κ μ} {E : Type ℓ} {F : Type μ} {A : Type κ} where
  -- `map_err`
  abbrev pub map_err : (E → F) → Result E A → Result F A
  map_err f (ok a) = ok a
  map_err f (err e) = err (f e)

module _ {ℓ κ} {E : Type ℓ} {A : Type κ} where
  -- `.ok()`
  abbrev pub to_option : Result E A → Option A
  to_option (ok a) = some a
  to_option (err e) = none

  -- `.ok_or_else(|| e)`
  abbrev pub ok_or : Option A → E → Result E A
  ok_or (some a) e = ok a
  ok_or none e = err e

  abbrev pub is_ok : Result E A → Bool
  is_ok (ok a) = true
  is_ok (err e) = false

  pub Result-cases : (r : Result E A) → ((a : A) × (r ≡ ok a)) ⊎ ((e : E) × (r ≡ err e))
  Result-cases (ok a) = inl (a, refl)
  Result-cases (err e) = inr (e, refl)

-- Inversion of a successful `?`.
pub bind-eq-ok {ℓ κ μ} :
    {E : Type ℓ} {A : Type κ} {B : Type μ} (m : Result E A) (f : A → Result E B) {b : B}
    → (m >>= f) ≡ ok b
    → (a : A) × (m ≡ ok a) × (f a ≡ ok b)
bind-eq-ok (ok a) f h = (a, refl, h)
bind-eq-ok (err e) f h = cc

pub map_err-eq-ok {ℓ κ μ} :
    {E : Type ℓ} {F : Type μ} {A : Type κ} (f : E → F) (m : Result E A) {a : A}
    → map_err f m ≡ ok a
    → m ≡ ok a
map_err-eq-ok f (ok a) h = cc
map_err-eq-ok f (err e) h = cc

-- `h` behind a conditional or a chain is `h` behind its parts.
module _ {ℓ κ μ ν} {E : Type ℓ} {A : Type κ} {B : Type μ} {C : Type ν} (h : B → Result E C) where
  pub bind_carries :
      (m : Result E A) {k : A → Result E C} (k' : A → Result E B)
      → ((a : A) → k a ≡ (k' a >>= h))
      → (m >>= k) ≡ ((m >>= k') >>= h)
  bind_carries (ok a) k' e = e a
  bind_carries (err x) k' e = refl

module _ {ℓ μ ν} {E : Type ℓ} {B : Type μ} {C : Type ν} (h : B → Result E C) where
  pub if_carries :
      (b : Bool) {m n : Result E C} (m' n' : Result E B)
      → m ≡ (m' >>= h)
      → n ≡ (n' >>= h)
      → (if b then m else n) ≡ ((if b then m' else n') >>= h)
  if_carries true m' n' p q = p
  if_carries false m' n' p q = q
