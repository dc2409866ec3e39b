-- ===== src/BTreeMap.antt =====
-- Rust's `BTreeMap`, as the association list in ascending key order that its iterator yields.
-- Only what the program calls: `get`, `get_mut` and `entry` as `get` with `insert`, `remove`,
-- `len` and iteration.
pub mod Laws
pub mod Removal
use Prim.Native.Nat.{Ordering}
use microdot.Base.{◌≡◌, Bool, true, false, Option, none, some, List, [], ◌∷◌}
use microdot.Text.{Text}
use microdot.Text.Order.{text_cmp, text_cmp-eq, text_cmp_refl, text_cmp_trans, text_cmp_flip}

-- `Ord` of a key type.
pub record Order {ℓ} (K : Type ℓ) : Type ℓ where
  pub cmp : K → K → Ordering
  pub cmp-eq : (a b : K) → cmp a b ≡ Ordering.eq → a ≡ b
  pub cmp_refl : (a : K) → cmp a a ≡ Ordering.eq
  pub cmp_flip : (a b : K) → cmp a b ≡ Ordering.gt → cmp b a ≡ Ordering.lt
  pub cmp_trans :
      (a b c : K) → cmp a b ≡ Ordering.lt → cmp b c ≡ Ordering.lt → cmp a c ≡ Ordering.lt

instance abbrev pub text_order : Order Text
text_order = record {
  cmp = text_cmp;
  cmp-eq = text_cmp-eq;
  cmp_refl = text_cmp_refl;
  cmp_flip = text_cmp_flip;
  cmp_trans = text_cmp_trans;
}

abbrev pub BTreeMap {ℓ κ} : Type ℓ → Type κ → Type (ℓ ⊔ κ)
BTreeMap K V = List (K × V)

abbrev pub is_eq : Ordering → Bool
is_eq Ordering.eq = true
is_eq o = false

abbrev pub same_key {ℓ} : {K : Type ℓ} ⦃o : Order K⦄ → K → K → Bool
same_key ⦃o⦄ a b = is_eq (o.cmp a b)

module _ {ℓ κ} {K : Type ℓ} {V : Type κ} ⦃o : Order K⦄ where
  unfoldable pub get : K → BTreeMap K V → Option V
  get k [] = none
  get k ((j, v) ∷ m) = elim (o.cmp k j) [
    | Ordering.lt ↦ get k m
    | Ordering.eq ↦ some v
    | Ordering.gt ↦ get k m
  ]

  unfoldable pub insert : K → V → BTreeMap K V → BTreeMap K V
  insert k v [] = (k, v) ∷ []
  insert k v ((j, w) ∷ m) = elim (o.cmp k j) [
    | Ordering.lt ↦ (k, v) ∷ (j, w) ∷ m
    | Ordering.eq ↦ (k, v) ∷ m
    | Ordering.gt ↦ (j, w) ∷ insert k v m
  ]

  unfoldable pub remove : K → BTreeMap K V → BTreeMap K V
  remove k [] = []
  remove k ((j, w) ∷ m) = elim (o.cmp k j) [
    | Ordering.lt ↦ (j, w) ∷ remove k m
    | Ordering.eq ↦ m
    | Ordering.gt ↦ (j, w) ∷ remove k m
  ]

  -- `entry(k).or_insert(v)`
  unfoldable pub or_insert : K → V → BTreeMap K V → BTreeMap K V
  or_insert k v m = elim (get k m) [ none ↦ insert k v m | some w ↦ m ]

  -- `if let Some(v) = get_mut(k)`, then the changes `f` to the value.
  unfoldable pub modify : K → (V → V) → BTreeMap K V → BTreeMap K V
  modify k f m = elim (get k m) [ none ↦ m | some v ↦ insert k (f v) m ]

  -- `for k in ks { remove(k) }`
  unfoldable pub remove_all : List K → BTreeMap K V → BTreeMap K V
  remove_all [] m = m
  remove_all (k ∷ ks) m = remove_all ks (remove k m)
