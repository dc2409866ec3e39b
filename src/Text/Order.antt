-- ===== src/Text/Order.antt =====
-- The byte order of texts, Rust's `Ord for String`, and that `==` decides equality.
use Prim.Native.Nat.{compare, Ordering}
use microdot.Base.{◌≡◌, ◌↔◌, refl, true, [], ◌∷◌, arith}
use microdot.Text.{Text, text_eq}

pub text_eq_iff : (s t : Text) → (text_eq s t ≡ true) ↔ (s ≡ t)
text_eq_iff [] [] = (λ e. refl, λ e. refl)
text_eq_iff [] (b ∷ t) = (λ e. cc, λ e. cc)
text_eq_iff (a ∷ s) [] = (λ e. cc, λ e. cc)
text_eq_iff (a ∷ s) (b ∷ t) =
    let ih = text_eq_iff s t in (λ e. ground (arith, ih), λ e. ground (arith, ih))

-- `a.cmp(b)`
abbrev pub text_cmp : Text → Text → Ordering
text_cmp [] [] = Ordering.eq
text_cmp [] (b ∷ t) = Ordering.lt
text_cmp (a ∷ s) [] = Ordering.gt
text_cmp (a ∷ s) (b ∷ t) = elim (compare a b) [
  | Ordering.lt ↦ Ordering.lt
  | Ordering.eq ↦ text_cmp s t
  | Ordering.gt ↦ Ordering.gt
]

pub text_cmp-eq : (s t : Text) → text_cmp s t ≡ Ordering.eq → s ≡ t
text_cmp-eq [] [] e = refl
text_cmp-eq [] (b ∷ t) e = cc
text_cmp-eq (a ∷ s) [] e = cc
text_cmp-eq (a ∷ s) (b ∷ t) e = ground (arith, text_cmp-eq s t)

pub text_cmp_refl : (s : Text) → text_cmp s s ≡ Ordering.eq
text_cmp_refl [] = refl
text_cmp_refl (a ∷ s) = ground (arith, text_cmp_refl s)

pub text_cmp_swap : (s t : Text) → text_cmp s t ≡ Ordering.lt → text_cmp t s ≡ Ordering.gt
text_cmp_swap [] [] e = cc
text_cmp_swap [] (b ∷ t) e = refl
text_cmp_swap (a ∷ s) [] e = cc
text_cmp_swap (a ∷ s) (b ∷ t) e = ground (arith, text_cmp_swap s t)

pub text_cmp_flip : (s t : Text) → text_cmp s t ≡ Ordering.gt → text_cmp t s ≡ Ordering.lt
text_cmp_flip [] [] e = cc
text_cmp_flip [] (b ∷ t) e = cc
text_cmp_flip (a ∷ s) [] e = refl
text_cmp_flip (a ∷ s) (b ∷ t) e = ground (arith, text_cmp_flip s t)

pub text_cmp_trans :
    (s t u : Text)
    → text_cmp s t ≡ Ordering.lt
    → text_cmp t u ≡ Ordering.lt
    → text_cmp s u ≡ Ordering.lt
text_cmp_trans [] [] u p q = cc
text_cmp_trans [] (b ∷ t) [] p q = cc
text_cmp_trans [] (b ∷ t) (c ∷ u) p q = refl
text_cmp_trans (a ∷ s) [] u p q = cc
text_cmp_trans (a ∷ s) (b ∷ t) [] p q = cc
text_cmp_trans (a ∷ s) (b ∷ t) (c ∷ u) p q = ground (arith, text_cmp_trans s t u)
