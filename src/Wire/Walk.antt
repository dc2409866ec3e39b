-- ===== src/Wire/Walk.antt =====
-- The loop `while !input.is_empty() { … }` over a slice that each round shortens.
use microdot.Base.{
  ℕ, zero, suc, ◌≤◌, ◌<◌, ◌≡◌, ◌≢◌, refl, ◌∙◌, inl, inr, [], ◌∷◌, ◌++◌, Bytes, length, Result, ok,
  err, ◌>>=◌, Result-cases, arith,
}

-- How a loop ends other than by its test; the source has no `out_of_fuel`.
pub data Halt {ℓ} (E : Type ℓ) : Type ℓ where
  raised : E → Halt E
  out_of_fuel : Halt E

module _ {ℓ κ} {E : Type ℓ} {S : Type κ} (step : S → Bytes → Result E (S × Bytes)) where
  pub walk : ℕ → S → Bytes → Result (Halt E) S
  walk fuel s [] = ok s
  walk zero s (b ∷ bs) = err out_of_fuel
  walk (suc fuel) s (b ∷ bs) = elim (step s (b ∷ bs)) [
    | ok (s', rest) ↦ walk fuel s' rest
    | err e ↦ err (raised e)
  ]

  -- Each round takes a byte at least, so as many rounds as bytes are enough.
  unfoldable pub run : S → Bytes → Result (Halt E) S
  unfolding walk
  run s input = walk (length input) s input

  pub run_nil : (s : S) → run s [] ≡ ok s
  unfolding run
  run_nil s = refl

  abbrev pub Shrinks : Type (ℓ ⊔ κ)
  Shrinks =
      (s : S) (input : Bytes) (s' : S) (rest : Bytes)
      → step s input ≡ ok (s', rest)
      → length rest < length input

  -- A round does not look past what it takes.
  abbrev pub IsFramed : Type (ℓ ⊔ κ)
  IsFramed =
      (s : S) (input : Bytes) (s' : S) (rest more : Bytes)
      → step s input ≡ ok (s', rest)
      → step s (input ++ more) ≡ ok (s', rest ++ more)

module _ {ℓ κ} {E : Type ℓ} {S : Type κ} (step : S → Bytes → Result E (S × Bytes))
    (shrinks : Shrinks step) where
  walk-ne-out_of_fuel :
      (fuel : ℕ) (s : S) (input : Bytes)
      → length input ≤ fuel
      → walk step fuel s input ≢ err out_of_fuel
  unfolding walk
  walk-ne-out_of_fuel fuel s [] h = λ e. cc
  walk-ne-out_of_fuel zero s (b ∷ bs) h = absurd (omega arith)
  walk-ne-out_of_fuel (suc fuel) s (b ∷ bs) h = elim (Result-cases (step s (b ∷ bs))) [
    | inl ((s', rest), e) ↦
        rw (e, walk) (walk-ne-out_of_fuel fuel s' rest (omega (arith, shrinks s _ s' rest e)))
    | inr (x, e) ↦ rw (e, walk) (λ p. cc)
  ]

  pub run-ne-out_of_fuel : (s : S) (input : Bytes) → run step s input ≢ err out_of_fuel
  unfolding run
  run-ne-out_of_fuel s input = walk-ne-out_of_fuel (length input) s input (omega arith)

  walk_fuel :
      (n m : ℕ) (s : S) (input : Bytes)
      → length input ≤ n
      → length input ≤ m
      → walk step n s input ≡ walk step m s input
  unfolding walk
  walk_fuel n m s [] p q = refl
  walk_fuel zero m s (b ∷ bs) p q = absurd (omega arith)
  walk_fuel (suc n) zero s (b ∷ bs) p q = absurd (omega arith)
  walk_fuel (suc n) (suc m) s (b ∷ bs) p q = elim (Result-cases (step s (b ∷ bs))) [
    | inl ((s', rest), e) ↦
        let less = shrinks s (b ∷ bs) s' rest e in
        rw (e, walk) (walk_fuel n m s' rest (omega (arith, less)) (omega (arith, less)))
    | inr (x, e) ↦ rw (e, walk) refl
  ]

  -- One round.
  pub run_step :
      (s : S) (input : Bytes) (s' : S) (rest : Bytes)
      → step s input ≡ ok (s', rest)
      → run step s input ≡ run step s' rest
  unfolding run
  run_step s [] s' rest e = absurd (omega (arith, shrinks s [] s' rest e))
  run_step s (b ∷ bs) s' rest e =
      let less = shrinks s (b ∷ bs) s' rest e in
      rw (e, walk) (walk_fuel (length bs) (length rest) s' rest (omega (arith, less)) (omega arith))

  pub run_raised :
      (s : S) (input : Bytes) (x : E)
      → 0 < length input
      → step s input ≡ err x
      → run step s input ≡ err (raised x)
  unfolding run
  run_raised s [] x h e = absurd (omega arith)
  run_raised s (b ∷ bs) x h e = rw (e, walk)

  module _ (framed : IsFramed step) where
    walk-append :
        (fuel : ℕ) (s : S) (input more : Bytes) (s' : S)
        → length input ≤ fuel
        → walk step fuel s input ≡ ok s'
        → run step s (input ++ more) ≡ run step s' more
    unfolding walk
    walk-append fuel s [] more s' h e = cc
    walk-append zero s (b ∷ bs) more s' h e = absurd (omega arith)
    walk-append (suc fuel) s (b ∷ bs) more s' h e = elim (Result-cases (step s (b ∷ bs))) [
      | inl ((t, rest), r) ↦
          run_step s _ t (rest ++ more) (framed s (b ∷ bs) t rest more r)
          ∙ walk-append fuel t rest more s' (omega (arith, shrinks s _ t rest r))
              (rw (r, walk) at e)
      | inr (x, r) ↦ cc (rw (r, walk) at e)
    ]

    -- The loop over two pieces is the loop over the first, then over the second.
    pub run-append :
        (s : S) (input more : Bytes) (s' : S)
        → run step s input ≡ ok s'
        → run step s (input ++ more) ≡ run step s' more
    unfolding run
    run-append s input more s' e = walk-append (length input) s input more s' (omega arith) e

-- A change `g` of the state that a round carries along is carried along by the loop.
module _ {ℓ κ} {E : Type ℓ} {S : Type κ} (step : S → Bytes → Result E (S × Bytes)) (g : S → S)
    (carries : (s : S) (input : Bytes)
      → step (g s) input ≡ (step s input >>= λ t. ok (g t.0, t.1))) where
  walk_carries :
      (fuel : ℕ) (s : S) (input : Bytes)
      → walk step fuel (g s) input ≡ (walk step fuel s input >>= λ t. ok (g t))
  unfolding walk
  walk_carries fuel s [] = refl
  walk_carries zero s (b ∷ bs) = refl
  walk_carries (suc fuel) s (b ∷ bs) = elim (Result-cases (step s (b ∷ bs))) [
    | inl ((s', rest), e) ↦ rw (carries s (b ∷ bs), e, walk) (walk_carries fuel s' rest)
    | inr (x, e) ↦ rw (carries s (b ∷ bs), e, walk)
  ]

  pub run_carries :
      (s : S) (input : Bytes) → run step (g s) input ≡ (run step s input >>= λ t. ok (g t))
  unfolding run
  run_carries s input = walk_carries (length input) s input
