-- ===== src/BTreeMap/Laws.antt =====
-- The laws of the map: lookups after a change, and the ascending order of the keys.
use Prim.Native.Nat.{Ordering}
use microdot.Base.{
  suc, ◌≡◌, refl, true, false, inl, inr, none, some, [], ◌∷◌, All, Any, Pairs, length,
  if◌then◌else◌, Bool-cases, Option-cases, arith,
}
use microdot.BTreeMap.{Order, BTreeMap, same_key, get, insert, remove, or_insert, modify}

module _ {ℓ} {K : Type ℓ} ⦃o : Order K⦄ where
  pub same_key_eq : (a b : K) → same_key a b ≡ true → a ≡ b
  same_key_eq a b e = ground (arith, o.cmp-eq a b)

  pub same_key_refl : (a : K) → same_key a a ≡ true
  same_key_refl a = ground (arith, o.cmp_refl a)

module _ {ℓ κ} {K : Type ℓ} {V : Type κ} ⦃o : Order K⦄ where
  -- `k` lies below every key.
  abbrev pub IsBelow : K → BTreeMap K V → Type 0
  IsBelow k [] = Unit {0}
  IsBelow k ((j, v) ∷ m) = (o.cmp k j ≡ Ordering.lt) × IsBelow k m

  abbrev pub IsAscending : BTreeMap K V → Type 0
  IsAscending [] = Unit {0}
  IsAscending ((k, v) ∷ m) = IsBelow k m × IsAscending m

  pub get-insert :
      (j k : K) (v : V) (m : BTreeMap K V)
      → get j (insert k v m) ≡ (if same_key j k then some v else get j m)
  unfolding get insert
  get-insert j k v [] = ground arith
  get-insert j k v ((i, w) ∷ m) = ground (
    arith,
    o.cmp-eq j k,
    o.cmp-eq k i,
    o.cmp-eq j i,
    o.cmp_refl j,
    o.cmp_refl k,
    get-insert j k v m,
  )

  pub IsBelow-trans :
      (a b : K) (m : BTreeMap K V) → o.cmp a b ≡ Ordering.lt → IsBelow b m → IsBelow a m
  IsBelow-trans a b [] e h = tt
  IsBelow-trans a b ((k, v) ∷ m) e (hk, h) = (o.cmp_trans a b k e hk, IsBelow-trans a b m e h)

  insert-IsBelow :
      (a k : K) (v : V) (m : BTreeMap K V)
      → o.cmp a k ≡ Ordering.lt
      → IsBelow a m
      → IsBelow a (insert k v m)
  unfolding insert
  insert-IsBelow a k v [] e h = (e, tt)
  insert-IsBelow a k v ((j, w) ∷ m) e (hj, h) = ground (arith, insert-IsBelow a k v m e h)

  pub insert-IsAscending :
      (k : K) (v : V) (m : BTreeMap K V) → IsAscending m → IsAscending (insert k v m)
  unfolding insert
  insert-IsAscending k v [] h = (tt, tt)
  insert-IsAscending k v ((j, w) ∷ m) (hj, h) = ground (
    arith,
    o.cmp-eq k j,
    o.cmp_flip k j,
    IsBelow-trans k j m,
    insert-IsBelow j k v m,
    insert-IsAscending k v m h,
  )

  remove-IsBelow : (a k : K) (m : BTreeMap K V) → IsBelow a m → IsBelow a (remove k m)
  unfolding remove
  remove-IsBelow a k [] h = tt
  remove-IsBelow a k ((j, w) ∷ m) (hj, h) = ground (arith, remove-IsBelow a k m h)

  pub remove-IsAscending : (k : K) (m : BTreeMap K V) → IsAscending m → IsAscending (remove k m)
  unfolding remove
  remove-IsAscending k [] h = tt
  remove-IsAscending k ((j, w) ∷ m) (hj, h) =
      ground (arith, remove-IsBelow j k m hj, remove-IsAscending k m h)

  pub get_below : (k : K) (m : BTreeMap K V) → IsBelow k m → get k m ≡ none
  unfolding get
  get_below k [] h = refl
  get_below k ((j, v) ∷ m) (hj, h) = ground (arith, get_below k m h)

  pub get-remove :
      (j k : K) (m : BTreeMap K V)
      → IsAscending m
      → get j (remove k m) ≡ (if same_key j k then none else get j m)
  unfolding get remove
  get-remove j k [] h = ground arith
  get-remove j k ((i, w) ∷ m) (hi, h) = ground (
    arith,
    o.cmp-eq j k,
    o.cmp-eq k i,
    o.cmp-eq j i,
    o.cmp_refl j,
    o.cmp_refl k,
    get_below k m,
    get-remove j k m h,
  )

  -- A new key adds one entry, a present one none.
  pub length-insert :
      (k : K) (v : V) (m : BTreeMap K V)
      → IsAscending m
      → length (insert k v m) ≡ (elim (get k m) [ none ↦ suc (length m) | some _ ↦ length m ])
  unfolding get insert
  length-insert k v [] h = refl
  length-insert k v ((j, w) ∷ m) (hj, h) =
      ground (arith, get_below k m, IsBelow-trans k j m, length-insert k v m h)

  -- A present key takes one entry away.
  pub length-remove :
      (k : K) (m : BTreeMap K V)
      → length m
        ≡ (elim (get k m) [ none ↦ length (remove k m) | some _ ↦ suc (length (remove k m)) ])
  unfolding get remove
  length-remove k [] = refl
  length-remove k ((j, w) ∷ m) = ground (arith, length-remove k m)

  pub get-or_insert :
      (j k : K) (v : V) (m : BTreeMap K V)
      → get j (or_insert k v m)
        ≡ (if same_key j k then (elim (get k m) [ none ↦ some v | some w ↦ some w ]) else get j m)
  unfolding or_insert
  get-or_insert j k v m = ground (arith, get-insert j k v m, o.cmp-eq j k)

  pub get-modify :
      (j k : K) (f : V → V) (m : BTreeMap K V)
      → get j (modify k f m)
        ≡ (if same_key j k then (elim (get k m) [ none ↦ none | some w ↦ some (f w) ]) else get j m)
  unfolding modify
  get-modify j k f m = elim (Option-cases (get k m)) [
    | inl e ↦ ground (arith, e, o.cmp-eq j k)
    | inr (v, e) ↦ ground (arith, e, get-insert j k (f v) m, o.cmp-eq j k)
  ]

  pub or_insert-IsAscending :
      (k : K) (v : V) (m : BTreeMap K V) → IsAscending m → IsAscending (or_insert k v m)
  unfolding or_insert
  or_insert-IsAscending k v m h = ground (arith, insert-IsAscending k v m h)

  pub modify-IsAscending :
      (k : K) (f : V → V) (m : BTreeMap K V) → IsAscending m → IsAscending (modify k f m)
  unfolding modify
  modify-IsAscending k f m h = elim (Option-cases (get k m)) [
    | inl e ↦ ground (arith, e)
    | inr (v, e) ↦ ground (arith, e, insert-IsAscending k (f v) m h)
  ]

  -- A modification is of a key that is there, so the size stays.
  pub length-modify :
      (k : K) (f : V → V) (m : BTreeMap K V) → IsAscending m → length (modify k f m) ≡ length m
  unfolding modify
  length-modify k f m h = elim (Option-cases (get k m)) [
    | inl e ↦ ground (arith, e)
    | inr (v, e) ↦ ground (arith, e, length-insert k (f v) m h)
  ]

  pub get-remove-none :
      (j k : K) (m : BTreeMap K V) → IsAscending m → get j m ≡ none → get j (remove k m) ≡ none
  get-remove-none j k m h e = ground (arith, get-remove j k m h)

  -- An entry of `l` is found in every map that finds what `l` finds.
  entries_found :
      (l m : BTreeMap K V)
      → IsAscending l
      → ((k : K) (v : V) → get k l ≡ some v → get k m ≡ some v)
      → All (λ (x : K × V). get (x.0) m ≡ some (x.1)) l
  unfolding get
  entries_found [] m h f = tt
  entries_found ((k, v) ∷ l) m (hk, h) f = (
    f k v (ground (arith, o.cmp_refl k)),
    entries_found l m h λ j w e. f j w (ground (arith, e, o.cmp-eq j k, get_below k l hk)),
  )

  -- The entries of an ascending map are what its keys are found with.
  pub get-All : (m : BTreeMap K V) → IsAscending m → All (λ (x : K × V). get (x.0) m ≡ some (x.1)) m
  get-All m h = entries_found m m h λ k v e. e

  below_distinct :
      (k : K) (m : BTreeMap K V) → IsBelow k m → All (λ (x : K × V). same_key k (x.0) ≡ false) m
  below_distinct k [] h = tt
  below_distinct k ((j, v) ∷ m) (e, h) = (ground (arith, e), below_distinct k m h)

  -- No key comes twice.
  pub keys_distinct :
      (m : BTreeMap K V) → IsAscending m → Pairs (λ (x y : K × V). same_key (x.0) (y.0) ≡ false) m
  keys_distinct [] h = tt
  keys_distinct ((k, v) ∷ m) (hk, h) = (below_distinct k m hk, keys_distinct m h)

module _ {K V : Type 0} ⦃o : Order K⦄ where
  -- What a key is found with is an entry.
  pub get-Any :
      (k : K) (v : V) (m : BTreeMap K V) → get k m ≡ some v → Any (λ (x : K × V). x ≡ (k, v)) m
  unfolding get
  get-Any k v [] e = cc
  get-Any k v ((j, w) ∷ m) e = elim (Bool-cases (same_key k j)) [
    | inl s ↦ inl (ground (arith, e, s, o.cmp-eq k j))
    | inr s ↦ inr (get-Any k v m (ground (arith, e, s)))
  ]
