-- ===== src/BTreeMap/Removal.antt =====
-- What a loop of removals leaves: exactly the entries of the other keys.
use microdot.Base.{
  ◌+◌, ◌≡◌, refl, Bool, false, ◌||◌, none, some, List, [], ◌∷◌, All, Pairs, length, if◌then◌else◌,
  arith,
}
use microdot.BTreeMap.{Order, BTreeMap, same_key, get, remove, remove_all}
use microdot.BTreeMap.Laws.{IsAscending, remove-IsAscending, get-remove, length-remove}

module _ {ℓ} {K : Type ℓ} ⦃o : Order K⦄ where
  abbrev pub contains : K → List K → Bool
  contains k [] = false
  contains k (j ∷ ks) = same_key k j || contains k ks

module _ {ℓ κ} {K : Type ℓ} {V : Type κ} ⦃o : Order K⦄ where
  pub remove_all-IsAscending :
      (ks : List K) (m : BTreeMap K V) → IsAscending m → IsAscending (remove_all ks m)
  unfolding remove_all
  remove_all-IsAscending [] m h = h
  remove_all-IsAscending (k ∷ ks) m h =
      remove_all-IsAscending ks (remove k m) (remove-IsAscending k m h)

  pub get-remove_all :
      (j : K) (ks : List K) (m : BTreeMap K V)
      → IsAscending m
      → get j (remove_all ks m) ≡ (if contains j ks then none else get j m)
  unfolding remove_all
  get-remove_all j [] m h = refl
  get-remove_all j (k ∷ ks) m h =
      ground
        (arith, get-remove j k m h, get-remove_all j ks (remove k m) (remove-IsAscending k m h))

  -- `k` is found in the map.
  abbrev pub IsKey : BTreeMap K V → K → Type κ
  IsKey m k = (v : V) × (get k m ≡ some v)

  stay_keys :
      (k : K) (ks : List K) (m : BTreeMap K V)
      → IsAscending m
      → All (λ j. same_key k j ≡ false) ks
      → All (IsKey m) ks
      → All (IsKey (remove k m)) ks
  stay_keys k [] m h d p = tt
  stay_keys k (j ∷ ks) m h (e, d) ((v, q), p) = (
    (v, ground (arith, get-remove j k m h, e, q, o.cmp-eq j k, o.cmp_refl k)),
    stay_keys k ks m h d p,
  )

  -- Each removal of a key that is there makes the map smaller by one.
  pub length-remove_all :
      (ks : List K) (m : BTreeMap K V)
      → IsAscending m
      → Pairs (λ a b. same_key a b ≡ false) ks
      → All (IsKey m) ks
      → length (remove_all ks m) + length ks ≡ length m
  unfolding remove_all
  length-remove_all [] m h d p = omega arith
  length-remove_all (k ∷ ks) m h (e, d) ((v, q), p) =
      let rest =
        length-remove_all ks (remove k m) (remove-IsAscending k m h) d (stay_keys k ks m h e p) in
      ground (arith, rest, q, length-remove k m)
