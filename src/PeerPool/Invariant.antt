-- ===== src/PeerPool/Invariant.antt =====
-- The invariant of the pool over every sequence of its operations (src/peer_pool.rs).
use microdot.Base.{
  ℕ, inl, inr, Bool, true, false, Option, none, some, List, Bool-cases, leb, if◌then◌else◌,
}
use microdot.Text.{Text}
use microdot.BTreeMap.{same_key, get, remove_all, text_order}
use microdot.BTreeMap.Laws.{modify-IsAscending, or_insert-IsAscending}
use microdot.BTreeMap.Removal.{contains, get-remove_all, remove_all-IsAscending}
use microdot.PeerPool.{
  PeerEntry, PeerPool, new, seen, succeeded, failed, observe, record_success, record_failure,
  purge_peers, evict_to_capacity, len, max_pool_size,
}
use microdot.PeerPool.Reputation.{
  IsValid, FoundIsValid, EntryIsValid, observed, map_option, get-observe, get-record_success,
  get-record_failure, fresh_entry-EntryIsValid, seen-EntryIsValid, succeeded-EntryIsValid,
  failed-EntryIsValid,
}

observed-EntryIsValid :
    (url : Text) (now : ℕ) (o : Option PeerEntry)
    → FoundIsValid o
    → EntryIsValid (observed url now o)
observed-EntryIsValid url now none h = fresh_entry-EntryIsValid url now
observed-EntryIsValid url now (some e) h = seen-EntryIsValid url now e h

map_option-FoundIsValid :
    (f : PeerEntry → PeerEntry)
    → ((e : PeerEntry) → EntryIsValid e → EntryIsValid (f e))
    → (o : Option PeerEntry) → FoundIsValid o
    → FoundIsValid (map_option f o)
map_option-FoundIsValid f k none h = tt
map_option-FoundIsValid f k (some e) h = k e h

if-FoundIsValid :
    (b : Bool) (x y : Option PeerEntry)
    → FoundIsValid x
    → FoundIsValid y
    → FoundIsValid (if b then x else y)
if-FoundIsValid true x y hx hy = hx
if-FoundIsValid false x y hx hy = hy

pub observe-IsValid :
    (id url : Text) (now : ℕ) (pool : PeerPool) → IsValid pool → IsValid (observe id url now pool)
unfolding observe
observe-IsValid id url now pool h = record {
  ascending =
      modify-IsAscending id (seen url now) _ (or_insert-IsAscending id _ pool (h.ascending));
  found = λ j. rw (get-observe j id url now pool) (
      if-FoundIsValid (same_key j id) _ _ (observed-EntryIsValid url now (get id pool) (h.found id))
        (h.found j));
}

pub record_success-IsValid :
    (id : Text) (now : ℕ) (pool : PeerPool) → IsValid pool → IsValid (record_success id now pool)
unfolding record_success
record_success-IsValid id now pool h = record {
  ascending = modify-IsAscending id (succeeded now) pool (h.ascending);
  found = λ j. rw (get-record_success j id now pool) (
      if-FoundIsValid (same_key j id) _ _
        (map_option-FoundIsValid (succeeded now) (succeeded-EntryIsValid now) (get id pool)
          (h.found id))
        (h.found j));
}

pub record_failure-IsValid :
    (id : Text) (now : ℕ) (pool : PeerPool) → IsValid pool → IsValid (record_failure id now pool)
unfolding record_failure
record_failure-IsValid id now pool h = record {
  ascending = modify-IsAscending id (failed now) pool (h.ascending);
  found = λ j. rw (get-record_failure j id now pool) (
      if-FoundIsValid (same_key j id) _ _
        (map_option-FoundIsValid (failed now) (failed-EntryIsValid now) (get id pool) (h.found id))
        (h.found j));
}

remove_all-IsValid :
    (ids : List Text) (pool : PeerPool) → IsValid pool → IsValid (remove_all ids pool)
remove_all-IsValid ids pool h = record {
  ascending = remove_all-IsAscending ids pool (h.ascending);
  found = λ j.
      rw (get-remove_all j ids pool (h.ascending))
        (if-FoundIsValid (contains j ids) none _ tt (h.found j));
}

evict_to_capacity-IsValid : (pool : PeerPool) → IsValid pool → IsValid (evict_to_capacity pool)
unfolding evict_to_capacity
evict_to_capacity-IsValid pool h = elim (Bool-cases (leb (len pool) max_pool_size)) [
  | inl e ↦ rw e h
  | inr e ↦ rw e (remove_all-IsValid _ pool h)
]

-- the operations that change a pool
pub data Operation : Type 0 where
  observing : Text → Text → ℕ → Operation
  succeeding : Text → ℕ → Operation
  failing : Text → ℕ → Operation
  purging : List Text → Operation
  evicting : Operation

abbrev pub perform : Operation → PeerPool → PeerPool
perform (observing id url now) pool = observe id url now pool
perform (succeeding id now) pool = record_success id now pool
perform (failing id now) pool = record_failure id now pool
perform (purging ids) pool = purge_peers ids pool
perform evicting pool = evict_to_capacity pool

pub perform-IsValid : (op : Operation) (pool : PeerPool) → IsValid pool → IsValid (perform op pool)
unfolding purge_peers
perform-IsValid (observing id url now) pool h = observe-IsValid id url now pool h
perform-IsValid (succeeding id now) pool h = record_success-IsValid id now pool h
perform-IsValid (failing id now) pool h = record_failure-IsValid id now pool h
perform-IsValid (purging ids) pool h = remove_all-IsValid ids pool h
perform-IsValid evicting pool h = evict_to_capacity-IsValid pool h

-- The pools that the operations lead to from `pool`.
pub data Reaches (pool : PeerPool) : PeerPool → Type 0 where
  here : Reaches pool pool
  after : {p : PeerPool} (op : Operation) → Reaches pool p → Reaches pool (perform op p)

-- Every pool that a sequence of operations makes from the empty one has its keys in ascending
-- order, its counters within 32 bits, and a quarantine time on exactly the peers with three or
-- more consecutive failures.
pub Reaches-IsValid : {p : PeerPool} → Reaches new p → IsValid p
unfolding get
Reaches-IsValid here = record { ascending = tt; found = λ j. tt }
Reaches-IsValid (after op r) = perform-IsValid op _ (Reaches-IsValid r)
