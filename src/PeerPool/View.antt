-- ===== src/PeerPool/View.antt =====
-- The abstract pool: what is known of each peer. The operations of src/peer_pool.rs implement it.
use microdot.Base.{
  ℕ, ◌+◌, ◌%◌, ◌^◌, min, leb, ◌≡◌, refl, sym, Option, none, some, List, [], ◌∷◌, length,
  if◌then◌else◌, arith,
}
use microdot.Text.{Text}
use microdot.BTreeMap.{same_key, get, text_order}
use microdot.BTreeMap.Laws.{IsAscending}
use microdot.BTreeMap.Removal.{contains, get-remove_all}
use microdot.PeerPool.{PeerEntry, PeerPool, succeeded, failed, purge_peers, evict_to_capacity}
use microdot.PeerPool.Eviction.{
  evict_to_capacity_keeps, evict_to_capacity_keeps_best, length-evict_to_capacity,
}
use microdot.PeerPool.Invariant.{
  Operation, observing, succeeding, failing, purging, evicting, perform, perform-IsValid,
}
use microdot.PeerPool.Ranking.{IsAtLeast}
use microdot.PeerPool.Reputation.{
  IsValid, observed, map_option, get-observe, get-record_success, get-record_failure,
}

-- The order in which a pool keeps its peers is forgotten.
abbrev pub View : Type 0
View = Text → Option PeerEntry

abbrev pub view : PeerPool → View
view pool id = get id pool

-- What is known of a peer after a sighting: the url and the time, with its reputation kept or, for
-- a new peer, none.
abbrev pub sighted : Text → ℕ → Option PeerEntry → PeerEntry
sighted url now none = record {
  wss_url = url;
  successes = 0;
  failures = 0;
  last_seen_unix_ms = now;
  quarantined_until_unix_ms = none;
}
sighted url now (some e) = record e { wss_url = url; last_seen_unix_ms = now }

-- After a success of a known peer: one success more, which stays below 2 ^ 32, the time, and no
-- failure and no quarantine.
abbrev pub praised : ℕ → Option PeerEntry → Option PeerEntry
praised now none = none
praised now (some e) = some (record e {
  successes = min (e.successes + 1) 4294967295;
  failures = 0;
  last_seen_unix_ms = now;
  quarantined_until_unix_ms = none;
})

-- After a failure of a known peer: one failure more; from the third in a row on a quarantine of five
-- minutes; the time of the last sighting stays.
abbrev pub blamed : ℕ → Option PeerEntry → Option PeerEntry
blamed now none = none
blamed now (some e) = some (record e {
  failures = min (e.failures + 1) 4294967295;
  quarantined_until_unix_ms =
      (if leb 2 (e.failures) then some ((now + 300000) % 2 ^ 64) else e.quarantined_until_unix_ms);
})

-- `n` peers are known.
abbrev pub HasSize : View → ℕ → Type 0
HasSize v n =
    (pool : PeerPool) × IsAscending pool × (length pool ≡ n) × ((j : Text) → get j pool ≡ v j)

-- What an operation does to what is known. An eviction leaves the smaller of 50 and the number of
-- peers there were, as they were, and forgets nobody who is better than one it keeps; the others
-- are functions.
abbrev pub Allows : Operation → View → View → Type 0
Allows (observing id url now) v v' =
    (j : Text) → v' j ≡ (if same_key j id then some (sighted url now (v id)) else v j)
Allows (succeeding id now) v v' =
    (j : Text) → v' j ≡ (if same_key j id then praised now (v id) else v j)
Allows (failing id now) v v' =
    (j : Text) → v' j ≡ (if same_key j id then blamed now (v id) else v j)
Allows (purging ids) v v' = (j : Text) → v' j ≡ (if contains j ids then none else v j)
Allows evicting v v' =
    ((n : ℕ) × HasSize v n × HasSize v' (min n 50))
    × ((k : Text) (f : PeerEntry) → v' k ≡ some f → v k ≡ some f)
    × ((k j : Text) (f e : PeerEntry) → v' k ≡ some f → v j ≡ some e → v' j ≡ none → IsAtLeast f e)

-- The views that a list of operations may lead through.
abbrev pub Leads : List Operation → View → View → Type 0
Leads [] v v' = (j : Text) → v' j ≡ v j
Leads (op ∷ ops) v v' = (u : View) × Allows op v u × Leads ops u v'

abbrev pub perform_all : List Operation → PeerPool → PeerPool
perform_all [] pool = pool
perform_all (op ∷ ops) pool = perform_all ops (perform op pool)

observed-sighted :
    (url : Text) (now : ℕ) (o : Option PeerEntry) → observed url now o ≡ sighted url now o
observed-sighted url now none = refl
observed-sighted url now (some e) = refl

succeeded-praised : (now : ℕ) (o : Option PeerEntry) → map_option (succeeded now) o ≡ praised now o
succeeded-praised now none = refl
succeeded-praised now (some e) = refl

-- Three failures, with the one that is recorded, are two before it.
threshold : (n : ℕ) → leb 3 (min (n + 1) 4294967295) ≡ leb 2 n
threshold n = ground arith

failed-blamed : (now : ℕ) (o : Option PeerEntry) → map_option (failed now) o ≡ blamed now o
failed-blamed now none = refl
failed-blamed now (some e) = rw (threshold (e.failures)) refl

perform-Allows :
    (op : Operation) (pool : PeerPool)
    → IsValid pool
    → Allows op (view pool) (view (perform op pool))
unfolding purge_peers
perform-Allows (observing id url now) pool h =
    λ j. rw (sym (observed-sighted url now (get id pool))) (get-observe j id url now pool)
perform-Allows (succeeding id now) pool h =
    λ j. rw (sym (succeeded-praised now (get id pool))) (get-record_success j id now pool)
perform-Allows (failing id now) pool h =
    λ j. rw (sym (failed-blamed now (get id pool))) (get-record_failure j id now pool)
perform-Allows (purging ids) pool h = λ j. get-remove_all j ids pool (h.ascending)
perform-Allows evicting pool h = (
  (
    length pool,
    (pool, h.ascending, refl, λ j. refl),
    (
      evict_to_capacity pool,
      (perform-IsValid evicting pool h).ascending,
      length-evict_to_capacity pool (h.ascending),
      λ j. refl,
    ),
  ),
  λ k f. evict_to_capacity_keeps k f pool (h.ascending),
  λ k j f e g p q. (evict_to_capacity_keeps_best pool k j f e (h.ascending) g p q).1,
)

-- The pool implements the abstract one: from a valid pool, every list of operations leads its view
-- to a view that the specification allows step by step.
pub perform_all-Leads :
    (ops : List Operation) (pool : PeerPool)
    → IsValid pool
    → Leads ops (view pool) (view (perform_all ops pool))
perform_all-Leads [] pool h = λ j. refl
perform_all-Leads (op ∷ ops) pool h = (
  view (perform op pool),
  perform-Allows op pool h,
  perform_all-Leads ops (perform op pool) (perform-IsValid op pool h),
)
