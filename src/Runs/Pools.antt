-- ===== src/Runs/Pools.antt =====
-- Runs of the pool of src/peer_pool.rs.
use microdot.Base.{ℕ, zero, suc, min, ◌≡◌, refl, none, some, List, [], ◌∷◌, Pairs}
use microdot.Text.{Text, text}
use microdot.BTreeMap.{get, insert, or_insert, modify, remove_all, remove, text_order}
use microdot.BTreeMap.Laws.{IsAscending}
use microdot.Base.Sort.{sort_by, insert_by}
use microdot.PeerPool.{
  PeerEntry, PeerPool, new, observe, record_failure, ranked_available, evict_to_capacity, len,
  fresh_entry,
}
use microdot.PeerPool.Reputation.{IsValid}
use microdot.PeerPool.Invariant.{
  Operation, observing, failing, purging, evicting, Reaches, Reaches-IsValid, here, after,
}
use microdot.PeerPool.View.{view, Leads, perform_all, perform_all-Leads}
use microdot.PeerPool.Ranking.{IsAtLeast, ranked_available_sorted}
use microdot.PeerPool.Eviction.{length-evict_to_capacity, evict_to_capacity_keeps_best}

abbrev url : Text
url = text "u"

abbrev good : PeerEntry
good = record {
  wss_url = url;
  successes = 4;
  failures = 1;
  last_seen_unix_ms = 7;
  quarantined_until_unix_ms = none;
}

abbrev poor : PeerEntry
poor = record {
  wss_url = url;
  successes = 0;
  failures = 3;
  last_seen_unix_ms = 9;
  quarantined_until_unix_ms = some 20;
}

abbrev two : PeerPool
two = (text "a", poor) ∷ (text "b", good) ∷ []

two-IsAscending : IsAscending two
two-IsAscending = ((refl, tt), (tt, tt))

get-poor : get (text "a") two ≡ some poor
unfolding get
get-poor = refl

get-good : get (text "b") two ≡ some good
unfolding get
get-good = refl

ranked_available_sorted_example : Pairs (λ x y. IsAtLeast (x.1) (y.1)) (ranked_available 20 two)
ranked_available_sorted_example = ranked_available_sorted 20 two

-- one peer after the other, of the ids 1 to n
abbrev crowd : ℕ → PeerPool
crowd zero = new
crowd (suc n) = observe (suc n ∷ []) url n (crowd n)

crowd-Reaches : (n : ℕ) → Reaches new (crowd n)
crowd-Reaches zero = here
crowd-Reaches (suc n) = after (observing (suc n ∷ []) url n) (crowd-Reaches n)

Reaches-IsValid_example : IsValid (record_failure (2 ∷ []) 9 (crowd 3))
Reaches-IsValid_example = Reaches-IsValid (after (failing (2 ∷ []) 9) (crowd-Reaches 3))

length-evict_to_capacity_example : len (evict_to_capacity (crowd 51)) ≡ min (len (crowd 51)) 50
length-evict_to_capacity_example =
    length-evict_to_capacity (crowd 51) ((Reaches-IsValid (crowd-Reaches 51)).ascending)

evict_to_capacity_keeps_best_example :
    (get (2 ∷ []) (crowd 51) ≡ some (fresh_entry url 1))
    × IsAtLeast (fresh_entry url 1) (fresh_entry url 0)
unfolding evict_to_capacity observe get insert or_insert modify sort_by insert_by remove_all remove
evict_to_capacity_keeps_best_example =
    evict_to_capacity_keeps_best (crowd 51) (2 ∷ []) (1 ∷ []) (fresh_entry url 1)
      (fresh_entry url 0) ((Reaches-IsValid (crowd-Reaches 51)).ascending) refl refl refl

abbrev busy : List Operation
busy = observing (2 ∷ []) url 8 ∷ failing (1 ∷ []) 9 ∷ evicting ∷ purging ((3 ∷ []) ∷ []) ∷ []

perform_all-Leads_example : Leads busy (view (crowd 3)) (view (perform_all busy (crowd 3)))
perform_all-Leads_example = perform_all-Leads busy (crowd 3) (Reaches-IsValid (crowd-Reaches 3))
