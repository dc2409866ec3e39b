-- ===== src/PeerPool.antt =====
-- src/peer_pool.rs: the pool of peers with its reputation counters, keyed by peer id.
pub mod Reputation
pub mod Invariant
pub mod Ranking
pub mod Eviction
pub mod View
use Prim.Native.Nat.{Ordering, compare}
use microdot.Base.{
  ℕ, ◌+◌, ◌-◌, ◌*◌, ◌%◌, ◌^◌, min, Bool, true, false, Option, none, some, List, [], ◌∷◌, map,
  length, take, leb, if◌then◌else◌,
}
use microdot.Base.Int.{ℤ, pos, ◌-ℤ◌, cmp_ℤ, then_with}
use microdot.Base.Sort.{sort_by}
use microdot.Text.{Text}
use microdot.BTreeMap.{BTreeMap, or_insert, modify, remove_all, text_order}

abbrev pub max_pool_size : ℕ
max_pool_size = 50

abbrev pub quarantine_fail_threshold : ℕ
quarantine_fail_threshold = 3

abbrev pub quarantine_duration_ms : ℕ
quarantine_duration_ms = 5 * 60 * 1000

pub record PeerEntry : Type 0 where
  pub wss_url : Text
  pub successes : ℕ
  pub failures : ℕ
  pub last_seen_unix_ms : ℕ
  pub quarantined_until_unix_ms : Option ℕ

abbrev pub score : PeerEntry → ℤ
score e = pos (e.successes) -ℤ pos (2 * e.failures)

unfoldable pub is_available : ℕ → PeerEntry → Bool
is_available now_ms e = elim (e.quarantined_until_unix_ms) [
  | none ↦ true
  | some until ↦ leb until now_ms
]

abbrev pub PeerPool : Type 0
PeerPool = BTreeMap Text PeerEntry

abbrev pub new : PeerPool
new = []

abbrev pub len : PeerPool → ℕ
len = length

abbrev pub is_empty : PeerPool → Bool
is_empty [] = true
is_empty (x ∷ pool) = false

-- the entry `or_insert` puts in for an unknown peer
abbrev pub fresh_entry : Text → ℕ → PeerEntry
fresh_entry url now_ms = record {
  wss_url = url;
  successes = 0;
  failures = 0;
  last_seen_unix_ms = now_ms;
  quarantined_until_unix_ms = none;
}

-- the two assignments after it
abbrev pub seen : Text → ℕ → PeerEntry → PeerEntry
seen url now_ms e = record {
  wss_url = url;
  successes = e.successes;
  failures = e.failures;
  last_seen_unix_ms = now_ms;
  quarantined_until_unix_ms = e.quarantined_until_unix_ms;
}

unfoldable pub observe : Text → Text → ℕ → PeerPool → PeerPool
observe id url now_ms pool =
    modify id (seen url now_ms) (or_insert id (fresh_entry url now_ms) pool)

abbrev pub filter_available : ℕ → PeerPool → List (Text × PeerEntry)
filter_available now_ms [] = []
filter_available now_ms ((id, e) ∷ pool) =
    let rest = filter_available now_ms pool in
    if is_available now_ms e then (id, e) ∷ rest else rest

-- the better score first, then the later sighting
abbrev pub by_rank : Text × PeerEntry → Text × PeerEntry → Ordering
by_rank (i, a) (j, b) =
    then_with (cmp_ℤ (score b) (score a)) (compare (b.last_seen_unix_ms) (a.last_seen_unix_ms))

unfoldable pub ranked_available : ℕ → PeerPool → List (Text × PeerEntry)
ranked_available now_ms pool = sort_by by_rank (filter_available now_ms pool)

abbrev pub first {ℓ} : {A : Type ℓ} → List A → Option A
first [] = none
first (x ∷ xs) = some x

unfoldable pub pick_best : ℕ → PeerPool → Option (Text × PeerEntry)
pick_best now_ms pool = first (ranked_available now_ms pool)

-- `saturating_add(1)` on `u32`
abbrev pub saturating_suc : ℕ → ℕ
saturating_suc n = min (n + 1) (2 ^ 32 - 1)

abbrev pub succeeded : ℕ → PeerEntry → PeerEntry
succeeded now_ms e = record {
  wss_url = e.wss_url;
  successes = saturating_suc (e.successes);
  failures = 0;
  last_seen_unix_ms = now_ms;
  quarantined_until_unix_ms = none;
}

unfoldable pub record_success : Text → ℕ → PeerPool → PeerPool
record_success id now_ms pool = modify id (succeeded now_ms) pool

abbrev pub failed : ℕ → PeerEntry → PeerEntry
failed now_ms e = record {
  wss_url = e.wss_url;
  successes = e.successes;
  failures = saturating_suc (e.failures);
  last_seen_unix_ms = e.last_seen_unix_ms;
  quarantined_until_unix_ms =
      (if leb quarantine_fail_threshold (saturating_suc (e.failures))
        then some ((now_ms + quarantine_duration_ms) % 2 ^ 64)
        else e.quarantined_until_unix_ms);
}

unfoldable pub record_failure : Text → ℕ → PeerPool → PeerPool
record_failure id now_ms pool = modify id (failed now_ms) pool

unfoldable pub purge_peers : List Text → PeerPool → PeerPool
purge_peers peer_ids pool = remove_all peer_ids pool

-- what `evict_to_capacity` sorts
abbrev pub standing : Text × PeerEntry → Text × ℤ × ℕ
standing (id, e) = (id, score e, e.last_seen_unix_ms)

-- the lower score first, then the older sighting
abbrev pub by_worth : Text × ℤ × ℕ → Text × ℤ × ℕ → Ordering
by_worth (i, a, s) (j, b, t) = then_with (cmp_ℤ a b) (compare s t)

abbrev pub key_of : Text × ℤ × ℕ → Text
key_of (id, s, seen_ms) = id

unfoldable pub evict_to_capacity : PeerPool → PeerPool
evict_to_capacity pool =
    if leb (len pool) max_pool_size
    then pool
    else remove_all
        (map key_of (take (len pool - max_pool_size) (sort_by by_worth (map standing pool)))) pool
