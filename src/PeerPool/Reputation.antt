-- ===== src/PeerPool/Reputation.antt =====
-- What observations and outcomes do to every entry of the pool, and the invariant they keep
-- (src/peer_pool.rs, `observe`, `record_success`, `record_failure`, `purge_peers`).
use microdot.Base.{
  ℕ, ◌+◌, ◌%◌, ◌^◌, ◌≤◌, ◌<◌, ◌≡◌, refl, true, Option, none, some, leb, if◌then◌else◌, arith,
}
use microdot.Text.{Text}
use microdot.BTreeMap.{same_key, get, or_insert, text_order}
use microdot.BTreeMap.Laws.{IsAscending, get-modify, get-or_insert, same_key_refl}
use microdot.PeerPool.{
  PeerEntry, PeerPool, fresh_entry, seen, succeeded, failed, observe, record_success,
  record_failure, quarantine_duration_ms, quarantine_fail_threshold, is_available,
}

-- the entry an observation leaves, from the entry before it
abbrev pub observed : Text → ℕ → Option PeerEntry → PeerEntry
observed url now none = fresh_entry url now
observed url now (some e) = seen url now e

-- After an observation the peer has the url and the time seen, with its reputation kept or, for a
-- new peer, zero; every other peer is as it was.
pub get-observe :
    (j id url : Text) (now : ℕ) (pool : PeerPool)
    → get j (observe id url now pool)
      ≡ (if same_key j id then some (observed url now (get id pool)) else get j pool)
unfolding observe
get-observe j id url now pool = ground (
  arith,
  get-modify j id (seen url now) (or_insert id (fresh_entry url now) pool),
  get-or_insert j id (fresh_entry url now) pool,
  get-or_insert id id (fresh_entry url now) pool,
  same_key_refl id,
)

abbrev pub map_option {ℓ κ} : {A : Type ℓ} {B : Type κ} → (A → B) → Option A → Option B
map_option f none = none
map_option f (some a) = some (f a)

pub get-record_success :
    (j id : Text) (now : ℕ) (pool : PeerPool)
    → get j (record_success id now pool)
      ≡ (if same_key j id then map_option (succeeded now) (get id pool) else get j pool)
unfolding record_success
get-record_success j id now pool = ground (arith, get-modify j id (succeeded now) pool)

pub get-record_failure :
    (j id : Text) (now : ℕ) (pool : PeerPool)
    → get j (record_failure id now pool)
      ≡ (if same_key j id then map_option (failed now) (get id pool) else get j pool)
unfolding record_failure
get-record_failure j id now pool = ground (arith, get-modify j id (failed now) pool)

-- A success makes the peer available at every time.
record_success_available :
    (id : Text) (now later : ℕ) (pool : PeerPool) (e : PeerEntry)
    → get id pool ≡ some e
    → (f : PeerEntry) × (get id (record_success id now pool) ≡ some f)
      × (f.failures ≡ 0)
      × (is_available later f ≡ true)
unfolding is_available
record_success_available id now later pool e h = (
  succeeded now e,
  ground (arith, h, get-record_success id id now pool, same_key_refl id),
  refl,
  refl,
)

-- Three failures in a row make a known peer unavailable until five minutes after the third.
record_failure_thrice :
    (id : Text) (a b c now : ℕ) (pool : PeerPool) (e : PeerEntry)
    → get id pool ≡ some e
    → (f : PeerEntry) × (get id
          (record_failure id c (record_failure id b (record_failure id a pool)))
        ≡ some f)
      × (is_available now f ≡ leb ((c + quarantine_duration_ms) % 2 ^ 64) now)
unfolding is_available
record_failure_thrice id a b c now pool e h = (
  failed c (failed b (failed a e)),
  ground (
    arith,
    h,
    get-record_failure id id a pool,
    get-record_failure id id b (record_failure id a pool),
    get-record_failure id id c (record_failure id b (record_failure id a pool)),
    same_key_refl id,
  ),
  ground arith,
)

abbrev pub IsQuarantined : PeerEntry → Type 0
IsQuarantined e = (until : ℕ) × (e.quarantined_until_unix_ms ≡ some until)

-- counters of 32 bits, and a quarantine exactly from the threshold on
pub record EntryIsValid (e : PeerEntry) : Type 0 where
  pub successes_u32 : e.successes < 2 ^ 32
  pub failures_u32 : e.failures < 2 ^ 32
  pub quarantined : quarantine_fail_threshold ≤ e.failures → IsQuarantined e
  pub not_quarantined : e.failures < quarantine_fail_threshold → e.quarantined_until_unix_ms ≡ none

abbrev pub FoundIsValid : Option PeerEntry → Type 0
FoundIsValid none = Unit {0}
FoundIsValid (some e) = EntryIsValid e

pub record IsValid (pool : PeerPool) : Type 0 where
  pub ascending : IsAscending pool
  pub found : (id : Text) → FoundIsValid (get id pool)

pub fresh_entry-EntryIsValid : (url : Text) (now : ℕ) → EntryIsValid (fresh_entry url now)
fresh_entry-EntryIsValid url now = record {
  successes_u32 = omega arith;
  failures_u32 = omega arith;
  quarantined = λ h. absurd (omega (arith, h));
  not_quarantined = λ h. refl;
}

pub seen-EntryIsValid :
    (url : Text) (now : ℕ) (e : PeerEntry) → EntryIsValid e → EntryIsValid (seen url now e)
seen-EntryIsValid url now e h = record {
  successes_u32 = h.successes_u32;
  failures_u32 = h.failures_u32;
  quarantined = h.quarantined;
  not_quarantined = h.not_quarantined;
}

pub succeeded-EntryIsValid :
    (now : ℕ) (e : PeerEntry) → EntryIsValid e → EntryIsValid (succeeded now e)
succeeded-EntryIsValid now e h = record {
  successes_u32 = omega arith;
  failures_u32 = omega arith;
  quarantined = λ h. absurd (omega (arith, h));
  not_quarantined = λ h. refl;
}

pub failed-EntryIsValid : (now : ℕ) (e : PeerEntry) → EntryIsValid e → EntryIsValid (failed now e)
failed-EntryIsValid now e h = record {
  successes_u32 = h.successes_u32;
  failures_u32 = omega arith;
  quarantined = λ q. ((now + quarantine_duration_ms) % 2 ^ 64, ground (arith, q));
  not_quarantined = λ q. ground (arith, q, h.not_quarantined);
}
