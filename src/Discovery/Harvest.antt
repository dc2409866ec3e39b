-- ===== src/Discovery/Harvest.antt =====
-- What a burst leaves of the pool (src/discovery.rs, `discovery_burst`).
use microdot.Base.{
  ℕ, ◌+◌, ◌≤◌, ◌≡◌, refl, sym, ap, ◌∙◌, inl, inr, Bool, true, false, Option, none, some, List, [],
  ◌∷◌, ◌++◌, Bytes, if◌then◌else◌, Result-cases, Bool-cases, arith, leb, le→leb,
}
use microdot.Text.{Text}
use microdot.BTreeMap.{get, same_key, text_order}
use microdot.PeerPool.{PeerEntry, PeerPool, observe, evict_to_capacity, len, max_pool_size}
use microdot.PeerPool.Reputation.{IsValid, observed, get-observe}
use microdot.PeerPool.Invariant.{observe-IsValid, perform-IsValid, evicting}
use microdot.PeerPool.Eviction.{length-evict_to_capacity, evict_to_capacity_keeps}
use microdot.Kad.Message.{DiscoveredPeer}
use microdot.Discovery.{Link, ProbeOutcome, observe_peers, fold_outcomes, join_all, discovery_burst}
use microdot.Discovery.Report.{peers_in}

-- the peers that the answers name, in order
abbrev pub harvest : List ProbeOutcome → List DiscoveredPeer
harvest [] = []
harvest (o ∷ outcomes) = peers_in (o.result) ++ harvest outcomes

abbrev pub observe_all : ℕ → List DiscoveredPeer → PeerPool → PeerPool
observe_all now [] pool = pool
observe_all now (p ∷ peers) pool =
    observe_all now peers (observe (p.peer_id_base58) (p.wss_url) now pool)

abbrev pub names : Text → List DiscoveredPeer → Bool
names j [] = false
names j (p ∷ peers) = if same_key j (p.peer_id_base58) then true else names j peers

observe_all-append :
    (now : ℕ) (xs ys : List DiscoveredPeer) (pool : PeerPool)
    → observe_all now (xs ++ ys) pool ≡ observe_all now ys (observe_all now xs pool)
observe_all-append now [] ys pool = refl
observe_all-append now (x ∷ xs) ys pool = observe_all-append now xs ys _

observe_all-IsValid :
    (now : ℕ) (peers : List DiscoveredPeer) (pool : PeerPool)
    → IsValid pool
    → IsValid (observe_all now peers pool)
observe_all-IsValid now [] pool h = h
observe_all-IsValid now (p ∷ peers) pool h =
    observe_all-IsValid now peers _ (observe-IsValid (p.peer_id_base58) (p.wss_url) now pool h)

-- Observations leave alone the peers that they do not name.
pub get-observe_all_other :
    (j : Text) (now : ℕ) (peers : List DiscoveredPeer) (pool : PeerPool)
    → names j peers ≡ false
    → get j (observe_all now peers pool) ≡ get j pool
get-observe_all_other j now [] pool h = refl
get-observe_all_other j now (p ∷ peers) pool h =
    get-observe_all_other j now peers _ (ground (arith, h))
    ∙ ground (arith, h, get-observe j (p.peer_id_base58) (p.wss_url) now pool)

observed-last_seen :
    (url : Text) (now : ℕ) (o : Option PeerEntry) → (observed url now o).last_seen_unix_ms ≡ now
observed-last_seen url now none = refl
observed-last_seen url now (some e) = refl

-- A peer seen at `now` stays so.
get-observe_all_seen :
    (j : Text) (now : ℕ) (peers : List DiscoveredPeer) (pool : PeerPool) (e : PeerEntry)
    → get j pool ≡ some e
    → e.last_seen_unix_ms ≡ now
    → (f : PeerEntry) × (get j (observe_all now peers pool) ≡ some f) × (f.last_seen_unix_ms ≡ now)
get-observe_all_seen j now [] pool e g s = (e, g, s)
get-observe_all_seen j now (p ∷ peers) pool e g s =
    let o = get-observe j (p.peer_id_base58) (p.wss_url) now pool in
    elim (Bool-cases (same_key j (p.peer_id_base58))) [
      | inl q ↦
          get-observe_all_seen j now peers _
            (observed (p.wss_url) now (get (p.peer_id_base58) pool)) (ground (arith, o, q))
            (observed-last_seen (p.wss_url) now _)
      | inr q ↦ get-observe_all_seen j now peers _ e (ground (arith, o, q, g)) s
    ]

get-observe_all_named :
    (j : Text) (now : ℕ) (peers : List DiscoveredPeer) (pool : PeerPool)
    → names j peers ≡ true
    → (e : PeerEntry) × (get j (observe_all now peers pool) ≡ some e) × (e.last_seen_unix_ms ≡ now)
get-observe_all_named j now [] pool n = cc
get-observe_all_named j now (p ∷ peers) pool n =
    let o = get-observe j (p.peer_id_base58) (p.wss_url) now pool in
    elim (Bool-cases (same_key j (p.peer_id_base58))) [
      | inl q ↦
          get-observe_all_seen j now peers _
            (observed (p.wss_url) now (get (p.peer_id_base58) pool)) (ground (arith, o, q))
            (observed-last_seen (p.wss_url) now _)
      | inr q ↦ get-observe_all_named j now peers _ (ground (arith, n, q))
    ]

module _ (w : ℕ) (bs58_encode : Bytes → Text) where
  observe_peers-pool :
      (now : ℕ) (peers : List DiscoveredPeer) (pool : PeerPool) (n : ℕ)
      → (observe_peers w bs58_encode now peers (pool, n)).0 ≡ observe_all now peers pool
  observe_peers-pool now [] pool n = refl
  observe_peers-pool now (p ∷ peers) pool n = observe_peers-pool now peers _ (n + 1)

  fold_outcomes-pool :
      (now : ℕ) (outcomes : List ProbeOutcome) (pool : PeerPool) (s n : ℕ)
      → (fold_outcomes w bs58_encode now outcomes (pool, s, n)).0
        ≡ observe_all now (harvest outcomes) pool
  unfolding fold_outcomes
  fold_outcomes-pool now [] pool s n = refl
  fold_outcomes-pool now (o ∷ outcomes) pool s n = elim (Result-cases (o.result)) [
    | inl (peers, e) ↦ rw e (
        fold_outcomes-pool now outcomes _ (s + 1) _
        ∙ ap (observe_all now (harvest outcomes)) (observe_peers-pool now peers pool n)
        ∙ sym (observe_all-append now peers (harvest outcomes) pool))
    | inr (x, e) ↦ rw e (fold_outcomes-pool now outcomes pool s n)
  ]

  discovery_burst-pool :
      (pool : PeerPool) (b : Text × Link) (bootnodes : List (Text × Link)) (prefix : Text) (now : ℕ)
      → (discovery_burst w bs58_encode pool (b ∷ bootnodes) prefix now).0
        ≡ evict_to_capacity
            (observe_all now (harvest (join_all w bs58_encode prefix (b ∷ bootnodes))) pool)
  unfolding discovery_burst
  discovery_burst-pool pool b bootnodes prefix now =
      ap evict_to_capacity
        (fold_outcomes-pool now (join_all w bs58_encode prefix (b ∷ bootnodes)) pool 0 0)

  -- A burst over some bootnode keeps a valid pool valid and leaves at most 50 peers in it.
  pub discovery_burst-IsValid :
      (pool : PeerPool) (b : Text × Link) (bootnodes : List (Text × Link)) (prefix : Text) (now : ℕ)
      → IsValid pool
      → IsValid ((discovery_burst w bs58_encode pool (b ∷ bootnodes) prefix now).0)
        × (len ((discovery_burst w bs58_encode pool (b ∷ bootnodes) prefix now).0) ≤ max_pool_size)
  discovery_burst-IsValid pool b bootnodes prefix now h =
      let peers = harvest (join_all w bs58_encode prefix (b ∷ bootnodes)) in
      let v = observe_all-IsValid now peers pool h in
      rw (discovery_burst-pool pool b bootnodes prefix now) (
        perform-IsValid evicting _ v,
        omega (arith, length-evict_to_capacity (observe_all now peers pool) (v.ascending)),
      )

  -- A peer that no answer names is after a burst as it was before, if it is there at all.
  discovery_burst_unnamed :
      (pool : PeerPool) (b : Text × Link) (bootnodes : List (Text × Link)) (prefix : Text) (now : ℕ)
      (j : Text) (e : PeerEntry)
      → IsValid pool
      → names j (harvest (join_all w bs58_encode prefix (b ∷ bootnodes))) ≡ false
      → get j ((discovery_burst w bs58_encode pool (b ∷ bootnodes) prefix now).0) ≡ some e
      → get j pool ≡ some e
  discovery_burst_unnamed pool b bootnodes prefix now j e h n g =
      let peers = harvest (join_all w bs58_encode prefix (b ∷ bootnodes)) in
      let v = observe_all-IsValid now peers pool h in
      sym (get-observe_all_other j now peers pool n)
      ∙ evict_to_capacity_keeps j e (observe_all now peers pool) (v.ascending)
          (ap (get j) (sym (discovery_burst-pool pool b bootnodes prefix now)) ∙ g)

  -- Every peer that an answer names, a bootnode too, is in the pool after a burst with the time of
  -- the burst, if the pool with all of them has at most 50 peers.
  pub discovery_burst_named :
      (pool : PeerPool) (b : Text × Link) (bootnodes : List (Text × Link)) (prefix : Text) (now : ℕ)
      (j : Text)
      → names j (harvest (join_all w bs58_encode prefix (b ∷ bootnodes))) ≡ true
      → len (observe_all now (harvest (join_all w bs58_encode prefix (b ∷ bootnodes))) pool)
        ≤ max_pool_size
      → (e : PeerEntry) × (get j ((discovery_burst w bs58_encode pool (b ∷ bootnodes) prefix now).0)
          ≡ some e)
        × (e.last_seen_unix_ms ≡ now)
  unfolding evict_to_capacity
  discovery_burst_named pool b bootnodes prefix now j n small =
      let peers = harvest (join_all w bs58_encode prefix (b ∷ bootnodes)) in
      let (e, g, seen) = get-observe_all_named j now peers pool n in
      let fits : leb (len (observe_all now peers pool)) max_pool_size ≡ true = le→leb _ _ small in
      (e, ap (get j) (discovery_burst-pool pool b bootnodes prefix now) ∙ rw fits g, seen)
