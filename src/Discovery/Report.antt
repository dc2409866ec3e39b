-- ===== src/Discovery/Report.antt =====
-- What a burst reports (src/discovery.rs, `discovery_burst`).
use microdot.Base.{
  ℕ, ◌+◌, ◌≡◌, refl, inl, inr, List, [], ◌∷◌, Bytes, length, Result, ok, err, is_ok, if◌then◌else◌,
  Result-cases, arith,
}
use microdot.Text.{Text}
use microdot.PeerPool.{PeerPool, observe}
use microdot.Kad.Message.{DiscoveredPeer}
use microdot.Discovery.{
  Link, ProbeError, ProbeOutcome, DiscoveryReport, observe_peers, fold_outcomes, join_all,
  discovery_burst,
}

-- how many probes answered
abbrev pub count_ok : List ProbeOutcome → ℕ
count_ok [] = 0
count_ok (o ∷ outcomes) = (if is_ok (o.result) then 1 else 0) + count_ok outcomes

abbrev pub peers_in : Result ProbeError (List DiscoveredPeer) → List DiscoveredPeer
peers_in (ok peers) = peers
peers_in (err e) = []

-- how many peers the answers name
abbrev pub count_peers : List ProbeOutcome → ℕ
count_peers [] = 0
count_peers (o ∷ outcomes) = length (peers_in (o.result)) + count_peers outcomes

abbrev report : List ProbeOutcome → ℕ → ℕ → DiscoveryReport
report outcomes a c = record { outcomes = outcomes; bootnodes_succeeded = a; peers_observed = c }

report_eq :
    (outcomes : List ProbeOutcome) (a b c d : ℕ)
    → a ≡ b
    → c ≡ d
    → report outcomes a c ≡ report outcomes b d
report_eq outcomes a b c d p q = cc

module _ (w : ℕ) (bs58_encode : Bytes → Text) where
  observe_peers-count :
      (now : ℕ) (peers : List DiscoveredPeer) (pool : PeerPool) (n : ℕ)
      → (observe_peers w bs58_encode now peers (pool, n)).1 ≡ length peers + n
  observe_peers-count now [] pool n = omega arith
  observe_peers-count now (p ∷ peers) pool n = omega (
    arith,
    observe_peers-count now peers (observe (p.peer_id_base58) (p.wss_url) now pool) (n + 1),
  )

  fold_outcomes-counts :
      (now : ℕ) (outcomes : List ProbeOutcome) (pool : PeerPool) (s n : ℕ)
      → ((fold_outcomes w bs58_encode now outcomes (pool, s, n)).1 ≡ count_ok outcomes + s)
        × ((fold_outcomes w bs58_encode now outcomes (pool, s, n)).2 ≡ count_peers outcomes + n)
  unfolding fold_outcomes
  fold_outcomes-counts now [] pool s n = (omega arith, omega arith)
  fold_outcomes-counts now (o ∷ outcomes) pool s n = elim (Result-cases (o.result)) [
    | inl (peers, e) ↦
        let next = observe_peers w bs58_encode now peers (pool, n) in
        let rest = fold_outcomes-counts now outcomes (next.0) (s + 1) (next.1) in
        rw e (omega (arith, rest.0), omega (arith, rest.1, observe_peers-count now peers pool n))
    | inr (x, e) ↦
        let rest = fold_outcomes-counts now outcomes pool s n in
        rw e (omega (arith, rest.0), omega (arith, rest.1))
  ]

  -- Of a burst over any bootnodes the report holds the outcome of each probe, in the order of the
  -- bootnodes, the number of outcomes that are answers, and the number of peers in them.
  discovery_burst_report :
      (pool : PeerPool) (bootnodes : List (Text × Link)) (prefix : Text) (now : ℕ)
      → ((discovery_burst w bs58_encode pool bootnodes prefix now).1 ≡ record {
        outcomes = join_all w bs58_encode prefix bootnodes;
        bootnodes_succeeded = count_ok (join_all w bs58_encode prefix bootnodes);
        peers_observed = count_peers (join_all w bs58_encode prefix bootnodes);
      })
  unfolding discovery_burst
  discovery_burst_report pool [] prefix now = refl
  discovery_burst_report pool (b ∷ bootnodes) prefix now =
      let outcomes = join_all w bs58_encode prefix (b ∷ bootnodes) in
      let counts = fold_outcomes-counts now outcomes pool 0 0 in
      report_eq outcomes _ _ _ _ (omega (arith, counts.0)) (omega (arith, counts.1))
