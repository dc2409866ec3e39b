-- ===== src/Discovery.antt =====
-- src/discovery.rs: one FIND_NODE probe for each bootnode, and the fold of the answers into the
-- pool. What the connection crate, the platform and the network do in one probe is a `Link`.
pub mod Report
pub mod Harvest
use microdot.Base.{
  ℕ, ◌+◌, Bool, true, false, Option, none, some, List, [], ◌∷◌, ◌++◌, Bytes, length, map,
  if◌then◌else◌, Result, ok, err, ◌>>=◌, map_err,
}
use microdot.Text.{Text, text}
use microdot.PeerPool.{PeerPool, observe, evict_to_capacity}
use microdot.Kad.Multiaddr.{parse_bootnode_multiaddr}
use microdot.Kad.Message.{DiscoveredPeer, random_target}
use microdot.Kad.Request.{ConnMessage, RequestError, one_shot_find_node}

-- One probe's surroundings: `connect`, `add_protocol` and the handshake of the configuration, the
-- platform's random bytes, the request, the messages that then come in, and whether the sleep of
-- `PER_PROBE_TIMEOUT` ends before all that.
pub record Link : Type 0 where
  pub connect : Text → Result Text (Unit {0})
  pub add_protocol : Text → ℕ
  pub handshake : Text → Result Text (Unit {0})
  pub fill_with_random_bytes : ℕ → Bytes
  pub request : Bytes → Result Text (Unit {0})
  pub incoming : List (Result Text ConnMessage)
  pub times_out : Bool

pub data ProbeError : Type 0 where
  unparsable : ProbeError
  connecting : Text → ProbeError
  handshaking : Text → ProbeError
  finding : RequestError → ProbeError
  timed_out : ProbeError

pub record ProbeOutcome : Type 0 where
  pub bootnode_peer_id : Text
  pub bootnode_wss_url : Text
  pub result : Result ProbeError (List DiscoveredPeer)

pub record DiscoveryReport : Type 0 where
  pub outcomes : List ProbeOutcome
  pub bootnodes_succeeded : ℕ
  pub peers_observed : ℕ

abbrev pub default_report : DiscoveryReport
default_report = record { outcomes = []; bootnodes_succeeded = 0; peers_observed = 0 }

-- `format!("/{protocol_prefix_hex}/kad")`
abbrev pub kad_protocol_name : Text → Text
kad_protocol_name protocol_prefix_hex = text "/" ++ (protocol_prefix_hex ++ text "/kad")

module _ (w : ℕ) (bs58_encode : Bytes → Text) where
  -- `kad::random_target::<P>()`
  abbrev pub target_of : Link → Bytes
  target_of link =
      (random_target {P = Unit {0}} (λ n platform. (link.fill_with_random_bytes n, platform)) tt).0

  -- the `inner` future
  abbrev pub inner : Text → Text → Link → Result ProbeError (List DiscoveredPeer)
  inner protocol_name wss_url link = do
    _ ← map_err connecting (link.connect wss_url)
    _ ← map_err handshaking (link.handshake protocol_name)
    map_err finding (
        one_shot_find_node w bs58_encode (link.add_protocol protocol_name) (link.request)
          (link.incoming) (target_of link))

  unfoldable pub probe_one_bootnode : Text → Text → Link → ProbeOutcome
  probe_one_bootnode bootnode_multiaddr protocol_prefix_hex link =
      elim (parse_bootnode_multiaddr bootnode_multiaddr) [
        | none ↦ record {
          bootnode_peer_id = bootnode_multiaddr;
          bootnode_wss_url = bootnode_multiaddr;
          result = err unparsable;
        }
        | some parts ↦ record {
          bootnode_peer_id = parts.0;
          bootnode_wss_url = parts.1;
          result =
              (if link.times_out
                then err timed_out
                else inner (kad_protocol_name protocol_prefix_hex) (parts.1) link);
        }
      ]

  -- `for p in peers { pool.observe(…); peers_observed += 1; }`
  abbrev pub observe_peers : ℕ → List DiscoveredPeer → PeerPool × ℕ → PeerPool × ℕ
  observe_peers now [] (pool, observed) = (pool, observed)
  observe_peers now (p ∷ peers) (pool, observed) =
      observe_peers now peers (observe (p.peer_id_base58) (p.wss_url) now pool, observed + 1)

  -- the loop over the outcomes
  unfoldable pub fold_outcomes : ℕ → List ProbeOutcome → PeerPool × ℕ × ℕ → PeerPool × ℕ × ℕ
  fold_outcomes now [] state = state
  fold_outcomes now (outcome ∷ outcomes) (pool, succeeded, observed) = elim (outcome.result) [
    | ok peers ↦
        let (pool', observed') = observe_peers now peers (pool, observed) in
        fold_outcomes now outcomes (pool', succeeded + 1, observed')
    | err e ↦ fold_outcomes now outcomes (pool, succeeded, observed)
  ]

  -- `join_all` gives the outcomes in the order of the probes.
  abbrev pub join_all : Text → List (Text × Link) → List ProbeOutcome
  join_all protocol_prefix_hex [] = []
  join_all protocol_prefix_hex ((b, link) ∷ bootnodes) =
      probe_one_bootnode b protocol_prefix_hex link ∷ join_all protocol_prefix_hex bootnodes

  -- `now` is what `clock.now_ms()` gives after the probes.
  unfoldable pub discovery_burst :
      PeerPool → List (Text × Link) → Text → ℕ → PeerPool × DiscoveryReport
  discovery_burst pool [] protocol_prefix_hex now = (pool, default_report)
  discovery_burst pool (b ∷ bootnodes) protocol_prefix_hex now =
      let outcomes = join_all protocol_prefix_hex (b ∷ bootnodes) in
      let (pool', succeeded, observed) = fold_outcomes now outcomes (pool, 0, 0) in
      (
        evict_to_capacity pool',
        record { outcomes = outcomes; bootnodes_succeeded = succeeded; peers_observed = observed },
      )
