-- ===== src/Lib.antt =====
-- A model of microdot: peer discovery, peer reputation and proof checking for a light client.
--
-- The parts, and the files that model them:
-- * src/kad.rs, the Kademlia client. Wire.antt has its varint and slice helpers (`encode_varint`,
--   `decode_varint`, `take_bytes`), Kad/Multiaddr.antt the two address readers
--   (`multiaddr_to_wss_url`, `parse_bootnode_multiaddr`), Kad/Message.antt the request and the
--   response of FIND_NODE (`encode_find_node`, `decode_find_node_response`, `decode_peer`),
--   Kad/Request.antt the exchange on a connection (`one_shot_find_node`).
-- * src/peer_pool.rs, the pool with its reputation counters: PeerPool.antt. `PeerPool` is the
--   list of its map's entries in key order (BTreeMap.antt); an operation takes the pool and gives
--   the pool after it.
-- * src/request.rs, `run_with_pool_fallback`: PoolFallback.antt. The clock and the closure are a
--   record of functions on a world that is passed along.
-- * src/state.rs, `/state/2` requests and proofs: State.antt. The SCALE decoder and the trie
--   library are a record of functions; what a lookup promises is a hypothesis, `IsSound`.
-- * src/discovery.rs, `probe_one_bootnode` and `discovery_burst`: Discovery.antt. What the network
--   and the platform do in one probe is a record, `Link`; whether the deadline comes first is one
--   of its fields.
-- * example/dotli/src/state.rs, the persisted state of the demonstration: Dotli/Persistence.antt.
--   The hex, SCALE and JSON crates and the browser's storage are records of functions.
-- * example/dotli/src/lib.rs, the demonstration. Dotli/Words.antt has `u256_add`, the storage keys
--   and slots, and `HeadDecision::decide`, with the hash functions as arguments;
--   Dotli/Contenthash.antt the text of a contenthash and `html_escape`; Dotli/Params.antt the
--   parameters of the page's address; Dotli/WebSocket.antt the bridge from the browser's callbacks
--   to a reader, polled by tasks that wakers name, and Dotli/Sleep.antt the timer;
--   Dotli/Session.antt, Dotli/Relay.antt and Dotli/AssetHub.antt the two phases and what they
--   share, on a `Socket` whose incoming messages are a list; Dotli/Pooled.antt the phases behind
--   their pools; Dotli/Run.antt `run_inner` and
--   `spawn_background_discovery`, in a world with the clock, the network and the browser's storage;
--   Dotli/Protocols.antt the protocols that the phases offer and the check of a handshake;
--   Dotli/Entry.antt the entries `start_demo` and `resolve` with the page they write.
-- * example/dotli/src/polkadot.rs, the constants: Dotli/Polkadot.antt.
-- A run loads the state, purges the bootnodes from its pools, takes the cached head or asks the
-- relay chain for one, reads the contenthash through the pool of AssetHub, and saves.
-- Discovery parses bootnode addresses with Kad/Multiaddr, asks with Kad/Request, and puts the
-- peers of Kad/Message into the pool; the fallback ranks and marks the pool's peers.
-- Base, Text and BTreeMap hold what the parts share: numbers, lists, results, the stable sort,
-- texts as lists of UTF-8 bytes, and the map. Runs has concrete runs.
--
-- Numbers. A `u64` or `u32` is a natural number with its wrap-around or saturation written out;
-- `usize` is `w` bits wide, so that 32-bit wasm and 64-bit hosts are both covered; a score is a
-- signed number and cannot overflow an `i64`, as its counters have 32 bits. The sum in
-- `record_failure` wraps, as in a release build. The counters of a report count list elements.
-- Loops. The varint and decimal printers recurse on the number that they divide. A loop
-- `while !input.is_empty()` is `run` of Wire/Walk.antt with as much fuel as there are bytes, which
-- is enough since every round takes one (`run-ne-out_of_fuel`). The textual address loop has as
-- much fuel as there are parts. The loop of `base32_lower_no_pad` that drains its bits has as much
-- fuel as there are bits. The other loops run over lists; a loop over incoming messages ends with
-- the list, as the source's does when the connection is closed.
--
-- Not modelled: the base58 encoder, the connection, warp-sync, SCALE and trie crates and the hash
-- functions, which are parameters; serialisation of the pool by serde; the `Connect`, `Clock` and
-- `Storage` traits and their test doubles in src/traits.rs; of the demonstration the
-- lines that a run logs and the elapsed time, which the entries take as arguments; the private
-- copies of the varint and slice helpers in src/state.rs, which repeat those of src/kad.rs. A panic
-- of `assethub_phase` on a malformed base slot ends the program; here it is an error, `panicked`,
-- of that attempt, so the theorem that a run returns rules malformed slots out and shows that no
-- attempt panics.
pub mod Base
pub mod Wire
pub mod Text
pub mod Kad
pub mod BTreeMap
pub mod PeerPool
pub mod PoolFallback
pub mod State
pub mod Discovery
pub mod Runs
pub mod Dotli
