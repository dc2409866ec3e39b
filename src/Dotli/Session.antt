-- ===== src/Dotli/Session.antt =====
-- example/dotli/src/lib.rs: the parts that the two phases share, `wait_for_subscription_open`,
-- `wait_for_state_response`, `request_top_storage` and `request_child_slot`.
-- The connection is the polkadot-p2p-connect crate's: whether it opens, whether it takes a request,
-- and the results that `conn.next()` gives until it answers `None` are a `Socket`.
pub mod Reads
use microdot.Base.{
  ℕ, Bool, ◌&&◌, List, [], ◌∷◌, ◌++◌, Bytes, length, ◌==◌, if◌then◌else◌, Result, ok, err, ◌>>=◌,
  map_err, not,
}
use microdot.Text.{Text}
use microdot.Kad.Request.{RequestResponse, value, failed}
use microdot.State.{
  TrieLibrary, VerifyError, encode_state_request, verify_top_proof, verify_child_proof,
  child_storage_default_prefix,
}
use microdot.Dotli.Words.{SlotError}

pub record AssetHubHead : Type 0 where
  pub number : ℕ
  pub hash : Bytes
  pub state_root : Bytes

-- `Message` of the connection crate: an opened subscription, a response, and what is passed over.
pub data Message : Type 0 where
  opened : ℕ → Message
  response : ℕ → RequestResponse → Message
  other : Message

abbrev pub Incoming : Type 0
Incoming = List (Result Text Message)

pub record Socket : Type 0 where
  pub open_ws : Text → Result Text (Unit {0})
  pub handshake : Result Text (Unit {0})
  pub subscribe : ℕ → Result Text (Unit {0})
  pub request : ℕ → Bytes → Result Text (Unit {0})
  pub incoming : Incoming
  -- the ids that `add_protocol` hands out
  pub announces_id : ℕ
  pub warp_id : ℕ
  pub state_id : ℕ

-- The errors of the two phases, one for each message.
pub data PhaseError : Type 0 where
  opening : Text → PhaseError
  shaking_hands : Text → PhaseError
  connection : Text → PhaseError
  warp_sync : Text → PhaseError
  verifying : VerifyError → PhaseError
  decoding_head_data : PhaseError
  decoding_header : PhaseError
  refused : Text → PhaseError
  closed : PhaseError
  decoding_account_info : PhaseError
  -- `AccountInfo schema drift: {} leftover bytes`
  schema_drift : ℕ → PhaseError
  no_contract : PhaseError
  -- `child slot value is {} bytes, expected 32`
  slot_length : ℕ → PhaseError
  slot : SlotError → PhaseError
  -- a slice or a capacity out of range
  panicked : PhaseError

-- The messages to come, and the requests made so far.
pub record Conn : Type 0 where
  pub incoming : Incoming
  pub sent : List (ℕ × Bytes)

-- `open_ws`, then the handshake, then `subscribe`
unfoldable pub connect : Socket → Text → Result PhaseError Conn
connect socket wss_url = do
  _ ← map_err opening (socket.open_ws wss_url)
  _ ← map_err shaking_hands (socket.handshake)
  _ ← map_err connection (socket.subscribe (socket.announces_id))
  ok (record { incoming = socket.incoming; sent = [] })

unfoldable pub wait_for_subscription_open : ℕ → Incoming → Result PhaseError Incoming
wait_for_subscription_open sub_id [] = err closed
wait_for_subscription_open sub_id (err e ∷ rest) = err (connection e)
wait_for_subscription_open sub_id (ok (opened protocol_id) ∷ rest) =
    let later = wait_for_subscription_open sub_id rest in
    if protocol_id == sub_id then ok rest else later
wait_for_subscription_open sub_id (ok (response protocol_id res) ∷ rest) =
    wait_for_subscription_open sub_id rest
wait_for_subscription_open sub_id (ok other ∷ rest) = wait_for_subscription_open sub_id rest

unfoldable pub wait_for_state_response : ℕ → Incoming → Result PhaseError (Bytes × Incoming)
wait_for_state_response state_id [] = err closed
wait_for_state_response state_id (err e ∷ rest) = err (connection e)
wait_for_state_response state_id (ok (response protocol_id (value bytes)) ∷ rest) =
    let later = wait_for_state_response state_id rest in
    if protocol_id == state_id then ok (bytes, rest) else later
wait_for_state_response state_id (ok (response protocol_id (failed e)) ∷ rest) =
    let later = wait_for_state_response state_id rest in
    if protocol_id == state_id then err (refused e) else later
wait_for_state_response state_id (ok (opened protocol_id) ∷ rest) =
    wait_for_state_response state_id rest
wait_for_state_response state_id (ok other ∷ rest) = wait_for_state_response state_id rest

module _ {D : Type 0} (w : ℕ) (lib : TrieLibrary D) (blake2_256 : Bytes → Bytes)
    (socket : Socket) where
  -- `conn.request(state_id, req)?` and the wait for its answer
  unfoldable pub ask_state : Bytes → Conn → Result PhaseError (Bytes × Conn)
  ask_state req conn = do
    _ ← map_err connection (socket.request (socket.state_id) req)
    (bytes, rest) ← wait_for_state_response (socket.state_id) (conn.incoming)
    ok (bytes, record { incoming = rest; sent = conn.sent ++ ((socket.state_id, req) ∷ []) })

  unfoldable pub request_top_storage :
      AssetHubHead → Bytes → Conn → Result PhaseError (Bytes × Conn)
  request_top_storage head key conn = do
    (bytes, conn) ← ask_state (encode_state_request (head.hash) (key ∷ [])) conn
    found ← map_err verifying (verify_top_proof w lib bytes (head.state_root) key)
    ok (found, conn)

  unfoldable pub request_child_slot :
      AssetHubHead → Bytes → Bytes → Conn → Result PhaseError (Bytes × Conn)
  request_child_slot head trie_id raw_slot_key conn = do
    (bytes, conn) ←
        ask_state
          (encode_state_request (head.hash)
            (child_storage_default_prefix trie_id ∷ blake2_256 raw_slot_key ∷ []))
          conn
    found ←
        map_err verifying
          (verify_child_proof w lib bytes (head.state_root) trie_id (blake2_256 raw_slot_key))
    if not (length found == 32) then err (slot_length (length found)) else ok (found, conn)
