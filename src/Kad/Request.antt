-- ===== src/Kad/Request.antt =====
-- src/kad.rs: one FIND_NODE on a connection. The connection is the
-- polkadot-p2p-connect crate's: what `conn.request` answers to the request's bytes, and the results
-- that `conn.next()` gives one after the other until it answers `None`, are arguments.
pub mod Answers
use microdot.Base.{
  ℕ, Bool, ◌&&◌, List, [], ◌∷◌, Bytes, ◌==◌, if◌then◌else◌, Result, ok, err, ◌>>=◌, map_err,
}
use microdot.Text.{Text}
use microdot.Wire.{Error}
use microdot.Wire.Walk.{Halt}
use microdot.Kad.Message.{DiscoveredPeer, encode_find_node, decode_find_node_response}

-- `RequestResponse` of the connection crate.
pub data RequestResponse : Type 0 where
  value : Bytes → RequestResponse
  failed : Text → RequestResponse

-- `Message` of the connection crate; the source passes every other message over.
pub data ConnMessage : Type 0 where
  response : ℕ → RequestResponse → ConnMessage
  other : ConnMessage

pub data RequestError : Type 0 where
  -- An error of `conn.request` or of `conn.next`.
  connection : Text → RequestError
  decoding : Halt Error → RequestError
  -- `kad request error: {e:?}`
  remote : Text → RequestError
  -- `connection closed before kad response`
  closed : RequestError

module _ (w : ℕ) (bs58_encode : Bytes → Text) (kad_id : ℕ) where
  -- `while let Some(result) = conn.next().await { … }`
  await_response : List (Result Text ConnMessage) → Result RequestError (List DiscoveredPeer)
  await_response [] = err closed
  await_response (err e ∷ rest) = err (connection e)
  await_response (ok other ∷ rest) = await_response rest
  await_response (ok (response protocol_id (value bytes)) ∷ rest) =
      let later = await_response rest in
      if protocol_id == kad_id
      then map_err decoding (decode_find_node_response w bs58_encode bytes)
      else later
  await_response (ok (response protocol_id (failed e)) ∷ rest) =
      let later = await_response rest in if protocol_id == kad_id then err (remote e) else later

  unfoldable pub one_shot_find_node :
      (Bytes → Result Text (Unit {0}))
      → List (Result Text ConnMessage)
      → Bytes
      → Result RequestError (List DiscoveredPeer)
  unfolding await_response
  one_shot_find_node request incoming target = do
    _ ← map_err connection (request (encode_find_node target))
    await_response incoming
