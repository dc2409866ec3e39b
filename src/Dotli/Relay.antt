-- ===== src/Dotli/Relay.antt =====
-- example/dotli/src/lib.rs, `relay_phase`: warp sync to the newest finalized block, then the head of
-- the parachain from the relay chain's storage.
pub mod Sound
pub mod Answers
use microdot.Base.{
  ℕ, Bool, true, false, ◌||◌, Option, none, some, List, [], ◌∷◌, ◌++◌, Bytes, ◌==◌, if◌then◌else◌,
  Result, ok, err, ◌>>=◌, map_err, ok_or,
}
use microdot.Text.{Text}
use microdot.Kad.Request.{RequestResponse, value, failed}
use microdot.State.{TrieLibrary, encode_state_request, verify_top_proof}
use microdot.Dotli.Persistence.{GrandpaState, BlockHeader}
use microdot.Dotli.Session.{
  AssetHubHead, Message, opened, response, other, Socket, Conn, Incoming, connect, PhaseError,
  connection, warp_sync, verifying, decoding_head_data, decoding_header, refused, closed,
}

-- The warp-sync crate: one response is applied to the state in place and says whether it was the
-- last. And the SCALE decoders of `HeadData` and `BlockHeader`.
pub record WarpSync (A : Type 0) : Type 0 where
  pub update_with_warp_sync_response : Bytes → GrandpaState A → Result Text Bool × GrandpaState A
  pub decode_head_data : Bytes → Option Bytes
  pub decode_header : Bytes → Option BlockHeader

-- What one message does: the loop goes on, with the requests made, or the function returns.
pub data Turn (A : Type 0) : Type 0 where
  continue : GrandpaState A → List (ℕ × Bytes) → Turn A
  return : Result PhaseError (GrandpaState A × AssetHubHead) → Turn A

module _ {A : Type 0} (socket : Socket) where
  -- `conn.request(id, bytes)?`
  unfoldable pub send : GrandpaState A → ℕ → Bytes → Turn A
  send gs id bytes = elim (socket.request id bytes) [
    | ok _ ↦ continue gs ((id, bytes) ∷ [])
    | err e ↦ return (err (connection e))
  ]

module _ {A : Type 0} (warp : WarpSync A) (paras_key : Bytes) (socket : Socket) where
  unfoldable pub on_warp : GrandpaState A → Bytes → Turn A
  on_warp gs bytes =
      let answer = warp.update_with_warp_sync_response bytes gs in
      elim (answer.0) [
        | err e ↦ return (err (warp_sync e))
        | ok done ↦
            if done
            then send socket (answer.1) (socket.state_id)
                (encode_state_request ((answer.1).finalized_hash) (paras_key ∷ []))
            else send socket (answer.1) (socket.warp_id) ((answer.1).finalized_hash)
      ]

module _ {D A : Type 0} (w : ℕ) (lib : TrieLibrary D) (warp : WarpSync A) (paras_key : Bytes) where
  unfoldable pub read_head :
      GrandpaState A → Bytes → Result PhaseError (GrandpaState A × AssetHubHead)
  read_head gs bytes = do
    found ← map_err verifying (verify_top_proof w lib bytes (gs.finalized_state_root) paras_key)
    head_data ← ok_or (warp.decode_head_data found) decoding_head_data
    header ← ok_or (warp.decode_header head_data) decoding_header
    ok (gs, record { number = header.number; hash = header.hash; state_root = header.state_root })

module _ {D A : Type 0} (w : ℕ) (lib : TrieLibrary D) (warp : WarpSync A) (paras_key : Bytes)
    (socket : Socket) where
  -- the `match` of the loop
  unfoldable pub relay_turn : GrandpaState A → Message → Turn A
  relay_turn gs (opened protocol_id) =
      if protocol_id == socket.announces_id
      then send socket gs (socket.warp_id) (gs.finalized_hash)
      else continue gs []
  relay_turn gs (response protocol_id (value bytes)) =
      if protocol_id == socket.warp_id
      then on_warp warp paras_key socket gs bytes
      else if protocol_id == socket.state_id
      then return (read_head w lib warp paras_key gs bytes)
      else continue gs []
  relay_turn gs (response protocol_id (failed e)) =
      if protocol_id == socket.warp_id || protocol_id == socket.state_id
      then return (err (refused e))
      else continue gs []
  relay_turn gs other = continue gs []

  -- `while let Some(result) = conn.next().await`, with the requests made
  unfoldable pub relay_loop :
      Incoming
      → GrandpaState A
      → List (ℕ × Bytes)
      → Result PhaseError (GrandpaState A × AssetHubHead) × List (ℕ × Bytes)
  relay_loop [] gs sent = (err closed, sent)
  relay_loop (err e ∷ rest) gs sent = (err (connection e), sent)
  relay_loop (ok message ∷ rest) gs sent = elim (relay_turn gs message) [
    | continue gs' requests ↦ relay_loop rest gs' (sent ++ requests)
    | return result ↦ (result, sent)
  ]

  unfoldable pub relay_phase :
      GrandpaState A → Text → Result PhaseError (GrandpaState A × AssetHubHead) × List (ℕ × Bytes)
  relay_phase grandpa_state wss_url = elim (connect socket wss_url) [
    | err e ↦ (err e, [])
    | ok conn ↦ relay_loop (conn.incoming) grandpa_state (conn.sent)
  ]
