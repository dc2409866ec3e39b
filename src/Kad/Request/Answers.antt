-- ===== src/Kad/Request/Answers.antt =====
-- What `one_shot_find_node` answers.
use microdot.Base.{
  ℕ, ◌≡◌, ◌≢◌, refl, List, [], ◌∷◌, ◌++◌, Bytes, All, Result, ok, err, map_err, arith, ◌∙◌,
}
use microdot.Text.{Text}
use microdot.Kad.Message.{encode_find_node, decode_find_node_response}
use microdot.Kad.Request.{
  value, failed, ConnMessage, response, other, connection, decoding, remote, closed, await_response,
  one_shot_find_node,
}

-- A message that is no response of the kad protocol.
abbrev pub IsUnrelated : ℕ → Result Text ConnMessage → Type 0
IsUnrelated kad_id (ok (response protocol_id res)) = protocol_id ≢ kad_id
IsUnrelated kad_id (ok other) = Unit {0}
IsUnrelated kad_id (err e) = ⊥

module _ (w : ℕ) (bs58_encode : Bytes → Text) (kad_id : ℕ) where
  await_response_skips :
      (front rest : List (Result Text ConnMessage))
      → All (IsUnrelated kad_id) front
      → await_response w bs58_encode kad_id (front ++ rest)
        ≡ await_response w bs58_encode kad_id rest
  unfolding await_response
  await_response_skips [] rest h = refl
  await_response_skips (err e ∷ front) rest h = absurd h.0
  await_response_skips (ok other ∷ front) rest h = await_response_skips front rest h.1
  await_response_skips (ok (response p (value bytes)) ∷ front) rest (hp, h) =
      ground (arith, await_response_skips front rest h)
  await_response_skips (ok (response p (failed e)) ∷ front) rest (hp, h) =
      ground (arith, await_response_skips front rest h)

  module _ (request : Bytes → Result Text (Unit {0})) (target : Bytes)
      (front rest : List (Result Text ConnMessage))
      (sent : request (encode_find_node target) ≡ ok tt)
      (skipped : All (IsUnrelated kad_id) front) where
    after_front :
        one_shot_find_node w bs58_encode kad_id request (front ++ rest) target
        ≡ await_response w bs58_encode kad_id rest
    unfolding one_shot_find_node
    after_front = rw sent (await_response_skips front rest skipped)

  -- Once the request is sent, messages that are no kad response are passed over, and what comes
  -- first after them decides: the kad response is decoded, a remote error or a connection error is
  -- reported, and a connection that ends there is an error.
  pub one_shot_find_node_answers :
      (request : Bytes → Result Text (Unit {0})) (target : Bytes)
      (front rest : List (Result Text ConnMessage)) (bytes : Bytes) (e : Text)
      → request (encode_find_node target) ≡ ok tt
      → All (IsUnrelated kad_id) front
      → (let run = λ (incoming : List (Result Text ConnMessage)).
            one_shot_find_node w bs58_encode kad_id request (front ++ incoming) target in
          (run (ok (response kad_id (value bytes)) ∷ rest)
            ≡ map_err decoding (decode_find_node_response w bs58_encode bytes))
          × (run (ok (response kad_id (failed e)) ∷ rest) ≡ err (remote e))
          × (run (err e ∷ rest) ≡ err (connection e))
          × (run [] ≡ err closed))
  unfolding await_response
  one_shot_find_node_answers request target front rest bytes e sent skipped = (
    after_front request target front _ sent skipped ∙ ground arith,
    after_front request target front _ sent skipped ∙ ground arith,
    after_front request target front _ sent skipped,
    after_front request target front _ sent skipped,
  )
