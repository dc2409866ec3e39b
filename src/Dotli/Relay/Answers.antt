-- ===== src/Dotli/Relay/Answers.antt =====
-- A peer that answers brings `relay_phase` (example/dotli/src/lib.rs) to its head, whatever else
-- arrives between the answers.
use microdot.Base.{
  ℕ, ◌≡◌, ◌≢◌, refl, sym, ap, ◌∙◌, Bool, true, false, ◌||◌, ◌==◌, List, [], ◌∷◌, ◌++◌, map, Bytes,
  if◌then◌else◌, Result, ok, err, Bool-cases, inl, inr, arith,
}
use microdot.Text.{Text}
use microdot.Kad.Request.{value, failed}
use microdot.State.{TrieLibrary, verify_top_proof, encode_state_request}
use microdot.Dotli.Persistence.{GrandpaState}
use microdot.Dotli.Session.{
  AssetHubHead, Message, opened, response, other, Socket, Incoming, PhaseError,
}
use microdot.Dotli.Session.Reads.{connect_gives}
use microdot.Dotli.Relay.{
  WarpSync, continue, return, send, on_warp, read_head, relay_turn, relay_loop, relay_phase,
}
use microdot.Dotli.Relay.Sound.{IsHeadOf, Turn-cases}
use mathlib.Core.List.{append-nil, append_assoc}

-- Whether the phase looks at a message at all.
abbrev pub concerns : Socket → Message → Bool
concerns socket (opened protocol_id) = protocol_id == socket.announces_id
concerns socket (response protocol_id res) =
    protocol_id == socket.warp_id || protocol_id == socket.state_id
concerns socket other = false

-- What arrives, without the messages that it does not look at.
abbrev pub heard : Socket → Incoming → Incoming
heard socket [] = []
heard socket (err e ∷ rest) = err e ∷ heard socket rest
heard socket (ok message ∷ rest) =
    if concerns socket message then ok message ∷ heard socket rest else heard socket rest

-- The fragments of a warp sync, of which the last and no other says that it is done.
pub data IsSync {A : Type 0} (warp : WarpSync A)
    : GrandpaState A → List Bytes → GrandpaState A → Type 0 where
  last :
      (gs gs' : GrandpaState A) (bytes : Bytes)
      → warp.update_with_warp_sync_response bytes gs ≡ (ok true, gs')
      → IsSync warp gs (bytes ∷ []) gs'
  more :
      (gs gs₁ gs' : GrandpaState A) (bytes : Bytes) (later : List Bytes)
      → warp.update_with_warp_sync_response bytes gs ≡ (ok false, gs₁)
      → IsSync warp gs₁ later gs'
      → IsSync warp gs (bytes ∷ later) gs'

abbrev pub is_empty : {A : Type 0} → List A → Bool
is_empty [] = true
is_empty (x ∷ xs) = false

IsSync-is_empty :
    {A : Type 0} (warp : WarpSync A) (gs gs' : GrandpaState A) (fragments : List Bytes)
    → IsSync warp gs fragments gs'
    → is_empty fragments ≡ false
IsSync-is_empty warp gs gs' fragments (last g g' bytes e) = refl
IsSync-is_empty warp gs gs' fragments (more g g₁ g' bytes later e h) = refl

abbrev pub warp_answer : Socket → Bytes → Result Text Message
warp_answer socket bytes = ok (response (socket.warp_id) (value bytes))

module _ {A : Type 0} (warp : WarpSync A) (paras_key : Bytes) (socket : Socket) where
  abbrev pub after_fragment : Bool → GrandpaState A → ℕ × Bytes
  after_fragment true gs =
      (socket.state_id, encode_state_request (gs.finalized_hash) (paras_key ∷ []))
  after_fragment false gs = (socket.warp_id, gs.finalized_hash)

  -- The requests that the fragments call for: the next one from the newest block, and the proof
  -- after the last.
  abbrev pub requests_of : GrandpaState A → List Bytes → List (ℕ × Bytes)
  requests_of gs [] = []
  requests_of gs (bytes ∷ later) =
      let gs₁ = (warp.update_with_warp_sync_response bytes gs).1 in
      after_fragment (is_empty later) gs₁ ∷ requests_of gs₁ later

==_refl : (n : ℕ) → (n == n) ≡ true
==_refl n = ground arith

==_ne : {m n : ℕ} → m ≢ n → (m == n) ≡ false
==_ne d = ground (arith, d)

module _ {D A : Type 0} (w : ℕ) (lib : TrieLibrary D) (warp : WarpSync A) (paras_key : Bytes)
    (socket : Socket) where
  relay_turn_idle :
      (gs : GrandpaState A) (message : Message)
      → concerns socket message ≡ false
      → relay_turn w lib warp paras_key socket gs message ≡ continue gs []
  unfolding relay_turn
  relay_turn_idle gs (opened id) h = rw (h) refl
  relay_turn_idle gs (response id (value bytes)) h = ground (arith, h)
  relay_turn_idle gs (response id (failed e)) h = rw (h) refl
  relay_turn_idle gs other h = refl

  relay_loop_continue :
      (message : Message) (rest : Incoming) (gs gs' : GrandpaState A)
      (requests sent : List (ℕ × Bytes))
      → relay_turn w lib warp paras_key socket gs message ≡ continue gs' requests
      → relay_loop w lib warp paras_key socket (ok message ∷ rest) gs sent
        ≡ relay_loop w lib warp paras_key socket rest gs' (sent ++ requests)
  unfolding relay_loop
  relay_loop_continue message rest gs gs' requests sent e = rw (e, relay_loop) refl

  relay_loop_return :
      (message : Message) (rest : Incoming) (gs : GrandpaState A)
      (r : Result PhaseError (GrandpaState A × AssetHubHead)) (sent : List (ℕ × Bytes))
      → relay_turn w lib warp paras_key socket gs message ≡ return r
      → relay_loop w lib warp paras_key socket (ok message ∷ rest) gs sent ≡ (r, sent)
  unfolding relay_loop
  relay_loop_return message rest gs r sent e = rw (e, relay_loop) refl

  -- Messages that do not concern the phase change nothing of what it does.
  relay_loop-heard :
      (incoming : Incoming) (gs : GrandpaState A) (sent : List (ℕ × Bytes))
      → relay_loop w lib warp paras_key socket (heard socket incoming) gs sent
        ≡ relay_loop w lib warp paras_key socket incoming gs sent
  unfolding relay_loop
  relay_loop-heard [] gs sent = refl
  relay_loop-heard (err e ∷ rest) gs sent = refl
  relay_loop-heard (ok message ∷ rest) gs sent = elim (Bool-cases (concerns socket message)) [
    | inl h ↦ rw (h) (elim (Turn-cases (relay_turn w lib warp paras_key socket gs message)) [
      | inl (gs', requests, q) ↦
          relay_loop_continue message _ gs gs' requests sent q
          ∙ relay_loop-heard rest gs' (sent ++ requests)
          ∙ sym (relay_loop_continue message rest gs gs' requests sent q)
      | inr (r, q) ↦
          relay_loop_return message _ gs r sent q ∙ sym (relay_loop_return message rest gs r sent q)
    ])
    | inr h ↦ rw (h) (
        relay_loop-heard rest gs sent
        ∙ ap (relay_loop w lib warp paras_key socket rest gs) (sym (append-nil sent))
        ∙ sym (relay_loop_continue message rest gs gs [] sent (relay_turn_idle gs message h)))
  ]

  module _ (ready : (id : ℕ) (bytes : Bytes) → socket.request id bytes ≡ ok tt) where
    send_continues :
        (gs : GrandpaState A) (id : ℕ) (bytes : Bytes)
        → send socket gs id bytes ≡ continue gs ((id, bytes) ∷ [])
    unfolding send
    send_continues gs id bytes = rw (ready id bytes, send) refl

    on_warp_sends :
        (gs gs' : GrandpaState A) (bytes : Bytes) (done : Bool)
        → warp.update_with_warp_sync_response bytes gs ≡ (ok done, gs')
        → on_warp warp paras_key socket gs bytes
          ≡ continue gs' (after_fragment warp paras_key socket done gs' ∷ [])
    unfolding on_warp
    on_warp_sends gs gs' bytes true e = rw (e, on_warp) (rw (e) (send_continues gs' _ _))
    on_warp_sends gs gs' bytes false e = rw (e, on_warp) (rw (e) (send_continues gs' _ _))

    warp_turn :
        (gs gs' : GrandpaState A) (bytes : Bytes) (done : Bool)
        → warp.update_with_warp_sync_response bytes gs ≡ (ok done, gs')
        → relay_turn w lib warp paras_key socket gs (response (socket.warp_id) (value bytes))
          ≡ continue gs' (after_fragment warp paras_key socket done gs' ∷ [])
    unfolding relay_turn
    warp_turn gs gs' bytes done e =
        rw (==_refl (socket.warp_id)) (on_warp_sends gs gs' bytes done e)

    relay_loop_sync :
        (gs gs' : GrandpaState A) (fragments : List Bytes) (rest : Incoming)
        (sent : List (ℕ × Bytes))
        → IsSync warp gs fragments gs'
        → relay_loop w lib warp paras_key socket
            (map (warp_answer socket) fragments ++ rest)
            gs
            sent
          ≡ relay_loop w lib warp paras_key socket rest gs'
              (sent ++ requests_of warp paras_key socket gs fragments)
    relay_loop_sync gs gs' fragments rest sent (last g g' bytes e) =
        relay_loop_continue _ rest g g' _ sent (warp_turn g g' bytes true e) ∙ rw (e) refl
    relay_loop_sync gs gs' fragments rest sent (more g gs₁ g' bytes later e h) =
        relay_loop_continue _ _ g gs₁ _ sent (warp_turn g gs₁ bytes false e)
        ∙ relay_loop_sync gs₁ g' later rest _ h
        ∙ rw (e, IsSync-is_empty warp gs₁ g' later h)
            (ap (relay_loop w lib warp paras_key socket rest g') (append_assoc sent _ _))

  open_turn :
      (gs : GrandpaState A)
      → ((id : ℕ) (bytes : Bytes) → socket.request id bytes ≡ ok tt)
      → relay_turn w lib warp paras_key socket gs (opened (socket.announces_id))
        ≡ continue gs ((socket.warp_id, gs.finalized_hash) ∷ [])
  unfolding relay_turn
  open_turn gs ready = rw (==_refl (socket.announces_id)) (send_continues ready gs _ _)

  answer_turn :
      (gs : GrandpaState A) (proof : Bytes) (r : GrandpaState A × AssetHubHead)
      → socket.state_id ≢ socket.warp_id
      → read_head w lib warp paras_key gs proof ≡ ok r
      → relay_turn w lib warp paras_key socket gs (response (socket.state_id) (value proof))
        ≡ return (ok r)
  unfolding relay_turn
  answer_turn gs proof r d e = rw (==_ne d, ==_refl (socket.state_id), e) refl

  read_head_of :
      (gs : GrandpaState A) (proof found : Bytes) (head : AssetHubHead)
      → verify_top_proof w lib proof (gs.finalized_state_root) paras_key ≡ ok found
      → IsHeadOf warp found head
      → read_head w lib warp paras_key gs proof ≡ ok (gs, head)
  unfolding read_head
  read_head_of gs proof found head e (head_data, header, p, q, s) = rw (e, p, q, s) refl

  -- The relay phase returns when the peer answers: the connection opens and takes every request,
  -- and what arrives of concern is the opened subscription, the fragments of a warp sync, and a
  -- response whose proof verifies under the new state root for bytes that decode to a head. Then
  -- the phase returns the new state and that head, and its requests were a warp sync from the
  -- given block, one from the newest block after each fragment but the last, and the proof at
  -- the last block.
  pub relay_phase_answers :
      (gs gs' : GrandpaState A) (wss_url : Text) (fragments : List Bytes) (proof found : Bytes)
      (head : AssetHubHead) (rest : Incoming)
      → socket.open_ws wss_url ≡ ok tt
      → socket.handshake ≡ ok tt
      → socket.subscribe (socket.announces_id) ≡ ok tt
      → ((id : ℕ) (bytes : Bytes) → socket.request id bytes ≡ ok tt)
      → socket.state_id ≢ socket.warp_id
      → heard socket (socket.incoming)
        ≡ ok (opened (socket.announces_id))
          ∷ (map (warp_answer socket) fragments
              ++ (ok (response (socket.state_id) (value proof)) ∷ rest))
      → IsSync warp gs fragments gs'
      → verify_top_proof w lib proof (gs'.finalized_state_root) paras_key ≡ ok found
      → IsHeadOf warp found head
      → relay_phase w lib warp paras_key socket gs wss_url ≡ (
        ok (gs', head),
        (socket.warp_id, gs.finalized_hash) ∷ requests_of warp paras_key socket gs fragments,
      )
  unfolding relay_phase
  relay_phase_answers gs gs' url fragments proof found head rest o h s ready d arrives sync e k =
      rw (connect_gives socket url o h s, relay_phase)
        (sym (relay_loop-heard (socket.incoming) gs [])
          ∙ rw (arrives) (
              relay_loop_continue _ _ gs gs _ [] (open_turn gs ready)
              ∙ relay_loop_sync ready gs gs' fragments _ _ sync
              ∙ relay_loop_return _ rest gs' _ _
                  (answer_turn gs' proof (gs', head) d (read_head_of gs' proof found head e k))))
