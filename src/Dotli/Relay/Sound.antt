-- ===== src/Dotli/Relay/Sound.antt =====
-- What the head of `relay_phase` (example/dotli/src/lib.rs) is, whatever the peer answered.
use microdot.Base.{
  ℕ, ◌≡◌, refl, sym, ap, ◌∙◌, Bool, true, false, ◌||◌, ◌==◌, some, List, [], ◌∷◌, ◌++◌, Bytes,
  if◌then◌else◌, Result, ok, err, map_err, ok_or, bind-eq-ok, Result-cases, inl, inr, subst, ◌⊎◌,
  map_err-eq-ok,
}
use microdot.Text.{Text}
use microdot.Kad.Request.{value, failed}
use microdot.State.{TrieLibrary, verify_top_proof}
use microdot.State.Soundness.{Storage, IsSound, verify_top_proof_sound, ok_or-eq-ok}
use microdot.Dotli.Persistence.{GrandpaState, BlockHeader}
use microdot.Dotli.Session.{
  AssetHubHead, Message, opened, response, other, Socket, Incoming, connect, PhaseError, verifying,
  decoding_head_data, decoding_header,
}
use microdot.Dotli.Session.Reads.{ok_inj}
use microdot.Dotli.Relay.{
  WarpSync, Turn, continue, return, send, on_warp, read_head, relay_turn, relay_loop, relay_phase,
}

-- The states that accepted warp-sync responses lead to.
pub data Warped {A : Type 0} (warp : WarpSync A) : GrandpaState A → GrandpaState A → Type 0 where
  start : (gs : GrandpaState A) → Warped warp gs gs
  updated :
      (gs : GrandpaState A) (bytes : Bytes) (done : Bool) (gs₁ gs₂ : GrandpaState A)
      → warp.update_with_warp_sync_response bytes gs ≡ (ok done, gs₁)
      → Warped warp gs₁ gs₂
      → Warped warp gs gs₂

-- `head` is decoded from the bytes `found`.
abbrev pub IsHeadOf : {A : Type 0} → WarpSync A → Bytes → AssetHubHead → Type 0
IsHeadOf warp found head =
    (head_data : Bytes) × (header : BlockHeader) × (warp.decode_head_data found ≡ some head_data)
    × (warp.decode_header head_data ≡ some header)
    × (head ≡ record { number = header.number; hash = header.hash; state_root = header.state_root })

pub Turn-cases :
    {A : Type 0} (t : Turn A)
    → ((gs : GrandpaState A) × (requests : List (ℕ × Bytes)) × (t ≡ continue gs requests))
      ⊎ ((r : Result PhaseError (GrandpaState A × AssetHubHead)) × (t ≡ return r))
Turn-cases (continue gs requests) = inl (gs, requests, refl)
Turn-cases (return r) = inr (r, refl)

module _ {D A : Type 0} (w : ℕ) (lib : TrieLibrary D) (warp : WarpSync A) (paras_key : Bytes)
    (socket : Socket) where
  -- What a turn may be: a warp, or a head read from some response, or an error.
  abbrev IsTurn : GrandpaState A → Turn A → Type 0
  IsTurn gs (continue gs' requests) = Warped warp gs gs'
  IsTurn gs (return (ok r)) = (bytes : Bytes) × (read_head w lib warp paras_key gs bytes ≡ ok r)
  IsTurn gs (return (err e)) = Unit {0}

  send-IsTurn :
      (gs gs' : GrandpaState A) (id : ℕ) (bytes : Bytes)
      → Warped warp gs gs'
      → IsTurn gs (send socket gs' id bytes)
  unfolding send
  send-IsTurn gs gs' id bytes h = elim (Result-cases (socket.request id bytes)) [
    | inl (u, q) ↦ rw (q, send) h
    | inr (e, q) ↦ rw (q, send) tt
  ]

  return-IsTurn :
      (gs : GrandpaState A) (bytes : Bytes)
      → IsTurn gs (return (read_head w lib warp paras_key gs bytes))
  return-IsTurn gs bytes = elim (Result-cases (read_head w lib warp paras_key gs bytes)) [
    | inl (r, q) ↦ rw (q) (bytes, q)
    | inr (e, q) ↦ rw (q) tt
  ]

  if-IsTurn :
      (gs : GrandpaState A) (b : Bool) (s t : Turn A)
      → IsTurn gs s
      → IsTurn gs t
      → IsTurn gs (if b then s else t)
  if-IsTurn gs true s t p q = p
  if-IsTurn gs false s t p q = q

  on_warp-IsTurn :
      (gs : GrandpaState A) (bytes : Bytes) → IsTurn gs (on_warp warp paras_key socket gs bytes)
  unfolding on_warp
  on_warp-IsTurn gs bytes = elim (Result-cases ((warp.update_with_warp_sync_response bytes gs).0)) [
    | inl (done, q) ↦
        rw (q, on_warp)
          (let h =
              updated gs bytes done _ _
                (ap
                  (λ (r : Result Text Bool). (r, (warp.update_with_warp_sync_response bytes gs).1))
                  q)
                (start _) in
            if-IsTurn gs done _ _ (send-IsTurn gs _ _ _ h) (send-IsTurn gs _ _ _ h))
    | inr (e, q) ↦ rw (q, on_warp) tt
  ]

  relay_turn-IsTurn :
      (gs : GrandpaState A) (message : Message)
      → IsTurn gs (relay_turn w lib warp paras_key socket gs message)
  unfolding relay_turn
  relay_turn-IsTurn gs (opened id) =
      if-IsTurn gs (id == socket.announces_id) _ _ (send-IsTurn gs gs _ _ (start gs)) (start gs)
  relay_turn-IsTurn gs (response id (value bytes)) =
      if-IsTurn gs (id == socket.warp_id) _ _ (on_warp-IsTurn gs bytes)
        (if-IsTurn gs (id == socket.state_id) _ _ (return-IsTurn gs bytes) (start gs))
  relay_turn-IsTurn gs (response id (failed e)) =
      if-IsTurn gs (id == socket.warp_id || id == socket.state_id) _ _ tt (start gs)
  relay_turn-IsTurn gs other = start gs

  Warped-trans :
      {gs : GrandpaState A} (gs₁ gs₂ : GrandpaState A)
      → Warped warp gs gs₁
      → Warped warp gs₁ gs₂
      → Warped warp gs gs₂
  Warped-trans gs₁ gs₂ (start gs) t = t
  Warped-trans gs₁ gs₂ (updated gs bytes done mid end q h) t =
      updated gs bytes done mid gs₂ q (Warped-trans gs₁ gs₂ h t)

  -- What a head is read from: the state that the phase returns, and some response.
  abbrev IsRead : GrandpaState A → GrandpaState A × AssetHubHead → Type 0
  IsRead gs (gs', head) =
      Warped warp gs gs'
      × ((bytes : Bytes) × (read_head w lib warp paras_key gs' bytes ≡ ok (gs', head)))

  read_head_found :
      (gs : GrandpaState A) (bytes : Bytes) (r : GrandpaState A × AssetHubHead)
      → read_head w lib warp paras_key gs bytes ≡ ok r
      → (found : Bytes) × (verify_top_proof w lib bytes (gs.finalized_state_root) paras_key
          ≡ ok found)
        × IsHeadOf warp found (r.1)
        × (gs ≡ r.0)
  unfolding read_head
  read_head_found gs bytes r e =
      let (found, e₁, k₁) =
        bind-eq-ok
          (map_err verifying (verify_top_proof w lib bytes (gs.finalized_state_root) paras_key)) _
          e in
      let (head_data, e₂, k₂) =
        bind-eq-ok (ok_or (warp.decode_head_data found) decoding_head_data) _ k₁ in
      let (header, e₃, k₃) =
        bind-eq-ok (ok_or (warp.decode_header head_data) decoding_header) _ k₂ in
      (
        found,
        map_err-eq-ok verifying _ e₁,
        (
          head_data,
          header,
          ok_or-eq-ok _ _ _ e₂,
          ok_or-eq-ok _ _ _ e₃,
          ap (λ (x : GrandpaState A × AssetHubHead). x.1) (sym (ok_inj _ _ k₃)),
        ),
        ap (λ (x : GrandpaState A × AssetHubHead). x.0) (ok_inj _ _ k₃),
      )

  relay_loop_reads :
      (incoming : Incoming) (gs : GrandpaState A) (sent : List (ℕ × Bytes))
      (r : GrandpaState A × AssetHubHead)
      → (relay_loop w lib warp paras_key socket incoming gs sent).0 ≡ ok r
      → IsRead gs r
  unfolding relay_loop
  relay_loop_reads [] gs sent r = λ e. cc
  relay_loop_reads (err x ∷ rest) gs sent r = λ e. cc
  relay_loop_reads (ok message ∷ rest) gs sent r =
      elim (Turn-cases (relay_turn w lib warp paras_key socket gs message)) [
        | inl (gs', requests, q) ↦
            rw (q, relay_loop)
              (λ e.
                let (h, (bytes, k)) = relay_loop_reads rest gs' (sent ++ requests) r e in
                (
                  Warped-trans gs' (r.0) (subst (IsTurn gs) q (relay_turn-IsTurn gs message)) h,
                  (bytes, k),
                ))
        | inr (result, q) ↦
            rw (q, relay_loop)
              (λ e.
                let (bytes, k) =
                  subst (IsTurn gs) (q ∙ ap return e) (relay_turn-IsTurn gs message) in
                let (found, v, d, same) = read_head_found gs bytes r k in
                (
                  subst (Warped warp gs) same (start gs),
                  (bytes, subst (λ g. read_head w lib warp paras_key g bytes ≡ ok r) same k),
                ))
      ]

  relay_phase_reads :
      (gs : GrandpaState A) (wss_url : Text) (r : GrandpaState A × AssetHubHead)
      → (relay_phase w lib warp paras_key socket gs wss_url).0 ≡ ok r
      → IsRead gs r
  unfolding relay_phase
  relay_phase_reads gs wss_url r = elim (Result-cases (connect socket wss_url)) [
    | inl (conn, q) ↦ rw (q, relay_phase) (relay_loop_reads (conn.incoming) gs (conn.sent) r)
    | inr (x, q) ↦ rw (q, relay_phase) (λ e. cc)
  ]

  -- If the relay phase returns a state and a head, then the state came from the given one by
  -- accepted warp-sync responses and, with a sound trie library, the storage whose root the state
  -- has holds bytes under the key of the parachain's head that decode to that head.
  pub relay_phase_sound :
      (Commits : Bytes → Storage → Type 0) (sound : IsSound lib Commits) (gs gs' : GrandpaState A)
      (wss_url : Text) (head : AssetHubHead) (storage : Storage)
      → Commits (gs'.finalized_state_root) storage
      → (relay_phase w lib warp paras_key socket gs wss_url).0 ≡ ok (gs', head)
      → Warped warp gs gs'
        × ((found : Bytes) × (storage paras_key ≡ some found) × IsHeadOf warp found head)
  relay_phase_sound Commits sound gs gs' wss_url head storage c e =
      let (h, (bytes, k)) = relay_phase_reads gs wss_url (gs', head) e in
      let (found, k₁, d, same) = read_head_found gs' bytes (gs', head) k in
      (
        h,
        (found, verify_top_proof_sound w lib Commits sound bytes _ paras_key found storage c k₁, d),
      )
