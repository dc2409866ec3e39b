-- ===== src/Dotli/AssetHub/Answers.antt =====
-- A peer that answers brings `assethub_phase` (example/dotli/src/lib.rs) to its value, whatever else
-- arrives between the answers.
use microdot.Base.{
  ℕ, ◌+◌, ◌-◌, ◌*◌, ◌/◌, ◌^◌, ◌<◌, ◌≤◌, ◌≡◌, ◌≢◌, refl, sym, ap, true, false, ◌==◌, leb, ltb, List,
  [], ◌∷◌, ◌++◌, map, Bytes, length, take, bit_and, Result, ok, err, if◌then◌else◌, some, none,
  arith, inl, inr, Bool-cases, take_nil,
}
use microdot.Text.{Text}
use microdot.Kad.Request.{value, failed}
use microdot.State.{
  TrieLibrary, verify_child_proof, encode_state_request, child_storage_default_prefix,
}
use microdot.Dotli.Words.{last_byte, decode_long_bytes_length, u256_add}
use microdot.Dotli.Session.{
  AssetHubHead, Message, opened, response, other, Socket, Incoming, Conn,
  wait_for_subscription_open, wait_for_state_response, ask_state, request_child_slot,
}
use microdot.Dotli.AssetHub.{Chain, slots_of, read_slots, read_value, find_trie_id, assethub_phase}
use microdot.Dotli.AssetHub.Value.{concat, read_slots_append, from_start}
use microdot.Dotli.Session.Reads.{connect_gives}

-- The state responses among what arrives, and the errors.
abbrev pub state_answers : ℕ → Incoming → Incoming
state_answers id [] = []
state_answers id (err e ∷ rest) = err e ∷ state_answers id rest
state_answers id (ok (response n r) ∷ rest) =
    if n == id then ok (response n r) ∷ state_answers id rest else state_answers id rest
state_answers id (ok (opened n) ∷ rest) = state_answers id rest
state_answers id (ok other ∷ rest) = state_answers id rest

abbrev pub answer : ℕ → Bytes → Result Text Message
answer id b = ok (response id (value b))

abbrev Waits : ℕ → Incoming → Bytes → Incoming → Type 0
Waits id incoming b rest =
    (left : Incoming) × (wait_for_state_response id incoming ≡ ok (b, left))
    × (state_answers id left ≡ rest)

-- The bytes of two answers at the head of a list, and what follows them.
same_answer :
    (n id : ℕ) (b' b : Bytes) (left rest : Incoming)
    → Path Incoming (ok (response n (value b')) ∷ left) (ok (response id (value b)) ∷ rest)
    → (b' ≡ b) × (left ≡ rest)
same_answer n id b' b left rest e = (cc, cc)

wait_answers :
    (id : ℕ) (incoming : Incoming) (b : Bytes) (rest : Incoming)
    → state_answers id incoming ≡ answer id b ∷ rest
    → Waits id incoming b rest
unfolding wait_for_state_response
wait_answers id [] b rest = λ e. cc
wait_answers id (err x ∷ more) b rest = λ e. cc
wait_answers id (ok (opened n) ∷ more) b rest = wait_answers id more b rest
wait_answers id (ok other ∷ more) b rest = wait_answers id more b rest
wait_answers id (ok (response n (value b')) ∷ more) b rest = elim (Bool-cases (n == id)) [
  | inr q ↦ rw (q) (wait_answers id more b rest)
  | inl q ↦ rw (q) (λ e.
      let (same, left) = same_answer n id b' b (state_answers id more) rest e in
      (more, ap (λ x. ok (x, more)) same, left))
]
wait_answers id (ok (response n (failed x)) ∷ more) b rest = elim (Bool-cases (n == id)) [
  | inr q ↦ rw (q) (wait_answers id more b rest)
  | inl q ↦ rw (q) (λ e. cc)
]

==_true : {m n : ℕ} → m ≡ n → (m == n) ≡ true
==_true e = ground (arith, e)

==_false : {m n : ℕ} → m ≢ n → (m == n) ≡ false
==_false d = ground (arith, d)

ltb-false : {m n : ℕ} → n ≤ m → ltb m n ≡ false
ltb-false h = ground (arith, h)

leb-false : {m n : ℕ} → n < m → leb m n ≡ false
leb-false h = ground (arith, h)

module _ {D : Type 0} (w : ℕ) (lib : TrieLibrary D) (chain : Chain) (socket : Socket)
    (head : AssetHubHead) (trie_id : Bytes) where
  -- A proof that verifies for a slot of 32 bytes.
  abbrev pub Proves : Bytes → Bytes → Bytes → Type 0
  Proves key proof s =
      (verify_child_proof w lib proof (head.state_root) trie_id (chain.blake2_256 key) ≡ ok s)
      × (length s ≡ 32)

  -- Proofs for the slots from the `i`-th after `base` on, in order.
  abbrev pub ProvesAll : Bytes → ℕ → List Bytes → List Bytes → Type 0
  ProvesAll base i [] [] = Unit {0}
  ProvesAll base i [] (s ∷ slots) = ⊥
  ProvesAll base i (b ∷ proofs) [] = ⊥
  ProvesAll base i (b ∷ proofs) (s ∷ slots) =
      Proves (u256_add base i) b s × ProvesAll base (i + 1) proofs slots

  -- The value `found` of a base slot, of which the further slots have the given proofs.
  pub data IsProved (base_slot_key base_slot : Bytes) : List Bytes → Bytes → Type 0 where
    short :
        bit_and (last_byte base_slot) 1 ≡ 0
        → last_byte base_slot / 2 ≤ 32
        → IsProved base_slot_key base_slot [] (take (last_byte base_slot / 2) base_slot)
    long :
        (total_len : ℕ) (proofs slots : List Bytes)
        → bit_and (last_byte base_slot) 1 ≢ 0
        → decode_long_bytes_length w base_slot ≡ ok total_len
        → total_len < 2 ^ (w - 1)
        → ProvesAll (chain.keccak_256 base_slot_key) 0 proofs slots
        → length slots ≡ slots_of total_len
        → IsProved base_slot_key base_slot proofs (take total_len (concat slots))

  module _ (ready : (id : ℕ) (bytes : Bytes) → socket.request id bytes ≡ ok tt) where
    child_slot_answers :
        (key proof s : Bytes) (conn : Conn) (rest : Incoming)
        → state_answers (socket.state_id) (conn.incoming) ≡ answer (socket.state_id) proof ∷ rest
        → Proves key proof s
        → (conn' : Conn) × (request_child_slot w lib (chain.blake2_256) socket head trie_id key conn
            ≡ ok (s, conn'))
          × (state_answers (socket.state_id) (conn'.incoming) ≡ rest)
    unfolding request_child_slot ask_state
    child_slot_answers key proof s conn rest e (v, l) =
        let (left, q, h) = wait_answers (socket.state_id) (conn.incoming) proof rest e in
        let req =
          encode_state_request (head.hash)
            (child_storage_default_prefix trie_id ∷ chain.blake2_256 key ∷ []) in
        (
          record { incoming = left; sent = conn.sent ++ ((socket.state_id, req) ∷ []) },
          rw (ready, q, v, l) refl,
          h,
        )

    read_slots_answers :
        (base : Bytes) (total : ℕ) (proofs slots : List Bytes) (i : ℕ) (conn : Conn)
        (rest : Incoming)
        → state_answers (socket.state_id) (conn.incoming)
          ≡ map (answer (socket.state_id)) proofs ++ rest
        → ProvesAll base i proofs slots
        → read_slots w lib chain socket head trie_id base total (length slots) i conn
          ≡ ok (take (total - i * 32) (concat slots))
    unfolding read_slots
    read_slots_answers base total [] [] i conn rest e p = ap ok (sym (take_nil (total - i * 32)))
    read_slots_answers base total [] (s ∷ slots) i conn rest e p = absurd p
    read_slots_answers base total (b ∷ proofs) [] i conn rest e p = absurd p
    read_slots_answers base total (b ∷ proofs) (s ∷ slots) i conn rest e (p, ps) =
        let (conn', q, h) = child_slot_answers (u256_add base i) b s conn _ e p in
        rw (q, read_slots_answers base total proofs slots (i + 1) conn' rest h ps)
          (ap ok (read_slots_append total i s (concat slots) (p.1)))

    read_value_answers :
        (key base_slot found : Bytes) (proofs : List Bytes) (conn : Conn) (rest : Incoming)
        → state_answers (socket.state_id) (conn.incoming)
          ≡ map (answer (socket.state_id)) proofs ++ rest
        → IsProved key base_slot proofs found
        → read_value w lib chain socket head trie_id key base_slot conn ≡ ok found
    unfolding read_value
    read_value_answers key base_slot found proofs conn rest e (short even fits) =
        rw (==_true even, read_value, ltb-false fits) refl
    read_value_answers key base_slot found proofs conn rest e
          (long total ps slots odd d small h n) =
        rw
          (
            ==_false odd,
            read_value,
            d,
            leb-false small,
            sym n,
            read_slots_answers (chain.keccak_256 key) total proofs slots 0 conn rest e h,
          )
          (ap ok (from_start total (concat slots)))

    -- The AssetHub phase with a cached trie id returns when the peer answers: the connection
    -- opens and takes every request, the subscription opens, and the state responses after that
    -- are, in order and with anything between them, a proof of the base slot and proofs of the
    -- further slots that its value has. Then the phase returns that value.
    pub assethub_phase_answers :
        (contract_addr base_slot_key base_proof base_slot found : Bytes) (proofs : List Bytes)
        (wss_url : Text) (after rest : Incoming)
        → socket.open_ws wss_url ≡ ok tt
        → socket.handshake ≡ ok tt
        → socket.subscribe (socket.announces_id) ≡ ok tt
        → wait_for_subscription_open (socket.announces_id) (socket.incoming) ≡ ok after
        → state_answers (socket.state_id) after
          ≡ answer (socket.state_id) base_proof ∷ (map (answer (socket.state_id)) proofs ++ rest)
        → Proves base_slot_key base_proof base_slot
        → IsProved base_slot_key base_slot proofs found
        → assethub_phase w lib chain socket head contract_addr base_slot_key (some trie_id) wss_url
          ≡ ok (record { contenthash = found; fetched_trie_id = none })
    unfolding assethub_phase find_trie_id
    assethub_phase_answers addr key base_proof base_slot found proofs url after rest o h s opens e p
          q =
        let conn : Conn = record { incoming = after; sent = [] } in
        let (conn', r, left) = child_slot_answers key base_proof base_slot conn _ e p in
        rw
          (
            connect_gives socket url o h s,
            opens,
            r,
            read_value_answers key base_slot found proofs conn' rest left q,
          )
          refl
