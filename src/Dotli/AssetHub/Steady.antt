-- ===== src/Dotli/AssetHub/Steady.antt =====
-- `assethub_phase` of example/dotli/src/lib.rs does not panic on a value that Solidity writes.
use microdot.Base.{
  ℕ, zero, suc, ◌+◌, ◌-◌, ◌*◌, ◌/◌, ◌%◌, ◌^◌, ◌≤◌, ◌<◌, ◌≡◌, ◌≢◌, refl, sym, ap, ◌∙◌, ◌==◌, leb,
  ltb, Bool, true, false, Option, none, some, [], ◌∷◌, Bytes, length, bit_and, Result, ok, err,
  ok_or, map_err, map_err-eq-ok, if◌then◌else◌, Bool-cases, ◌⊎◌, inl, inr, arith, ◌>>=◌,
}
use native.Mathlib.Nat.{mod-le}
use microdot.Base.Bits.{bit_and_one}
use microdot.Text.{Text}
use microdot.State.{TrieLibrary, child_storage_default_prefix, verify_top_proof, verify_child_proof}
use microdot.Kad.Request.{value, failed}
use microdot.State.Soundness.{Storage, IsSound}
use microdot.Dotli.Words.{last_byte, decode_long_bytes_length, revive_account_info_key, u256_add}
use microdot.Dotli.Session.{
  AssetHubHead, Socket, Conn, PhaseError, panicked, Incoming, opened, response, other, slot,
  verifying, connect, wait_for_subscription_open, wait_for_state_response, ask_state,
  request_top_storage, request_child_slot, slot_length, decoding_account_info, schema_drift,
  no_contract, connection, refused,
}
use microdot.Dotli.Session.Reads.{request_child_slot_sound, request_child_slot_held}
use microdot.Dotli.AssetHub.{
  Chain, AccountType, contract, eoa, contract_trie_id, find_trie_id, read_slots, read_value,
  slots_of, assethub_phase,
}
use microdot.Dotli.AssetHub.Forms.{
  word, word_parity, last_byte_end, IsShort, decode_long_bytes_length-word,
}

true_ne_false : true ≢ false
true_ne_false e = cc

abbrev is_panic : PhaseError → Bool
is_panic panicked = true
is_panic e = false

-- The computation does not panic.
abbrev panics : {X : Type 0} → Result PhaseError X → Bool
panics (ok x) = false
panics (err e) = is_panic e

bind_steady :
    {X Y : Type 0} (m : Result PhaseError X) (f : X → Result PhaseError Y)
    → panics m ≡ false
    → ((x : X) → m ≡ ok x → panics (f x) ≡ false)
    → panics (m >>= f) ≡ false
bind_steady (ok x) f h k = k x refl
bind_steady (err e) f h k = h

map_err_steady :
    {E X : Type 0} (g : E → PhaseError) (m : Result E X)
    → ((e : E) → is_panic (g e) ≡ false)
    → panics (map_err g m) ≡ false
map_err_steady g (ok x) h = refl
map_err_steady g (err e) h = h e

ok_or_steady :
    {X : Type 0} (o : Option X) (e : PhaseError) → is_panic e ≡ false → panics (ok_or o e) ≡ false
ok_or_steady none e h = h
ok_or_steady (some x) e h = refl

if_steady :
    {X : Type 0} (b : Bool) (m n : Result PhaseError X)
    → panics m ≡ false
    → panics n ≡ false
    → panics (if b then m else n) ≡ false
if_steady true m n h k = h
if_steady false m n h k = k

wait_open_steady :
    (id : ℕ) (incoming : Incoming) → panics (wait_for_subscription_open id incoming) ≡ false
unfolding wait_for_subscription_open
wait_open_steady id [] = refl
wait_open_steady id (err e ∷ rest) = refl
wait_open_steady id (ok (opened p) ∷ rest) =
    if_steady _ (ok rest) (wait_for_subscription_open id rest) refl (wait_open_steady id rest)
wait_open_steady id (ok (response p res) ∷ rest) = wait_open_steady id rest
wait_open_steady id (ok other ∷ rest) = wait_open_steady id rest

wait_response_steady :
    (id : ℕ) (incoming : Incoming) → panics (wait_for_state_response id incoming) ≡ false
unfolding wait_for_state_response
wait_response_steady id [] = refl
wait_response_steady id (err e ∷ rest) = refl
wait_response_steady id (ok (response p (value bytes)) ∷ rest) =
    if_steady _ (ok (bytes, rest)) (wait_for_state_response id rest) refl
      (wait_response_steady id rest)
wait_response_steady id (ok (response p (failed e)) ∷ rest) =
    if_steady _ (err (refused e)) (wait_for_state_response id rest) refl
      (wait_response_steady id rest)
wait_response_steady id (ok (opened p) ∷ rest) = wait_response_steady id rest
wait_response_steady id (ok other ∷ rest) = wait_response_steady id rest

connect_steady : (socket : Socket) (url : Text) → panics (connect socket url) ≡ false
unfolding connect
connect_steady socket url =
    bind_steady _ _ (map_err_steady _ (socket.open_ws url) (λ e. refl)) (λ a q.
      bind_steady _ _ (map_err_steady _ (socket.handshake) (λ e. refl)) (λ b r.
        bind_steady _ _ (map_err_steady _ (socket.subscribe (socket.announces_id)) (λ e. refl))
          (λ c s. refl)))

module _ {D : Type 0} (w : ℕ) (lib : TrieLibrary D) (blake2_256 : Bytes → Bytes)
    (socket : Socket) where
  ask_state_steady :
      (req : Bytes) (conn : Conn) → panics (ask_state w lib blake2_256 socket req conn) ≡ false
  unfolding ask_state
  ask_state_steady req conn =
      bind_steady _ _ (map_err_steady connection (socket.request (socket.state_id) req) (λ e. refl))
        (λ a q.
          bind_steady _ _ (wait_response_steady (socket.state_id) (conn.incoming)) (λ b r. refl))

  request_top_steady :
      (head : AssetHubHead) (key : Bytes) (conn : Conn)
      → panics (request_top_storage w lib blake2_256 socket head key conn) ≡ false
  unfolding request_top_storage
  request_top_steady head key conn = bind_steady _ _ (ask_state_steady _ conn) (λ a q.
      bind_steady _ _
        (map_err_steady verifying (verify_top_proof w lib (a.0) (head.state_root) key) (λ e. refl))
        (λ b r. refl))

  pub request_child_steady :
      (head : AssetHubHead) (trie_id key : Bytes) (conn : Conn)
      → panics (request_child_slot w lib blake2_256 socket head trie_id key conn) ≡ false
  unfolding request_child_slot
  request_child_steady head trie_id key conn = bind_steady _ _ (ask_state_steady _ conn) (λ a q.
      bind_steady _ _
        (map_err_steady verifying
          (verify_child_proof w lib (a.0) (head.state_root) trie_id (blake2_256 key)) (λ e. refl))
        (λ b r. if_steady _ (err (slot_length (length (b)))) (ok (b, a.1)) refl refl))

-- A base slot that Solidity writes, of a value whose bytes can be allocated: a short one with up to
-- 32 bytes, or a long one with less than 2 ^ (w - 1).
abbrev pub IsFormed : ℕ → Bytes → Type 0
IsFormed w base_slot =
    ((found : Bytes) × IsShort base_slot found)
    ⊎ ((total : ℕ) × (word base_slot ≡ 2 * total + 1) × (total < 2 ^ (w - 1)))

module _ {D : Type 0} (w : ℕ) (lib : TrieLibrary D) (chain : Chain) (socket : Socket)
    (head : AssetHubHead) where
  if_fits :
      (n : ℕ) (bytes : Bytes)
      → n ≤ 32
      → panics (if ltb 32 n then err panicked else ok bytes) ≡ false
  if_fits n bytes h = ground (arith, h)

  if_allocated :
      (n : ℕ)
      → n < 2 ^ (w - 1)
      → panics (if leb (2 ^ (w - 1)) n then err panicked else ok (tt {0})) ≡ false
  if_allocated n h = ground (arith, h)

  short_fits :
      (base_slot : Bytes)
      → IsFormed w base_slot
      → (bit_and (last_byte base_slot) 1 == 0) ≡ true
      → last_byte base_slot / 2 ≤ 32
  short_fits base_slot (inl (found, h)) q =
      omega (arith, h.fits, ap last_byte (h.marked) ∙ last_byte_end (h.front) (2 * h.len))
  short_fits base_slot (inr (total, e, l)) q = absurd (
      ground
        (arith, q, bit_and_one (last_byte base_slot), word_parity base_slot, ap (λ n. n % 2) e))

  long_fits :
      (base_slot : Bytes) (cut : ℕ)
      → IsFormed w base_slot
      → (bit_and (last_byte base_slot) 1 == 0) ≡ false
      → decode_long_bytes_length w base_slot ≡ ok cut
      → cut < 2 ^ (w - 1)
  long_fits base_slot cut (inl (found, h)) q e = absurd (
      ground (
        arith,
        q,
        bit_and_one (last_byte base_slot),
        ap last_byte (h.marked) ∙ last_byte_end (h.front) (2 * h.len),
      ))
  long_fits base_slot cut (inr (total, e, l)) q d =
      let (total', e', c) = decode_long_bytes_length-word w cut base_slot d in
      let same : total' ≡ total = omega (arith, e, e') in
      omega (arith, l, c, same, mod-le total' (2 ^ w))

  contract_trie_id_steady :
      (info : Bytes) → panics (contract_trie_id w lib chain socket head info) ≡ false
  unfolding contract_trie_id
  contract_trie_id_steady info =
      bind_steady _ _ (ok_or_steady (chain.decode_account_info info) decoding_account_info refl)
        (λ (acc, cursor) q.
          bind_steady _ _
            (if_steady (length cursor == 0) (ok (tt {0})) (err (schema_drift (length cursor))) refl
              refl)
            (λ b r. of_type (acc.account_type)))
    where
      of_type :
          (a : AccountType)
          → panics (elim a [ contract trie_id ↦ ok trie_id | eoa ↦ err no_contract ]) ≡ false
      of_type (contract t) = refl
      of_type eoa = refl

  find_trie_id_steady :
      (addr : Bytes) (cached : Option Bytes) (conn : Conn)
      → panics (find_trie_id w lib chain socket head addr cached conn) ≡ false
  unfolding find_trie_id
  find_trie_id_steady addr (some t) conn = refl
  find_trie_id_steady addr none conn =
      bind_steady _ _
        (request_top_steady w lib (chain.blake2_256) socket head
          (revive_account_info_key (chain.twox_128) addr) conn)
        (λ a q. bind_steady _ _ (contract_trie_id_steady (a.0)) (λ b r. refl))

  read_slots_steady :
      (trie_id base : Bytes) (total left i : ℕ) (conn : Conn)
      → panics (read_slots w lib chain socket head trie_id base total left i conn) ≡ false
  unfolding read_slots
  read_slots_steady trie_id base total zero i conn = refl
  read_slots_steady trie_id base total (suc left) i conn =
      bind_steady _ _
        (request_child_steady w lib (chain.blake2_256) socket head trie_id (u256_add base i) conn)
        (λ a q.
          bind_steady _ _ (read_slots_steady trie_id base total left (i + 1) (a.1)) (λ b r. refl))

  read_value_steady :
      (trie_id key base_slot : Bytes) (conn : Conn)
      → IsFormed w base_slot
      → panics (read_value w lib chain socket head trie_id key base_slot conn) ≡ false
  unfolding read_value
  read_value_steady trie_id key base_slot conn formed =
      elim (Bool-cases (bit_and (last_byte base_slot) 1 == 0)) [
        | inl q ↦
            rw (q, read_value) (if_fits (last_byte base_slot / 2) _ (short_fits base_slot formed q))
        | inr q ↦
            rw (q, read_value)
              (bind_steady _ _
                (map_err_steady slot (decode_long_bytes_length w base_slot) (λ e. refl))
                (λ cut e.
                  bind_steady _ _
                    (if_allocated cut (long_fits base_slot cut formed q (map_err-eq-ok slot _ e)))
                    (λ u r.
                      read_slots_steady trie_id (chain.keccak_256 key) cut (slots_of cut) 0 conn)))
      ]

module _ {D : Type 0} (w : ℕ) (lib : TrieLibrary D) (chain : Chain) (socket : Socket)
    (Commits : Bytes → Storage → Type 0) (sound : IsSound lib Commits) (head : AssetHubHead)
    (storage : Storage) (committed : Commits (head.state_root) storage) where
  -- If, with a sound trie library, every base slot that the child storages hold for the key is
  -- formed, then the phase does not panic, whatever the peer answers.
  pub assethub_phase_steady :
      (children : Bytes → Storage)
      → ((t root : Bytes)
          → storage (child_storage_default_prefix t) ≡ some root
          → Commits root (children t))
      → (contract_addr base_slot_key : Bytes) (cached : Option Bytes) (wss_url : Text)
      → ((t base_slot : Bytes)
          → children t (chain.blake2_256 base_slot_key) ≡ some base_slot
          → IsFormed w base_slot)
      → assethub_phase w lib chain socket head contract_addr base_slot_key cached wss_url
        ≢ err panicked
  unfolding assethub_phase
  assethub_phase_steady children committed_child addr key cached url formed e =
      true_ne_false (sym (ap panics e) ∙ no_panic)
    where
      no_panic : panics (assethub_phase w lib chain socket head addr key cached url) ≡ false
      no_panic = bind_steady _ _ (connect_steady socket url) (λ conn q₁.
          bind_steady _ _ (wait_open_steady (socket.announces_id) (conn.incoming)) (λ rest q₂.
            bind_steady _ _
              (find_trie_id_steady w lib chain socket head addr cached
                (record { incoming = rest; sent = conn.sent }))
              (λ (t, fetched, conn') q₃.
                bind_steady _ _
                  (request_child_steady w lib (chain.blake2_256) socket head t key conn')
                  (λ (base_slot, mid) q₄.
                    let (child_root, held) =
                      request_child_slot_held w lib (chain.blake2_256) socket Commits sound head t
                        key base_slot conn' mid storage committed q₄ in
                    let (there, l) =
                      request_child_slot_sound w lib (chain.blake2_256) socket Commits sound head t
                        key base_slot child_root conn' mid storage (children t) committed held
                        (committed_child t child_root held) q₄ in
                    bind_steady _ _
                      (read_value_steady w lib chain socket head t key base_slot mid
                        (formed t base_slot there))
                      (λ found q₅. refl)))))
