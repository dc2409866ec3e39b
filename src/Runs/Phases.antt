-- ===== src/Runs/Phases.antt =====
-- Runs of the two phases of example/dotli/src/lib.rs, with a socket that answers both.
use microdot.Base.{
  ℕ, List, ap, Result, ◌≡◌, refl, true, false, none, some, [], ◌∷◌, Bytes, length, ok, ◌==◌, arith,
}
use microdot.Text.{Text}
use microdot.Kad.Request.{value}
use microdot.Dotli.Persistence.{GrandpaState}
use microdot.Dotli.Words.{revive_account_info_key}
use microdot.Dotli.Session.{
  AssetHubHead, opened, response, other, Socket, connect, wait_for_subscription_open,
  wait_for_state_response, request_top_storage, request_child_slot, ask_state,
}
use microdot.Dotli.Relay.{WarpSync, relay_phase}
use microdot.Dotli.Relay.Sound.{Warped, IsHeadOf, relay_phase_sound}
use microdot.Dotli.Relay.Answers.{requests_of, last, relay_phase_answers}
use microdot.Dotli.AssetHub.{
  contract, Chain, assethub_phase, find_trie_id, contract_trie_id, read_value,
}
use microdot.Dotli.AssetHub.Value.{IsBytesAt}
use microdot.Dotli.AssetHub.Answers.{IsProved, short, assethub_phase_answers}
use microdot.Dotli.AssetHub.Sound.{IsTrieIdOf, assethub_phase_sound}
use microdot.Runs.Toys.{
  zeros, slot, held, library, Commits, library-IsSound, proof, top_value, child_value,
}

-- One fragment leads to block 9 and is the last.
abbrev pub warp : WarpSync Bytes
warp = record {
  update_with_warp_sync_response = λ bytes gs. (
    ok true,
    record gs { finalized_number = 9; finalized_hash = zeros; finalized_state_root = zeros },
  );
  decode_head_data = λ bytes. some bytes;
  decode_header = λ bytes. some (record { number = 7; hash = slot; state_root = zeros });
}

abbrev pub old_state : GrandpaState Bytes
old_state = record {
  authorities = 1 ∷ [];
  set_id = 5;
  finalized_number = 8;
  finalized_hash = zeros;
  finalized_state_root = zeros;
}

abbrev new_state : GrandpaState Bytes
new_state = record old_state {
  finalized_number = 9;
  finalized_hash = zeros;
  finalized_state_root = zeros;
}

abbrev pub head : AssetHubHead
head = record { number = 7; hash = slot; state_root = zeros }

-- the subscription, some noise, a fragment, and proofs
abbrev pub socket : Socket
socket = record {
  open_ws = λ url. ok tt;
  handshake = ok tt;
  subscribe = λ id. ok tt;
  request = λ id bytes. ok tt;
  incoming =
      ok other
      ∷ ok (opened 1)
      ∷ ok (response 2 (value []))
      ∷ ok other
      ∷ ok (response 3 (value proof))
      ∷ ok (response 3 (value proof))
      ∷ [];
  announces_id = 1;
  warp_id = 2;
  state_id = 3;
}

abbrev pub chain : Chain
chain = record {
  keccak_256 = λ bytes. zeros;
  blake2_256 = λ bytes. 1 ∷ [];
  twox_128 = λ bytes. bytes;
  decode_account_info = λ bytes. some (record { account_type = contract (9 ∷ []); dust = 0 }, []);
}

pub slot_is_head : IsHeadOf warp slot head
slot_is_head = (slot, record { number = 7; hash = slot; state_root = zeros }, refl, refl, refl)

relay_answered :
    relay_phase 32 library warp (1 ∷ []) socket old_state []
    ≡ (ok (new_state, head), (2, zeros) ∷ requests_of warp (1 ∷ []) socket old_state ([] ∷ []))
relay_answered =
    relay_phase_answers 32 library warp (1 ∷ []) socket old_state new_state [] ([] ∷ []) proof slot
      head (ok (response 3 (value proof)) ∷ []) refl refl refl (λ id bytes. refl) (omega arith) refl
      (last old_state new_state [] refl) (top_value zeros (1 ∷ []) refl) slot_is_head

relay_phase_answers_example :
    relay_phase 32 library warp (1 ∷ []) socket old_state []
    ≡ (ok (new_state, head), (2, zeros) ∷ requests_of warp (1 ∷ []) socket old_state ([] ∷ []))
relay_phase_answers_example =
    relay_phase_answers 32 library warp (1 ∷ []) socket old_state new_state [] ([] ∷ []) proof slot
      head (ok (response 3 (value proof)) ∷ []) refl refl refl (λ id bytes. refl) (omega arith) refl
      (last old_state new_state [] refl) (top_value zeros (1 ∷ []) refl) slot_is_head

abbrev address : Bytes
address = 4 ∷ []

info_key : (length (revive_account_info_key (λ bytes. bytes) address) == 24) ≡ false
unfolding revive_account_info_key
info_key = refl

pub assethub_answered :
    (address key : Bytes) (url : Text)
    → (length (revive_account_info_key (λ bytes. bytes) address) == 24) ≡ false
    → assethub_phase 32 library chain socket head address key none url
      ≡ ok (record { contenthash = 0xe3 ∷ 1 ∷ 1 ∷ 0x71 ∷ []; fetched_trie_id = some (9 ∷ []) })
unfolding assethub_phase connect wait_for_subscription_open find_trie_id request_top_storage
    ask_state wait_for_state_response contract_trie_id request_child_slot read_value
assethub_answered address key url h =
    rw (top_value zeros (revive_account_info_key (λ bytes. bytes) address) h)
      (rw (child_value zeros (1 ∷ []) refl) refl)

assethub_phase_sound_example :
    (trie_id : Bytes) × IsTrieIdOf 32 library chain socket Commits library-IsSound head
      (held zeros)
      (λ key. refl)
      none
      address
      trie_id
      (some (9 ∷ []))
    × IsBytesAt (λ bytes. zeros) (λ bytes. 1 ∷ []) (held zeros) 32 zeros (0xe3 ∷ 1 ∷ 1 ∷ 0x71 ∷ [])
assethub_phase_sound_example =
    assethub_phase_sound 32 library chain socket Commits library-IsSound head (held zeros)
      (λ key. refl) (λ t. held zeros) (λ t root e key. refl) address zeros none []
      (record { contenthash = 0xe3 ∷ 1 ∷ 1 ∷ 0x71 ∷ []; fetched_trie_id = some (9 ∷ []) })
      (assethub_answered address zeros [] info_key)

opening :
    wait_for_subscription_open 1 (socket.incoming)
    ≡ ok (
        ok (response 2 (value []))
        ∷ ok other
        ∷ ok (response 3 (value proof))
        ∷ ok (response 3 (value proof))
        ∷ [])
unfolding wait_for_subscription_open
opening = refl

slot_is_short :
    IsProved 32 library chain socket head (9 ∷ []) zeros slot [] (0xe3 ∷ 1 ∷ 1 ∷ 0x71 ∷ [])
slot_is_short = short refl (omega arith)

assethub_phase_answers_example :
    assethub_phase 32 library chain socket head address zeros (some (9 ∷ [])) []
    ≡ ok (record { contenthash = 0xe3 ∷ 1 ∷ 1 ∷ 0x71 ∷ []; fetched_trie_id = none })
assethub_phase_answers_example =
    assethub_phase_answers 32 library chain socket head (9 ∷ []) (λ id bytes. refl) address zeros
      proof slot (0xe3 ∷ 1 ∷ 1 ∷ 0x71 ∷ []) [] []
      (ok (response 2 (value []))
        ∷ ok other
        ∷ ok (response 3 (value proof))
        ∷ ok (response 3 (value proof))
        ∷ [])
      (ok (response 3 (value proof)) ∷ []) refl refl refl opening refl
      (child_value zeros (1 ∷ []) refl, refl) slot_is_short

relay_phase_sound_example :
    Warped warp old_state new_state
    × ((found : Bytes) × (held zeros (1 ∷ []) ≡ some found) × IsHeadOf warp found head)
relay_phase_sound_example =
    relay_phase_sound 32 library warp (1 ∷ []) socket Commits library-IsSound old_state new_state []
      head (held zeros) (λ key. refl)
      (ap (λ (x : Result _ (GrandpaState Bytes × AssetHubHead) × List (ℕ × Bytes)). x.0)
        relay_answered)
