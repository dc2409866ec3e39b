-- ===== src/Kad/Message.antt =====
-- src/kad.rs: the FIND_NODE request and the decoder of its response. The base58 text
-- of a peer id is the bs58 crate's: `bs58_encode`. `usize` is `w` bits wide.
pub mod Readers
pub mod Encode
pub mod Peer
pub mod RoundTrip
pub mod Truncated
use microdot.Base.{
  ℕ, ◌+◌, ◌/◌, Bool, ◌&&◌, Option, none, some, List, [], ◌∷◌, ◌++◌, Bytes, bit_and, ◌==◌,
  if◌then◌else◌, Result, ok, err, ◌>>=◌, map_err,
}
use microdot.Text.{Text}
use microdot.Wire.{
  Error, top_level_tag, unsupported_wire_type, encode_varint, decode_varint, take_bytes,
  take_delimited,
}
use microdot.Wire.Walk.{Halt, run}
use microdot.Kad.Multiaddr.{attempt, multiaddr_to_wss_url}

pub record DiscoveredPeer : Type 0 where
  pub peer_id_base58 : Text
  pub wss_url : Text

-- The argument is a `[u8; 32]`.
unfoldable pub target_multihash : Bytes → Bytes
target_multihash ed25519_pubkey = 0x00 ∷ 0x24 ∷ 0x08 ∷ 0x01 ∷ 0x12 ∷ 0x20 ∷ ed25519_pubkey

-- `fill_with_random_bytes` is the platform's: it fills a buffer of the length that it is given.
unfoldable pub random_target {ℓ} : {P : Type ℓ} → (ℕ → P → Bytes × P) → P → Bytes × P
unfolding target_multihash
random_target fill_with_random_bytes platform =
    let (key, platform') = fill_with_random_bytes 32 platform in (target_multihash key, platform')

unfoldable pub encode_find_node : Bytes → Bytes
encode_find_node target = 0x08 ∷ 0x04 ∷ 0x12 ∷ (encode_varint 38 ++ target)

-- The variables of the loop of `decode_peer`.
pub record PeerFields : Type 0 where
  pub id_bytes : Option Bytes
  pub url : Option Text

-- `if wss_url.is_none() { wss_url = multiaddr_to_wss_url(addr_bytes); }`
first_url : Option Text → Option Text → Option Text
first_url none found = found
first_url (some url) found = some url

module _ (w : ℕ) where
  -- The `match` of `decode_peer`; `err tt` is `return None`.
  peer_field : PeerFields → ℕ → Bytes → Result (Unit {0}) (PeerFields × Bytes)
  unfolding first_url
  peer_field f tag input =
      let field_id = tag / 8 in
      let wire_type = bit_and tag 0x07 in
      if field_id == 1 && wire_type == 2
      then (do
        (id, input) ← attempt (take_delimited w input)
        ok (record f { id_bytes = some id }, input))
      else if field_id == 2 && wire_type == 2
      then (do
        (addr_bytes, input) ← attempt (take_delimited w input)
        ok (record f { url = first_url f.url (multiaddr_to_wss_url w addr_bytes) }, input))
      else if wire_type == 0
      then (do (v, input) ← attempt (decode_varint input); ok (f, input))
      else if wire_type == 2
      then (do (x, input) ← attempt (take_delimited w input); ok (f, input))
      else err tt

  unfoldable pub peer_step : PeerFields → Bytes → Result (Unit {0}) (PeerFields × Bytes)
  unfolding peer_field
  peer_step f input = do (tag, input) ← attempt (decode_varint input); peer_field f tag input

module _ (w : ℕ) (bs58_encode : Bytes → Text) where
  peer_of : PeerFields → Option DiscoveredPeer
  peer_of f = elim f.id_bytes [
    | none ↦ none
    | some id ↦ elim f.url [
      | none ↦ none
      | some url ↦ some (record { peer_id_base58 = bs58_encode id; wss_url = url })
    ]
  ]

  unfoldable pub decode_peer : Bytes → Option DiscoveredPeer
  unfolding peer_of
  decode_peer input = elim (run (peer_step w) (record { id_bytes = none; url = none }) input) [
    | ok f ↦ peer_of f
    | err _ ↦ none
  ]

  -- `if let Some(peer) = … { out.push(peer); }`
  abbrev pub push_some : List DiscoveredPeer → Option DiscoveredPeer → List DiscoveredPeer
  push_some out none = out
  push_some out (some peer) = out ++ (peer ∷ [])

  -- The `match` of `decode_find_node_response`.
  response_field : List DiscoveredPeer → ℕ → Bytes → Result Error (List DiscoveredPeer × Bytes)
  response_field out tag input =
      let field_id = tag / 8 in
      let wire_type = bit_and tag 0x07 in
      if field_id == 8 && wire_type == 2
      then (do
        (peer_bytes, input) ← take_delimited w input
        ok (push_some out (decode_peer peer_bytes), input))
      else if wire_type == 0
      then (do (v, input) ← decode_varint input; ok (out, input))
      else if wire_type == 2
      then (do (x, input) ← take_delimited w input; ok (out, input))
      else if wire_type == 5
      then (do (x, input) ← take_bytes input 4; ok (out, input))
      else if wire_type == 1
      then (do (x, input) ← take_bytes input 8; ok (out, input))
      else err (unsupported_wire_type wire_type field_id)

  unfoldable pub response_step :
      List DiscoveredPeer → Bytes → Result Error (List DiscoveredPeer × Bytes)
  unfolding response_field
  response_step out input = do
    (tag, input) ← map_err top_level_tag (decode_varint input)
    response_field out tag input

  unfoldable pub decode_find_node_response : Bytes → Result (Halt Error) (List DiscoveredPeer)
  decode_find_node_response bytes = run response_step [] bytes
