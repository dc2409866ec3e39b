-- ===== src/Runs/Messages.antt =====
-- Runs of the message readers of src/kad.rs. The base58 encoder is the identity here.
use microdot.Base.{
  false, ◌≡◌, ◌≢◌, refl, some, [], ◌∷◌, ◌++◌, Bytes, All, List, Result, ok, err, map_err, arith,
}
use microdot.Text.{Text, text}
use microdot.Wire.{encode_varint, eof}
use microdot.Wire.Field.{Field, IsEncodable, varint, delimited, fixed32, encode_fields}
use microdot.Wire.Walk.{out_of_fuel, raised}
use microdot.Kad.Message.{DiscoveredPeer, decode_peer, decode_find_node_response}
use microdot.Kad.Message.RoundTrip.{peers_of, decode_find_node_response-encode_fields}
use microdot.Kad.Message.Truncated.{decode_find_node_response_truncated}
use microdot.Kad.Message.Readers.{decode_find_node_response_ends}
use microdot.Kad.Message.Peer.{decode_peer-encode_fields, peer_with}
use microdot.Kad.Multiaddr.{multiaddr_to_wss_url}
use microdot.Kad.Request.{
  ConnMessage, RequestError, response, value, failed, decoding, remote, connection, closed,
  one_shot_find_node,
}
use microdot.Kad.Request.Answers.{one_shot_find_node_answers}

abbrev base58 : Bytes → Text
base58 x = x

-- `/dns/a/tcp/443/wss`
abbrev address : Bytes
address = 53 ∷ 1 ∷ 97 ∷ 6 ∷ 1 ∷ 187 ∷ 222 ∷ 3 ∷ []

abbrev peer_fields : List Field
peer_fields =
    record { number = 1; payload = delimited (5 ∷ 6 ∷ []) }
    ∷ record { number = 2; payload = delimited address }
    ∷ []

peer_fields-IsEncodable : All (IsEncodable 32) peer_fields
peer_fields-IsEncodable =
    ((omega arith, (omega arith, omega arith)), ((omega arith, (omega arith, omega arith)), tt))

decode_peer-encode_fields_example :
    decode_peer 32 base58 (encode_fields peer_fields)
    ≡ peer_with base58 false (some (5 ∷ 6 ∷ [])) (multiaddr_to_wss_url 32 address)
decode_peer-encode_fields_example =
    decode_peer-encode_fields 32 base58 peer_fields peer_fields-IsEncodable

abbrev response_fields : List Field
response_fields =
    record { number = 1; payload = varint 4 }
    ∷ record { number = 10; payload = fixed32 (1 ∷ 2 ∷ 3 ∷ 4 ∷ []) }
    ∷ record { number = 8; payload = delimited (encode_fields peer_fields) }
    ∷ []

abbrev peer : DiscoveredPeer
peer = record { peer_id_base58 = 5 ∷ 6 ∷ []; wss_url = text "wss://a:443/" }

response_fields-IsEncodable : All (IsEncodable 32) response_fields
unfolding encode_varint
response_fields-IsEncodable = (
  (omega arith, omega arith),
  ((omega arith, refl), ((omega arith, (omega arith, omega arith)), tt)),
)

decode_find_node_response-encode_fields_example :
    decode_find_node_response 32 base58 (encode_fields response_fields)
    ≡ ok (peers_of 32 base58 [] response_fields)
decode_find_node_response-encode_fields_example =
    decode_find_node_response-encode_fields 32 base58 response_fields response_fields-IsEncodable

-- a response of one varint field
abbrev type_field : List Field
type_field = record { number = 1; payload = varint 4 } ∷ []

abbrev empty_response : Bytes
empty_response = encode_fields type_field

decode_empty_response : decode_find_node_response 32 base58 empty_response ≡ ok []
decode_empty_response =
    decode_find_node_response-encode_fields 32 base58 type_field ((omega arith, omega arith), tt)

decode_find_node_response_ends_example :
    decode_find_node_response 32 base58 (0x42 ∷ 9 ∷ []) ≢ err out_of_fuel
decode_find_node_response_ends_example = decode_find_node_response_ends 32 base58 (0x42 ∷ 9 ∷ [])

abbrev key : Bytes
key =
    0 ∷ 1 ∷ 2 ∷ 3 ∷ 4 ∷ 5 ∷ 6 ∷ 7 ∷ 8 ∷ 9 ∷ 10 ∷ 11 ∷ 12 ∷ 13 ∷ 14 ∷ 15 ∷ 16 ∷ 17 ∷ 18 ∷ 19 ∷ 20
    ∷ 21 ∷ 22 ∷ 23 ∷ 24 ∷ 25 ∷ 26 ∷ 27 ∷ 28 ∷ 29 ∷ 30 ∷ 31 ∷ []

abbrev sent : Bytes → Result Text (Unit {0})
sent bytes = ok tt

abbrev answers : List (Result Text ConnMessage) → Result RequestError (List DiscoveredPeer)
answers incoming = one_shot_find_node 32 base58 0 sent ((ok ConnMessage.other ∷ []) ++ incoming) key

one_shot_find_node_answers_example :
    (answers (ok (response 0 (value empty_response)) ∷ [])
      ≡ map_err decoding (decode_find_node_response 32 base58 empty_response))
    × (answers (ok (response 0 (failed (text "no"))) ∷ []) ≡ err (remote (text "no")))
    × (answers (err (text "no") ∷ []) ≡ err (connection (text "no")))
    × (answers [] ≡ err closed)
one_shot_find_node_answers_example =
    one_shot_find_node_answers 32 base58 0 sent key (ok ConnMessage.other ∷ []) [] empty_response
      (text "no") refl (tt, tt)

-- a peer field of nine bytes, of which two follow
decode_find_node_response_truncated_example :
    decode_find_node_response 32 base58
      (encode_fields response_fields ++ (encode_varint 66 ++ (encode_varint 9 ++ (1 ∷ 2 ∷ []))))
    ≡ err (raised (eof 9 2))
decode_find_node_response_truncated_example =
    decode_find_node_response_truncated 32 base58 response_fields 8 9 (1 ∷ 2 ∷ [])
      response_fields-IsEncodable (omega arith) (omega arith) (omega arith) (omega arith)
