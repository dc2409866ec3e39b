-- ===== src/Kad/Message/RoundTrip.antt =====
-- The two decoders against the description of messages by fields.
use microdot.Base.{
  ℕ, ◌+◌, ◌*◌, ◌≡◌, ◌∙◌, List, [], ◌∷◌, ◌++◌, Bytes, All, ◌==◌, if◌then◌else◌, ok, arith,
}
use microdot.Text.{Text}
use microdot.Wire.Field.{
  Payload, PayloadFits, Field, varint, delimited, fixed32, fixed64, wire_type, encode_payload,
  encode_field, encode_fields, IsEncodable, tag-number, tag-wire_type, decode-tag, decode-varint,
  take-delimited, take-fixed,
}
use microdot.Wire.Walk.{run, run_nil, run_step}
use microdot.Kad.Message.{
  DiscoveredPeer, push_some, decode_peer, response_step, response_field, decode_find_node_response,
}
use microdot.Kad.Message.Readers.{response_step-Shrinks}

module _ (w : ℕ) (bs58_encode : Bytes → Text) where
  -- The payloads of field 8 are peers; every other field is passed over.
  abbrev pub add_peer : List DiscoveredPeer → Field → List DiscoveredPeer
  add_peer out f = elim f.payload [
    | delimited x ↦
        if f.number == 8 then push_some w bs58_encode out (decode_peer w bs58_encode x) else out
    | _ ↦ out
  ]

  response_field-payload :
      (out : List DiscoveredPeer) (n : ℕ) (p : Payload) (rest : Bytes)
      → PayloadFits w p
      → response_field w bs58_encode out (n * 8 + wire_type p) (encode_payload p ++ rest)
        ≡ ok (add_peer out (record { number = n; payload = p }), rest)
  unfolding response_field
  response_field-payload out n (varint v) rest h =
      let f : Field = record { number = n; payload = varint v } in
      ground (arith, tag-number f, tag-wire_type f, decode-varint v rest h)
  response_field-payload out n (delimited x) rest h =
      let f : Field = record { number = n; payload = delimited x } in
      ground (arith, tag-number f, tag-wire_type f, take-delimited w x rest h)
  response_field-payload out n (fixed32 x) rest h =
      let f : Field = record { number = n; payload = fixed32 x } in
      ground (arith, tag-number f, tag-wire_type f, take-fixed 4 x rest h)
  response_field-payload out n (fixed64 x) rest h =
      let f : Field = record { number = n; payload = fixed64 x } in
      ground (arith, tag-number f, tag-wire_type f, take-fixed 8 x rest h)

  response_step-field :
      (out : List DiscoveredPeer) (f : Field) (rest : Bytes)
      → IsEncodable w f
      → response_step w bs58_encode out (encode_field f ++ rest) ≡ ok (add_peer out f, rest)
  unfolding response_step
  response_step-field out f rest h =
      rw (decode-tag w f rest h) (response_field-payload out f.number f.payload rest h.1)

  -- The peers of the fields, in their order, behind `out`.
  abbrev pub peers_of : List DiscoveredPeer → List Field → List DiscoveredPeer
  peers_of out [] = out
  peers_of out (f ∷ fs) = peers_of (add_peer out f) fs

  pub run-fields :
      (fs : List Field) (out : List DiscoveredPeer)
      → All (IsEncodable w) fs
      → run (response_step w bs58_encode) out (encode_fields fs) ≡ ok (peers_of out fs)
  run-fields [] out h = run_nil (response_step w bs58_encode) out
  run-fields (f ∷ fs) out (hf, hfs) =
      run_step (response_step w bs58_encode) (response_step-Shrinks w bs58_encode) out _
        (add_peer out f) (encode_fields fs) (response_step-field out f (encode_fields fs) hf)
      ∙ run-fields fs (add_peer out f) hfs

  -- A response of fields that can be encoded is decoded to the usable peers of its `closerPeers`
  -- fields, in order; all other fields, of every wire type, are skipped.
  pub decode_find_node_response-encode_fields :
      (fs : List Field)
      → All (IsEncodable w) fs
      → decode_find_node_response w bs58_encode (encode_fields fs) ≡ ok (peers_of [] fs)
  unfolding decode_find_node_response
  decode_find_node_response-encode_fields fs h = run-fields fs [] h
