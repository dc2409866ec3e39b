-- ===== src/Kad/Message/Peer.antt =====
-- `decode_peer` against the description of messages by fields.
use microdot.Base.{
  ℕ, ◌+◌, ◌*◌, ◌<◌, ◌≡◌, ◌∙◌, Bool, true, false, ◌||◌, Option, none, some, List, [], ◌∷◌, ◌++◌,
  Bytes, All, length, ◌==◌, if◌then◌else◌, Bool-cases, inl, inr, ok, err, arith, length-append,
}
use microdot.Text.{Text}
use microdot.Wire.{encode_varint}
use microdot.Wire.Bounds.{encode_varint_shape}
use microdot.Wire.Field.{
  Payload, PayloadFits, Field, varint, delimited, fixed32, fixed64, wire_type, tag, encode_payload,
  encode_field, encode_fields, IsEncodable, wire_type-lt, tag-number, tag-wire_type, decode-tag,
  decode-varint, take-delimited,
}
use microdot.Wire.Walk.{raised, run, run_nil, run_step, run_raised}
use microdot.Kad.Multiaddr.{multiaddr_to_wss_url}
use microdot.Kad.Message.{DiscoveredPeer, PeerFields, first_url, peer_field, peer_step, decode_peer}
use microdot.Kad.Message.Readers.{peer_step-Shrinks}

abbrev pub is_fixed : Payload → Bool
is_fixed (fixed32 x) = true
is_fixed (fixed64 x) = true
is_fixed p = false

abbrev pub has_fixed : List Field → Bool
has_fixed [] = false
has_fixed (f ∷ fs) = is_fixed f.payload || has_fixed fs

-- The last field 1.
abbrev id_after : Option Bytes → Field → Option Bytes
id_after id f = elim f.payload [ delimited x ↦ if f.number == 1 then some x else id | _ ↦ id ]

abbrev pub id_of : Option Bytes → List Field → Option Bytes
id_of id [] = id
id_of id (f ∷ fs) = id_of (id_after id f) fs

abbrev pub or_first : Option Text → Option Text → Option Text
or_first none found = found
or_first (some u) found = some u

module _ (w : ℕ) where
  -- The url of the first field 2 that has one.
  abbrev pub url_after : Option Text → Field → Option Text
  url_after url f = elim f.payload [
    | delimited x ↦ if f.number == 2 then or_first url (multiaddr_to_wss_url w x) else url
    | _ ↦ url
  ]

  abbrev pub url_of : Option Text → List Field → Option Text
  url_of url [] = url
  url_of url (f ∷ fs) = url_of (url_after url f) fs

  -- Every field is read, and a field of fixed size makes the reader give the peer up.
  abbrev read_field : PeerFields → Field → PeerFields
  read_field s f = record { id_bytes = id_after s.id_bytes f; url = url_after s.url f }

  peer_field-payload :
      (s : PeerFields) (n : ℕ) (p : Payload) (rest : Bytes)
      → PayloadFits w p
      → peer_field w s (n * 8 + wire_type p) (encode_payload p ++ rest) ≡ (
          if is_fixed p
          then err tt
          else ok (read_field s (record { number = n; payload = p }), rest))
  unfolding peer_field first_url
  peer_field-payload s n (varint v) rest h =
      let f : Field = record { number = n; payload = varint v } in
      ground (arith, tag-number f, tag-wire_type f, decode-varint v rest h)
  peer_field-payload s n (delimited x) rest h =
      let f : Field = record { number = n; payload = delimited x } in
      ground (arith, tag-number f, tag-wire_type f, take-delimited w x rest h)
  peer_field-payload s n (fixed32 x) rest h =
      let f : Field = record { number = n; payload = fixed32 x } in
      ground (arith, tag-number f, tag-wire_type f)
  peer_field-payload s n (fixed64 x) rest h =
      let f : Field = record { number = n; payload = fixed64 x } in
      ground (arith, tag-number f, tag-wire_type f)

  peer_step-field :
      (s : PeerFields) (f : Field) (rest : Bytes)
      → IsEncodable w f
      → peer_step w s (encode_field f ++ rest)
        ≡ (if is_fixed f.payload then err tt else ok (read_field s f, rest))
  unfolding peer_step
  peer_step-field s f rest h =
      rw (decode-tag w f rest h) (peer_field-payload s f.number f.payload rest h.1)

  field_nonempty :
      (f : Field) (rest : Bytes) → IsEncodable w f → 0 < length (encode_field f ++ rest)
  field_nonempty f rest h = omega (
    arith,
    length-append (encode_field f) rest,
    length-append (encode_varint (tag f)) (encode_payload f.payload),
    (encode_varint_shape (tag f) (omega (arith, wire_type-lt f.payload, h.0))).1,
  )

  run-fields :
      (fs : List Field) (s : PeerFields)
      → All (IsEncodable w) fs
      → run (peer_step w) s (encode_fields fs) ≡ (
          if has_fixed fs
          then err (raised tt)
          else ok (record { id_bytes = id_of s.id_bytes fs; url = url_of s.url fs }))
  run-fields [] s h = run_nil (peer_step w) s
  run-fields (f ∷ fs) s (hf, hfs) = elim (Bool-cases (is_fixed f.payload)) [
    | inl fixed ↦ rw fixed (
        run_raised (peer_step w) (peer_step-Shrinks w) s _ tt
          (field_nonempty f (encode_fields fs) hf)
          (peer_step-field s f (encode_fields fs) hf ∙ rw fixed))
    | inr other ↦ rw other (
        run_step (peer_step w) (peer_step-Shrinks w) s _ (read_field s f) (encode_fields fs)
          (peer_step-field s f (encode_fields fs) hf ∙ rw other)
        ∙ run-fields fs (read_field s f) hfs)
  ]

-- The peer that a message describes.
abbrev pub peer_with : (Bytes → Text) → Bool → Option Bytes → Option Text → Option DiscoveredPeer
peer_with bs58_encode false (some id) (some url) =
    some (record { peer_id_base58 = bs58_encode id; wss_url = url })
peer_with bs58_encode _ _ _ = none

-- On a message of encoded fields `decode_peer` answers the last id with the first usable url, and
-- `none` where one of them is missing or a field has a fixed size.
pub decode_peer-encode_fields :
    (w : ℕ) (bs58_encode : Bytes → Text) (fs : List Field)
    → All (IsEncodable w) fs
    → decode_peer w bs58_encode (encode_fields fs)
      ≡ peer_with bs58_encode (has_fixed fs) (id_of none fs) (url_of w none fs)
unfolding decode_peer
decode_peer-encode_fields w bs58_encode fs h =
    rw (run-fields w fs (record { id_bytes = none; url = none }) h, decode_peer) (ground arith)
