-- ===== src/Kad/Message/Readers.antt =====
-- The rounds of the two message loops take what they read from the front, so the loops end, and a
-- response may be read piece by piece.
use microdot.Base.{
  ℕ, ◌/◌, ◌≡◌, ◌≢◌, refl, sym, ap, ◌∙◌, Option, none, ◌∷◌, map_err, if_carries, bind_carries, ◌&&◌,
  some, List, [], ◌++◌, Bytes, bit_and, ◌==◌, Result, ok, err, ◌>>=◌,
}
use mathlib.Core.List.{append-nil, append_assoc}
use microdot.Text.{Text}
use microdot.Wire.{
  Error, top_level_tag, unsupported_wire_type, decode_varint, take_bytes, take_delimited,
}
use microdot.Wire.Reader.{
  IsReader, pure-IsReader, fail-IsReader, if_IsReader, bind-IsReader, map_err-IsReader,
  decode_varint-IsReader, take_bytes-IsReader, take_delimited-IsReader, varint_step-Shrinks,
  varint_step-IsFramed,
}
use microdot.Wire.Walk.{
  Shrinks, IsFramed, out_of_fuel, run, run-ne-out_of_fuel, run-append, run_carries,
}
use microdot.Kad.Multiaddr.{attempt}
use microdot.Kad.Message.{
  DiscoveredPeer, PeerFields, peer_field, peer_step, push_some, decode_peer, response_field,
  response_step, decode_find_node_response,
}

module _ (w : ℕ) where
  peer_field-IsReader : (f : PeerFields) (tag : ℕ) → IsReader (peer_field w f tag)
  unfolding peer_field
  peer_field-IsReader f tag = if_IsReader (tag / 8 == 1 && bit_and tag 0x07 == 2) (delimited _) (
      if_IsReader (tag / 8 == 2 && bit_and tag 0x07 == 2) (delimited _) (
        if_IsReader (bit_and tag 0x07 == 0) varint
          (if_IsReader (bit_and tag 0x07 == 2) (delimited _) (fail-IsReader tt))))
    where
      delimited :
          (g : Bytes → PeerFields)
          → IsReader (λ input. attempt (take_delimited w input) >>= λ t. ok (g t.0, t.1))
      delimited g =
          bind-IsReader (map_err-IsReader _ (take_delimited-IsReader w)) (λ x. pure-IsReader (g x))

      varint : IsReader (λ input. attempt (decode_varint input) >>= λ t. ok (f, t.1))
      varint = bind-IsReader (map_err-IsReader _ decode_varint-IsReader) (λ x. pure-IsReader f)

  pub peer_step-Shrinks : Shrinks (peer_step w)
  unfolding peer_step
  peer_step-Shrinks = varint_step-Shrinks _ (peer_field w) peer_field-IsReader

module _ (w : ℕ) (bs58_encode : Bytes → Text) where
  response_field-IsReader :
      (out : List DiscoveredPeer) (tag : ℕ) → IsReader (response_field w bs58_encode out tag)
  unfolding response_field
  response_field-IsReader out tag =
      if_IsReader (tag / 8 == 8 && bit_and tag 0x07 == 2) (delimited _) (
        if_IsReader (bit_and tag 0x07 == 0)
          (bind-IsReader decode_varint-IsReader (λ x. pure-IsReader out))
          (if_IsReader (bit_and tag 0x07 == 2) (delimited _) (
            if_IsReader (bit_and tag 0x07 == 5) (fixed 4) (
              if_IsReader (bit_and tag 0x07 == 1) (fixed 8)
                (fail-IsReader (unsupported_wire_type (bit_and tag 0x07) (tag / 8)))))))
    where
      delimited :
          (g : Bytes → List DiscoveredPeer)
          → IsReader {E = Error} (λ input. take_delimited w input >>= λ t. ok (g t.0, t.1))
      delimited g = bind-IsReader (take_delimited-IsReader w) (λ x. pure-IsReader (g x))

      fixed : (n : ℕ) → IsReader {E = Error} (λ input. take_bytes input n >>= λ t. ok (out, t.1))
      fixed n = bind-IsReader (take_bytes-IsReader n) (λ x. pure-IsReader out)

  pub response_step-Shrinks : Shrinks (response_step w bs58_encode)
  unfolding response_step
  response_step-Shrinks =
      varint_step-Shrinks top_level_tag (response_field w bs58_encode) response_field-IsReader

  pub response_step-IsFramed : IsFramed (response_step w bs58_encode)
  unfolding response_step
  response_step-IsFramed =
      varint_step-IsFramed top_level_tag (response_field w bs58_encode) response_field-IsReader

  push_some-append :
      (front out : List DiscoveredPeer) (found : Option DiscoveredPeer)
      → push_some w bs58_encode (front ++ out) found ≡ front ++ push_some w bs58_encode out found
  push_some-append front out none = refl
  push_some-append front out (some peer) = append_assoc front out (peer ∷ [])

  -- Peers that are there already stay in front.
  response_step_carries :
      (front out : List DiscoveredPeer) (input : Bytes)
      → response_step w bs58_encode (front ++ out) input
        ≡ (response_step w bs58_encode out input >>= λ t. ok (front ++ t.0, t.1))
  unfolding response_step
  response_step_carries front out input =
      bind_carries h (map_err top_level_tag (decode_varint input)) _ (λ (tag, rest).
        if_carries h (tag / 8 == 8 && bit_and tag 0x07 == 2) _ _
          (bind_carries h (take_delimited w rest) _ (λ (x, r).
            ap (λ t. ok (t, r)) (push_some-append front out (decode_peer w bs58_encode x))))
          (if_carries h (bit_and tag 0x07 == 0) _ _
            (bind_carries h (decode_varint rest) _ (λ t. refl))
            (if_carries h (bit_and tag 0x07 == 2) _ _
              (bind_carries h (take_delimited w rest) _ (λ t. refl))
              (if_carries h (bit_and tag 0x07 == 5) _ _
                (bind_carries h (take_bytes rest 4) _ (λ t. refl))
                (if_carries h (bit_and tag 0x07 == 1) _ _
                  (bind_carries h (take_bytes rest 8) _ (λ t. refl)) refl)))))
    where
      h : List DiscoveredPeer × Bytes → Result Error (List DiscoveredPeer × Bytes)
      h t = ok (front ++ t.0, t.1)

  -- The decoder ends on every input.
  pub decode_find_node_response_ends :
      (bytes : Bytes) → decode_find_node_response w bs58_encode bytes ≢ err out_of_fuel
  unfolding decode_find_node_response
  decode_find_node_response_ends bytes =
      run-ne-out_of_fuel (response_step w bs58_encode) response_step-Shrinks [] bytes

  -- Two responses put together are decoded to the peers of the first and then of the second.
  decode_find_node_response-append :
      (xs ys : Bytes) (ps qs : List DiscoveredPeer)
      → decode_find_node_response w bs58_encode xs ≡ ok ps
      → decode_find_node_response w bs58_encode ys ≡ ok qs
      → decode_find_node_response w bs58_encode (xs ++ ys) ≡ ok (ps ++ qs)
  unfolding decode_find_node_response
  decode_find_node_response-append xs ys ps qs p q =
      run-append (response_step w bs58_encode) response_step-Shrinks response_step-IsFramed [] xs ys
        ps p
      ∙ ap (λ t. run (response_step w bs58_encode) t ys) (sym (append-nil ps))
      ∙ run_carries (response_step w bs58_encode) (◌++◌ ps) (response_step_carries ps) [] ys
      ∙ rw q
