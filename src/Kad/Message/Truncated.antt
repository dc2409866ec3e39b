-- ===== src/Kad/Message/Truncated.antt =====
-- A FIND_NODE response that is cut off within a field (src/kad.rs).
use microdot.Base.{ℕ, ◌+◌, ◌*◌, ◌^◌, ◌<◌, ◌≡◌, ◌∙◌, List, [], ◌++◌, Bytes, All, length, err, arith}
use microdot.Text.{Text}
use microdot.Wire.{IsU64, eof, encode_varint, take_bytes, take_delimited}
use microdot.Wire.Bounds.{decode_varint_takes}
use microdot.Wire.Field.{Field, delimited, tag-number, tag-wire_type, encode_fields, IsEncodable}
use microdot.Wire.Varint.{decode-encode}
use microdot.Wire.Walk.{raised, run_raised, run-append}
use microdot.Kad.Message.{DiscoveredPeer, response_step, response_field, decode_find_node_response}
use microdot.Kad.Message.Readers.{response_step-Shrinks, response_step-IsFramed}
use microdot.Kad.Message.RoundTrip.{peers_of, run-fields}
use native.Mathlib.Nat.{mod-eq_of_lt}

-- A slice of which fewer bytes follow than its length says.
take_delimited_short :
    (w n : ℕ) (x : Bytes)
    → IsU64 n
    → n < 2 ^ w
    → length x < n
    → take_delimited w (encode_varint n ++ x) ≡ err (eof n (length x))
unfolding take_delimited take_bytes
take_delimited_short w n x h fits short =
    rw (decode-encode n x h, mod-eq_of_lt fits) (ground (arith, short))

module _ (w : ℕ) (bs58_encode : Bytes → Text) where
  response_step_short :
      (out : List DiscoveredPeer) (number n : ℕ) (x : Bytes)
      → number < 2 ^ 61
      → IsU64 n
      → n < 2 ^ w
      → length x < n
      → response_step w bs58_encode out (encode_varint (number * 8 + 2) ++ (encode_varint n ++ x))
        ≡ err (eof n (length x))
  unfolding response_step response_field
  response_step_short out number n x small h fits short =
      let f : Field = record { number = number; payload = delimited x } in
      rw (decode-encode (number * 8 + 2) (encode_varint n ++ x) (omega (arith, small)))
        (ground (arith, tag-number f, tag-wire_type f, take_delimited_short w n x h fits short))

  -- A response that is cut off within a length-delimited field, behind any fields that can be
  -- encoded, is an error that says how many bytes the field wants and how many there are: no
  -- peers are returned, not even those of the complete fields. The number of the field is below
  -- 2^61, and its length fits a u64 and a `usize`.
  pub decode_find_node_response_truncated :
      (fs : List Field) (number n : ℕ) (x : Bytes)
      → All (IsEncodable w) fs
      → number < 2 ^ 61
      → IsU64 n
      → n < 2 ^ w
      → length x < n
      → decode_find_node_response w bs58_encode
          (encode_fields fs ++ (encode_varint (number * 8 + 2) ++ (encode_varint n ++ x)))
        ≡ err (raised (eof n (length x)))
  unfolding decode_find_node_response
  decode_find_node_response_truncated fs number n x h small u fits short =
      let cut = encode_varint (number * 8 + 2) ++ (encode_varint n ++ x) in
      let out = peers_of w bs58_encode [] fs in
      let tag = number * 8 + 2 in
      let taken =
        (decode_varint_takes cut tag (encode_varint n ++ x)
          (decode-encode tag (encode_varint n ++ x) (omega (arith, small)))).1 in
      run-append (response_step w bs58_encode) (response_step-Shrinks w bs58_encode)
        (response_step-IsFramed w bs58_encode) [] (encode_fields fs) cut out
        (run-fields w bs58_encode fs [] h)
      ∙ run_raised (response_step w bs58_encode) (response_step-Shrinks w bs58_encode) out cut
          (eof n (length x)) (omega (arith, taken))
          (response_step_short out number n x small u fits short)
