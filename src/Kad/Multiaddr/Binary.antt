-- ===== src/Kad/Multiaddr/Binary.antt =====
-- The binary reader against the description by components.
use microdot.Base.{
  ℕ, ◌≡◌, ◌≢◌, ◌∙◌, true, ◌||◌, none, some, List, [], ◌∷◌, ◌++◌, Bytes, All, ◌==◌, ok, err, ok_or,
  ◌>>=◌, arith,
}
use microdot.Text.{from_utf8}
use microdot.Wire.{IsU64, encode_varint, decode_varint, take_bytes, take_delimited}
use microdot.Wire.Varint.{decode-encode}
use microdot.Wire.Reader.{
  IsReader, pure-IsReader, fail-IsReader, if_IsReader, ok_or-IsReader, bind-IsReader,
  map_err-IsReader, take_bytes-IsReader, take_delimited-IsReader, varint_step-Shrinks,
}
use microdot.Wire.Walk.{Shrinks, out_of_fuel, run, run_nil, run_step, run-ne-out_of_fuel}
use microdot.Wire.Slices.{take_bytes_self, take_delimited-encode}
use microdot.Kad.Multiaddr.{
  Found, be_u16, ma_ip4, ma_tcp, ma_ip6, ma_dns, ma_dns4, ma_dns6, ma_udp, ma_p2p, ma_tls, ma_sni,
  ma_quic_v1, ma_ws, ma_wss, ma_p2p_circuit, attempt, multiaddr_component, multiaddr_step,
}
use microdot.Kad.Multiaddr.Component.{
  Component, ip4, ip6, dns, dns4, dns6, tcp, udp, wss, ws, tls, quic, circuit, p2p, sni, be_bytes,
  delimited, encode, encode_all, Fits, IsEncodable, ip4_text,
}
use mathlib.Core.List.{append_assoc}

-- What a component does to the variables of the loop.
unfoldable pub apply : Component → Found → Found
apply (ip4 a b c d) f = record f { host = some (ip4_text a b c d) }
apply (ip6 x) f = record f { host = none }
apply (dns h) f = record f { host = some h }
apply (dns4 h) f = record f { host = some h }
apply (dns6 h) f = record f { host = some h }
apply (tcp n) f = record f { port = some n }
apply wss f = record f { has_wss = true }
apply ws f = record f { has_ws = true }
apply tls f = record f { has_tls = true }
apply c f = f

be_u16-be_bytes : (n : ℕ) (rest : Bytes) → be_u16 (be_bytes n) ≡ n
unfolding be_u16
be_u16-be_bytes n rest = omega arith

-- A slice behind its length, behind a code.
module _ (w code : ℕ) (x rest : Bytes) (small : IsU64 code) (fits : Fits w x) where
  reads_code :
      decode_varint ((encode_varint code ++ delimited x) ++ rest) ≡ ok (code, delimited x ++ rest)
  reads_code = rw append_assoc (decode-encode code (delimited x ++ rest) small)

  reads_delimited : take_delimited w (delimited x ++ rest) ≡ ok (x, rest)
  reads_delimited = rw append_assoc (take_delimited-encode w x rest fits.0 fits.1)

-- A payload of fixed size, behind a code.
reads_fixed :
    (code : ℕ) (x rest : Bytes)
    → IsU64 code
    → decode_varint ((encode_varint code ++ x) ++ rest) ≡ ok (code, x ++ rest)
reads_fixed code x rest small = rw append_assoc (decode-encode code _ small)

-- Each component is taken as a whole, and leaves what follows it.
module _ (w : ℕ) (f : Found) (rest : Bytes) where
  step-encode :
      (c : Component)
      → IsEncodable w c
      → multiaddr_step w f (encode c ++ rest) ≡ ok (apply c f, rest)
  unfolding multiaddr_step apply from_utf8
  step-encode (ip4 a b c d) h =
      rw (reads_fixed 4 (a ∷ b ∷ c ∷ d ∷ []) rest (omega arith))
        (rw (take_bytes_self (a ∷ b ∷ c ∷ d ∷ []) rest))
  step-encode (ip6 x) h =
      rw (reads_fixed 41 x rest (omega arith), ← h) (rw (take_bytes_self x rest))
  step-encode (dns t) (fits, valid) = rw (
    reads_code w 53 t rest (omega arith) fits,
    reads_delimited w 53 t rest (omega arith) fits,
    valid,
  )
  step-encode (dns4 t) (fits, valid) = rw (
    reads_code w 54 t rest (omega arith) fits,
    reads_delimited w 53 t rest (omega arith) fits,
    valid,
  )
  step-encode (dns6 t) (fits, valid) = rw (
    reads_code w 55 t rest (omega arith) fits,
    reads_delimited w 53 t rest (omega arith) fits,
    valid,
  )
  step-encode (tcp n) h =
      rw (reads_fixed 6 (be_bytes n) rest (omega arith))
        (rw (take_bytes_self (be_bytes n) rest, be_u16-be_bytes n rest))
  step-encode (udp n) h =
      rw (reads_fixed 273 (be_bytes n) rest (omega arith)) (rw (take_bytes_self (be_bytes n) rest))
  step-encode wss h = rw (decode-encode 478 rest (omega arith))
  step-encode ws h = rw (decode-encode 477 rest (omega arith))
  step-encode tls h = rw (decode-encode 448 rest (omega arith))
  step-encode quic h = rw (decode-encode 460 rest (omega arith))
  step-encode circuit h = rw (decode-encode 290 rest (omega arith))
  step-encode (p2p x) fits =
      rw (
        reads_code w 421 x rest (omega arith) fits,
        reads_delimited w 421 x rest (omega arith) fits,
      )
  step-encode (sni x) fits =
      rw (
        reads_code w 449 x rest (omega arith) fits,
        reads_delimited w 449 x rest (omega arith) fits,
      )

fixed-IsReader :
    (n : ℕ) (g : Bytes → Found)
    → IsReader (λ input. attempt (take_bytes input n) >>= λ t. ok (g t.0, t.1))
fixed-IsReader n g =
    bind-IsReader (map_err-IsReader _ (take_bytes-IsReader n)) (λ b. pure-IsReader (g b))

delimited-IsReader :
    (w : ℕ) (g : Bytes → Found)
    → IsReader (λ input. attempt (take_delimited w input) >>= λ t. ok (g t.0, t.1))
delimited-IsReader w g =
    bind-IsReader (map_err-IsReader _ (take_delimited-IsReader w)) (λ b. pure-IsReader (g b))

component-IsReader : (w : ℕ) (f : Found) (code : ℕ) → IsReader (multiaddr_component w f code)
unfolding multiaddr_component
component-IsReader w f code = if_IsReader (code == ma_ip4) (fixed-IsReader 4 _) (
    if_IsReader (code == ma_tcp) (fixed-IsReader 2 _) (
      if_IsReader (code == ma_dns || (code == ma_dns4 || code == ma_dns6)) host_reader (
        if_IsReader (code == ma_wss) (pure-IsReader _) (
          if_IsReader (code == ma_ws) (pure-IsReader _) (
            if_IsReader (code == ma_tls) (pure-IsReader _) (
              if_IsReader (code == ma_p2p || code == ma_sni) (delimited-IsReader w _) (
                if_IsReader (code == ma_ip6) (fixed-IsReader 16 _) (
                  if_IsReader (code == ma_udp) (fixed-IsReader 2 _) (
                    if_IsReader (code == ma_quic_v1 || code == ma_p2p_circuit) (pure-IsReader _)
                      (fail-IsReader tt))))))))))
  where
    host_reader : IsReader (λ input. do
      (b, input) ← attempt (take_delimited w input)
      host ← ok_or (from_utf8 b) tt
      ok (record f { host = some host }, input))
    host_reader =
        bind-IsReader (map_err-IsReader _ (take_delimited-IsReader w))
          (λ b. ok_or-IsReader (from_utf8 b) tt (λ host. pure-IsReader _))

module _ (w : ℕ) where
  step-Shrinks : Shrinks (multiaddr_step w)
  unfolding multiaddr_step
  step-Shrinks = varint_step-Shrinks _ (multiaddr_component w) (component-IsReader w)

  -- The loop ends by its test on every input.
  pub multiaddr_loop_ends :
      (f : Found) (input : Bytes) → run (multiaddr_step w) f input ≢ err out_of_fuel
  multiaddr_loop_ends = run-ne-out_of_fuel (multiaddr_step w) step-Shrinks

unfoldable pub apply_all : Found → List Component → Found
apply_all f [] = f
apply_all f (c ∷ cs) = apply_all (apply c f) cs

pub run-encode_all :
    (w : ℕ) (f : Found) (cs : List Component)
    → All (IsEncodable w) cs
    → run (multiaddr_step w) f (encode_all cs) ≡ ok (apply_all f cs)
unfolding apply_all
run-encode_all w f [] h = run_nil (multiaddr_step w) f
run-encode_all w f (c ∷ cs) (hc, hcs) =
    run_step (multiaddr_step w) (step-Shrinks w) f _ (apply c f) (encode_all cs)
      (step-encode w f (encode_all cs) c hc)
    ∙ run-encode_all w (apply c f) cs hcs
