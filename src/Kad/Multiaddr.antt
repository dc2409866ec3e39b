-- ===== src/Kad/Multiaddr.antt =====
-- src/kad.rs: the two readers that turn a multiaddr into a
-- `wss://host:port/` text, from its binary form and from its textual form.
pub mod Component
pub mod Binary
pub mod Meaning
pub mod Textual
use microdot.Base.{
  ℕ, zero, suc, ◌+◌, ◌*◌, Bool, true, false, ◌&&◌, ◌||◌, Option, none, some, List, [], ◌∷◌, ◌++◌,
  Bytes, length, ◌==◌, if◌then◌else◌, Result, ok, err, ◌>>=◌, map_err, ok_or, to_option,
}
use microdot.Text.{Text, text, text_eq, show, parse_u16, from_utf8, trim_start_matches, split}
use microdot.Wire.{decode_varint, take_bytes, take_delimited}
use microdot.Wire.Walk.{run}
use mathlib.Core.Option as Option

abbrev pub ma_ip4 : ℕ
ma_ip4 = 4

abbrev pub ma_tcp : ℕ
ma_tcp = 6

abbrev pub ma_ip6 : ℕ
ma_ip6 = 41

abbrev pub ma_dns : ℕ
ma_dns = 53

abbrev pub ma_dns4 : ℕ
ma_dns4 = 54

abbrev pub ma_dns6 : ℕ
ma_dns6 = 55

abbrev pub ma_udp : ℕ
ma_udp = 273

abbrev pub ma_p2p : ℕ
ma_p2p = 421

abbrev pub ma_tls : ℕ
ma_tls = 448

abbrev pub ma_sni : ℕ
ma_sni = 449

abbrev pub ma_quic_v1 : ℕ
ma_quic_v1 = 460

abbrev pub ma_ws : ℕ
ma_ws = 477

abbrev pub ma_wss : ℕ
ma_wss = 478

abbrev pub ma_p2p_circuit : ℕ
ma_p2p_circuit = 290

-- The variables of the loops; the binary reader leaves `peer_id` alone.
pub record Found : Type 0 where
  pub host : Option Text
  pub port : Option ℕ
  pub has_wss : Bool
  pub has_tls : Bool
  pub has_ws : Bool
  pub peer_id : Option Text

abbrev pub nothing_found : Found
nothing_found = record {
  host = none;
  port = none;
  has_wss = false;
  has_tls = false;
  has_ws = false;
  peer_id = none;
}

-- `format!("{}.{}.{}.{}", b[0], b[1], b[2], b[3])`, called with four bytes.
dotted : Bytes → Text
dotted (a ∷ b ∷ c ∷ d ∷ _) =
    show a ++ (text "." ++ (show b ++ (text "." ++ (show c ++ (text "." ++ show d)))))
dotted _ = []

-- `u16::from_be_bytes([b[0], b[1]])`, called with two bytes.
be_u16 : Bytes → ℕ
be_u16 (a ∷ b ∷ _) = a * 256 + b
be_u16 _ = 0

-- `format!("wss://{host}:{port}/")`
abbrev pub wss_url : Text → ℕ → Text
wss_url host port = text "wss://" ++ (host ++ (text ":" ++ (show port ++ text "/")))

abbrev pub wss_like : Found → Bool
wss_like f = f.has_wss || (f.has_tls && f.has_ws)

-- `.ok()?`: the reader answers `None`, whatever the error was.
abbrev pub attempt {ℓ} : {E A : Type ℓ} → Result E A → Result (Unit {0}) A
attempt = map_err (λ _. tt)

-- `match code`; `err tt` is `return None`.
multiaddr_component : ℕ → Found → ℕ → Bytes → Result (Unit {0}) (Found × Bytes)
unfolding dotted be_u16
multiaddr_component w f code input =
    if code == ma_ip4
    then (do
      (b, input) ← attempt (take_bytes input 4)
      ok (record f { host = some (dotted b) }, input))
    else if code == ma_tcp
    then (do
      (b, input) ← attempt (take_bytes input 2)
      ok (record f { port = some (be_u16 b) }, input))
    else if code == ma_dns || (code == ma_dns4 || code == ma_dns6)
    then (do
      (b, input) ← attempt (take_delimited w input)
      host ← ok_or (from_utf8 b) tt
      ok (record f { host = some host }, input))
    else if code == ma_wss
    then ok (record f { has_wss = true }, input)
    else if code == ma_ws
    then ok (record f { has_ws = true }, input)
    else if code == ma_tls
    then ok (record f { has_tls = true }, input)
    else if code == ma_p2p || code == ma_sni
    then (do (b, input) ← attempt (take_delimited w input); ok (f, input))
    else if code == ma_ip6
    then (do (b, input) ← attempt (take_bytes input 16); ok (record f { host = none }, input))
    else if code == ma_udp
    then (do (b, input) ← attempt (take_bytes input 2); ok (f, input))
    else if code == ma_quic_v1 || code == ma_p2p_circuit
    then ok (f, input)
    else err tt

-- One round of the loop of `multiaddr_to_wss_url`.
unfoldable pub multiaddr_step : ℕ → Found → Bytes → Result (Unit {0}) (Found × Bytes)
unfolding multiaddr_component
multiaddr_step w f input = do
  (code, input) ← attempt (decode_varint input)
  multiaddr_component w f code input

-- What follows the loop.
unfoldable pub finish : Found → Option Text
finish f =
    if wss_like f
    then elim f.host [
      | none ↦ none
      | some host ↦ elim f.port [ none ↦ none | some port ↦ some (wss_url host port) ]
    ]
    else none

unfoldable pub multiaddr_to_wss_url : ℕ → Bytes → Option Text
multiaddr_to_wss_url w input = elim (run (multiaddr_step w) nothing_found input) [
  | ok f ↦ finish f
  | err _ ↦ none
]

-- `parts.next()` as the value of a key, and the parts behind it.
next_part : List Text → Option Text × List Text
next_part [] = (none, [])
next_part (p ∷ ps) = (some p, ps)

-- `.and_then(|s| s.parse().ok())`
port_of : Option Text → Option ℕ
port_of none = none
port_of (some s) = parse_u16 s

-- One round of the loop of `parse_bootnode_multiaddr` on the part `proto`.
unfoldable pub textual_step : Found → Text → List Text → Found × List Text
unfolding next_part port_of
textual_step f proto parts =
    let (value, rest) = next_part parts in
    if text_eq proto (text "ip4")
    then (record f { host = value }, rest)
    else if text_eq proto (text "dns")
        || (text_eq proto (text "dns4") || text_eq proto (text "dns6"))
    then (record f { host = value }, rest)
    else if text_eq proto (text "tcp")
    then (record f { port = port_of value }, rest)
    else if text_eq proto (text "wss")
    then (record f { has_wss = true }, parts)
    else if text_eq proto (text "ws")
    then (record f { has_ws = true }, parts)
    else if text_eq proto (text "tls")
    then (record f { has_tls = true }, parts)
    else if text_eq proto (text "p2p") || text_eq proto (text "ipfs")
    then (record f { peer_id = value }, rest)
    else if text_eq proto (text "ip6")
    then (f, rest)
    else if text_eq proto (text "udp")
        || (text_eq proto (text "sni")
            || (text_eq proto (text "memory") || text_eq proto (text "unix")))
    then (f, rest)
    else (f, parts)

-- `while let Some(proto) = parts.next()`; a round takes one part or two, so as many rounds as
-- parts are enough.
unfoldable pub textual_loop : ℕ → Found → List Text → Found
textual_loop zero f parts = f
textual_loop (suc fuel) f [] = f
textual_loop (suc fuel) f (proto ∷ parts) =
    let (f', rest) = textual_step f proto parts in textual_loop fuel f' rest

unfoldable pub finish_textual : Found → Option (Text × Text)
unfolding finish
finish_textual f =
    if wss_like f
    then elim f.peer_id [
      | none ↦ none
      | some peer_id ↦ Option.map (λ url. (peer_id, url)) (finish f)
    ]
    else none

unfoldable pub parse_bootnode_multiaddr : Text → Option (Text × Text)
unfolding textual_loop textual_step finish_textual
parse_bootnode_multiaddr s =
    let parts = split b'/' (trim_start_matches b'/' s) in
    finish_textual (textual_loop (length parts) nothing_found parts)
