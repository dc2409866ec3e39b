-- ===== src/Kad/Multiaddr/Component.antt =====
-- Multiaddrs as lists of components: an independent description of what the two readers of
-- src/kad.rs are meant to find in one.
use microdot.Base.{
  ℕ, ◌/◌, ◌%◌, ◌^◌, ◌<◌, ◌≡◌, Bool, true, false, ◌&&◌, ◌||◌, Option, none, some, List, [], ◌∷◌,
  ◌++◌, Bytes, length,
}
use microdot.Text.{Text, text, show, is_utf8}
use microdot.Wire.{IsU64, encode_varint}
use microdot.Kad.Multiaddr.{
  ma_ip4, ma_tcp, ma_ip6, ma_dns, ma_dns4, ma_dns6, ma_udp, ma_p2p, ma_tls, ma_sni, ma_quic_v1,
  ma_ws, ma_wss, ma_p2p_circuit, wss_url,
}

pub data Component : Type 0 where
  ip4 : ℕ → ℕ → ℕ → ℕ → Component
  ip6 : Bytes → Component
  dns dns4 dns6 : Text → Component
  tcp udp : ℕ → Component
  wss ws tls quic circuit : Component
  p2p sni : Bytes → Component

abbrev pub be_bytes : ℕ → Bytes
be_bytes n = (n / 256) ∷ (n % 256) ∷ []

abbrev pub delimited : Bytes → Bytes
delimited x = encode_varint (length x) ++ x

-- The binary form, by the multiaddr specification: a varint code, and the payload.
abbrev pub encode : Component → Bytes
encode (ip4 a b c d) = encode_varint ma_ip4 ++ (a ∷ b ∷ c ∷ d ∷ [])
encode (ip6 x) = encode_varint ma_ip6 ++ x
encode (dns h) = encode_varint ma_dns ++ delimited h
encode (dns4 h) = encode_varint ma_dns4 ++ delimited h
encode (dns6 h) = encode_varint ma_dns6 ++ delimited h
encode (tcp n) = encode_varint ma_tcp ++ be_bytes n
encode (udp n) = encode_varint ma_udp ++ be_bytes n
encode wss = encode_varint ma_wss
encode ws = encode_varint ma_ws
encode tls = encode_varint ma_tls
encode quic = encode_varint ma_quic_v1
encode circuit = encode_varint ma_p2p_circuit
encode (p2p x) = encode_varint ma_p2p ++ delimited x
encode (sni x) = encode_varint ma_sni ++ delimited x

abbrev pub encode_all : List Component → Bytes
encode_all [] = []
encode_all (c ∷ cs) = encode c ++ encode_all cs

-- A length that a u64 varint and a `usize` of `w` bits can hold.
abbrev pub Fits : ℕ → Bytes → Type 0
Fits w x = IsU64 (length x) × (length x < 2 ^ w)

-- What the binary form can carry.
abbrev pub IsEncodable : ℕ → Component → Type 0
IsEncodable w (ip4 a b c d) = Unit {0}
IsEncodable w (ip6 x) = length x ≡ 16
IsEncodable w (dns h) = Fits w h × (is_utf8 h ≡ true)
IsEncodable w (dns4 h) = Fits w h × (is_utf8 h ≡ true)
IsEncodable w (dns6 h) = Fits w h × (is_utf8 h ≡ true)
IsEncodable w (tcp n) = n < 2 ^ 16
IsEncodable w (udp n) = n < 2 ^ 16
IsEncodable w (p2p x) = Fits w x
IsEncodable w (sni x) = Fits w x
IsEncodable w wss = Unit {0}
IsEncodable w ws = Unit {0}
IsEncodable w tls = Unit {0}
IsEncodable w quic = Unit {0}
IsEncodable w circuit = Unit {0}

abbrev pub ip4_text : ℕ → ℕ → ℕ → ℕ → Text
ip4_text a b c d =
    show a ++ (text "." ++ (show b ++ (text "." ++ (show c ++ (text "." ++ show d)))))

-- The last host of the address; an ip6 component takes back an earlier one.
abbrev pub host_of : Option Text → List Component → Option Text
host_of h [] = h
host_of h (ip4 a b c d ∷ cs) = host_of (some (ip4_text a b c d)) cs
host_of h (ip6 x ∷ cs) = host_of none cs
host_of h (dns t ∷ cs) = host_of (some t) cs
host_of h (dns4 t ∷ cs) = host_of (some t) cs
host_of h (dns6 t ∷ cs) = host_of (some t) cs
host_of h (c ∷ cs) = host_of h cs

-- The last tcp port.
abbrev pub port_of : Option ℕ → List Component → Option ℕ
port_of p [] = p
port_of p (tcp n ∷ cs) = port_of (some n) cs
port_of p (c ∷ cs) = port_of p cs

abbrev pub is_wss : Component → Bool
is_wss wss = true
is_wss c = false

abbrev pub is_tls : Component → Bool
is_tls tls = true
is_tls c = false

abbrev pub is_ws : Component → Bool
is_ws ws = true
is_ws c = false

abbrev pub any_of : (Component → Bool) → List Component → Bool
any_of test [] = false
any_of test (c ∷ cs) = test c || any_of test cs

-- `/wss` somewhere, or `/tls` and `/ws`.
abbrev pub is_secure : List Component → Bool
is_secure cs = any_of is_wss cs || (any_of is_tls cs && any_of is_ws cs)

-- The url of an address: for a secure one with a host and a tcp port.
abbrev pub url_of_parts : Bool → Option Text → Option ℕ → Option Text
url_of_parts true (some host) (some port) = some (wss_url host port)
url_of_parts _ _ _ = none

abbrev pub url_of : List Component → Option Text
url_of cs = url_of_parts (is_secure cs) (host_of none cs) (port_of none cs)
