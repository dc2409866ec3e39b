-- ===== src/Runs/Addresses.antt =====
-- Runs of the multiaddr reader of src/kad.rs.
use microdot.Base.{◌≡◌, refl, some, [], ◌∷◌, All, List, Bytes, arith}
use microdot.Text.{text, show, is_utf8}
use microdot.Kad.Multiaddr.{multiaddr_to_wss_url, parse_bootnode_multiaddr}
use microdot.Kad.Multiaddr.Component.{Component, IsEncodable, dns, ip6, tcp, wss, p2p, encode_all}
use microdot.Kad.Multiaddr.Meaning.{multiaddr_to_wss_url-encode_all}
use microdot.Kad.Multiaddr.Textual.{IsPrintable, with_peer, parse_bootnode_multiaddr-print_all}

-- `/dns/a.b/tcp/443/wss/p2p/…`
abbrev relay : List Component
relay = dns (text "a.b") ∷ tcp 443 ∷ wss ∷ p2p (1 ∷ 2 ∷ []) ∷ []

relay-IsEncodable : All (IsEncodable 32) relay
unfolding is_utf8
relay-IsEncodable =
    (((omega arith, omega arith), refl), (omega arith, (tt, ((omega arith, omega arith), tt))))

multiaddr_to_wss_url-encode_all_example :
    multiaddr_to_wss_url 32 (encode_all relay) ≡ some (text "wss://a.b:443/")
unfolding show
multiaddr_to_wss_url-encode_all_example = multiaddr_to_wss_url-encode_all 32 relay relay-IsEncodable

abbrev zeros : Bytes
zeros = 0 ∷ 0 ∷ 0 ∷ 0 ∷ 0 ∷ 0 ∷ 0 ∷ 0 ∷ 0 ∷ 0 ∷ 0 ∷ 0 ∷ 0 ∷ 0 ∷ 0 ∷ 1 ∷ []

-- `/dns/a.b/ip6/::1/tcp/443/wss/p2p/12D3`
abbrev detour : List Component
detour = dns (text "a.b") ∷ ip6 zeros ∷ tcp 443 ∷ wss ∷ p2p (1 ∷ 2 ∷ []) ∷ []

detour-IsPrintable : All IsPrintable detour
detour-IsPrintable = omega arith

detour-IsEncodable : All (IsEncodable 32) detour
unfolding is_utf8
detour-IsEncodable = (
  ((omega arith, omega arith), refl),
  (refl, (omega arith, (tt, ((omega arith, omega arith), tt)))),
)

parse_bootnode_multiaddr-print_all_example :
    parse_bootnode_multiaddr (text "/dns/a.b/ip6/::1/tcp/443/wss/p2p/12D3")
    ≡ with_peer (some (text "12D3")) (multiaddr_to_wss_url 32 (encode_all relay))
unfolding show
parse_bootnode_multiaddr-print_all_example =
    parse_bootnode_multiaddr-print_all 32 (λ x. text "12D3") (λ x. text "::1") (λ x. omega arith)
      (λ x. omega arith) detour detour-IsPrintable detour-IsEncodable
