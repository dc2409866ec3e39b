-- ===== src/Kad/Multiaddr/Meaning.antt =====
-- What the binary reader answers, against the description by components.
use microdot.Base.{
  ℕ, ◌≡◌, refl, sym, ◌∙◌, Bool, false, ◌||◌, List, [], ◌∷◌, ◌++◌, All, All-append, arith,
}
use microdot.Kad.Multiaddr.{Found, nothing_found, wss_like, finish, multiaddr_to_wss_url}
use microdot.Kad.Multiaddr.Binary.{apply, apply_all, run-encode_all}
use microdot.Kad.Multiaddr.Component.{
  Component, ip4, tcp, wss, circuit, encode_all, IsEncodable, host_of, port_of, is_wss, is_tls,
  is_ws, any_of, url_of_parts, url_of,
}

-- What the loop leaves in its variables.
apply_host :
    (c : Component) (f : Found) (cs : List Component)
    → host_of f.host (c ∷ cs) ≡ host_of (apply c f).host cs
unfolding apply
apply_host (ip4 a b c d) f cs = refl
apply_host c f cs = refl

apply_port :
    (c : Component) (f : Found) (cs : List Component)
    → port_of f.port (c ∷ cs) ≡ port_of (apply c f).port cs
unfolding apply
apply_port (tcp n) f cs = refl
apply_port c f cs = refl

apply_flags :
    (c : Component) (f : Found)
    → ((apply c f).has_wss ≡ (f.has_wss || is_wss c))
      × ((apply c f).has_tls ≡ (f.has_tls || is_tls c))
      × ((apply c f).has_ws ≡ (f.has_ws || is_ws c))
unfolding apply
apply_flags wss f = ground arith
apply_flags c f = ground arith

apply_all-host_of : (cs : List Component) (f : Found) → (apply_all f cs).host ≡ host_of f.host cs
unfolding apply_all
apply_all-host_of [] f = refl
apply_all-host_of (c ∷ cs) f = apply_all-host_of cs (apply c f) ∙ sym (apply_host c f cs)

apply_all-port_of : (cs : List Component) (f : Found) → (apply_all f cs).port ≡ port_of f.port cs
unfolding apply_all
apply_all-port_of [] f = refl
apply_all-port_of (c ∷ cs) f = apply_all-port_of cs (apply c f) ∙ sym (apply_port c f cs)

apply_all_flags :
    (cs : List Component) (f : Found)
    → ((apply_all f cs).has_wss ≡ (f.has_wss || any_of is_wss cs))
      × ((apply_all f cs).has_tls ≡ (f.has_tls || any_of is_tls cs))
      × ((apply_all f cs).has_ws ≡ (f.has_ws || any_of is_ws cs))
unfolding apply_all
apply_all_flags [] f = ground arith
apply_all_flags (c ∷ cs) f = ground (arith, apply_flags c f, apply_all_flags cs (apply c f))

finish-url_of_parts : (f : Found) → finish f ≡ url_of_parts (wss_like f) f.host f.port
unfolding finish
finish-url_of_parts f = ground arith

-- The loop takes the components in order, and what follows it reads the variables.
pub multiaddr_to_wss_url-finish :
    (w : ℕ) (cs : List Component)
    → All (IsEncodable w) cs
    → multiaddr_to_wss_url w (encode_all cs) ≡ finish (apply_all nothing_found cs)
unfolding multiaddr_to_wss_url
multiaddr_to_wss_url-finish w cs h =
    rw (run-encode_all w nothing_found cs h, multiaddr_to_wss_url) refl

-- On the binary form of any list of components that it can carry, the reader answers the url
-- that the description gives: the last host, the last tcp port, and `/wss` or `/tls` with `/ws`.
-- The host may be of any of the dns kinds or an ip4 address, an ip6 address takes back the host
-- before it, and udp, quic and circuit components change nothing.
pub multiaddr_to_wss_url-encode_all :
    (w : ℕ) (cs : List Component)
    → All (IsEncodable w) cs
    → multiaddr_to_wss_url w (encode_all cs) ≡ url_of cs
multiaddr_to_wss_url-encode_all w cs h =
    let (a, b, c) = apply_all_flags cs nothing_found in
    multiaddr_to_wss_url-finish w cs h
    ∙ finish-url_of_parts (apply_all nothing_found cs)
    ∙ rw (a, b, c, apply_all-host_of cs nothing_found, apply_all-port_of cs nothing_found)

host_circuit :
    (f : Found) (cs ds : List Component)
    → host_of f.host (cs ++ circuit ∷ ds) ≡ host_of f.host (cs ++ ds)
host_circuit f [] ds = refl
host_circuit f (c ∷ cs) ds =
    apply_host c f (cs ++ circuit ∷ ds)
    ∙ host_circuit (apply c f) cs ds
    ∙ sym (apply_host c f (cs ++ ds))

port_circuit :
    (f : Found) (cs ds : List Component)
    → port_of f.port (cs ++ circuit ∷ ds) ≡ port_of f.port (cs ++ ds)
port_circuit f [] ds = refl
port_circuit f (c ∷ cs) ds =
    apply_port c f (cs ++ circuit ∷ ds)
    ∙ port_circuit (apply c f) cs ds
    ∙ sym (apply_port c f (cs ++ ds))

any_of_circuit :
    (test : Component → Bool)
    → test circuit ≡ false
    → (cs ds : List Component) → any_of test (cs ++ circuit ∷ ds) ≡ any_of test (cs ++ ds)
any_of_circuit test h [] ds = rw h
any_of_circuit test h (c ∷ cs) ds = rw (any_of_circuit test h cs ds)

-- A relayed address: the reader answers as if the circuit component were not there.
multiaddr_to_wss_url_circuit :
    (w : ℕ) (cs ds : List Component)
    → All (IsEncodable w) cs
    → All (IsEncodable w) ds
    → multiaddr_to_wss_url w (encode_all (cs ++ circuit ∷ ds))
      ≡ multiaddr_to_wss_url w (encode_all (cs ++ ds))
multiaddr_to_wss_url_circuit w cs ds hc hd =
    multiaddr_to_wss_url-encode_all w (cs ++ circuit ∷ ds)
      (All-append _ cs (circuit ∷ ds) hc (tt, hd))
    ∙ (rw (
      host_circuit nothing_found cs ds,
      port_circuit nothing_found cs ds,
      any_of_circuit is_wss refl cs ds,
      any_of_circuit is_tls refl cs ds,
      any_of_circuit is_ws refl cs ds,
    ))
    ∙ sym (multiaddr_to_wss_url-encode_all w (cs ++ ds) (All-append _ cs ds hc hd))
