-- ===== src/Kad/Multiaddr/Textual.antt =====
-- The textual form of a multiaddr, and what the textual reader of src/kad.rs finds in it.
use microdot.Base.{
  ℕ, zero, suc, ◌≤◌, ◌<◌, ◌^◌, ◌≡◌, refl, sym, ◌∙◌, ap, ◌≢◌, Option, none, some, List, [], ◌∷◌,
  ◌++◌, Bytes, length, All, All-append, All-mono, arith,
}
use microdot.Text.{Text, text, show, split, trim_start_matches}
use microdot.Text.Decimal.{parse_u16-show, show-All_digits}
use microdot.Text.Split.{Free, join_slash, split-trim_start_matches-join}
use microdot.Kad.Multiaddr.{
  Found, nothing_found, textual_step, textual_loop, finish_textual, finish,
  parse_bootnode_multiaddr, multiaddr_to_wss_url,
}
use microdot.Kad.Multiaddr.Binary.{apply, apply_all}
use microdot.Kad.Multiaddr.Component.{
  Component, ip4, ip6, dns, dns4, dns6, tcp, udp, wss, ws, tls, quic, circuit, p2p, sni, encode_all,
  IsEncodable, ip4_text,
}
use microdot.Kad.Multiaddr.Meaning.{multiaddr_to_wss_url-finish}
use mathlib.Core.Option as Option

-- The address without its ip6 components, which the textual reader passes over.
abbrev pub less_ip6 : List Component → List Component
less_ip6 [] = []
less_ip6 (ip6 x ∷ cs) = less_ip6 cs
less_ip6 (c ∷ cs) = c ∷ less_ip6 cs

less_ip6-All : (P : Component → Type 0) (cs : List Component) → All P cs → All P (less_ip6 cs)
less_ip6-All P [] h = tt
less_ip6-All P (ip6 x ∷ cs) (hc, h) = less_ip6-All P cs h
less_ip6-All P (c ∷ cs) (hc, h) = (hc, less_ip6-All P cs h)

-- The answer of the textual reader: an id and a url, or nothing.
abbrev pub with_peer : Option Text → Option Text → Option (Text × Text)
with_peer none url = none
with_peer (some id) url = Option.map (λ u. (id, u)) url

-- What a text can carry: a host without a slash, and a port of 16 bits.
abbrev pub IsPrintable : Component → Type 0
IsPrintable (dns h) = Free b'/' h
IsPrintable (dns4 h) = Free b'/' h
IsPrintable (dns6 h) = Free b'/' h
IsPrintable (sni h) = Free b'/' h
IsPrintable (tcp n) = n < 2 ^ 16
IsPrintable c = Unit {0}

show-Free : (n : ℕ) → Free b'/' (show n)
show-Free n = All-mono _ (λ c h. ground (arith, h)) (show n) (show-All_digits n)

ip4_text-Free : (a b c d : ℕ) → Free b'/' (ip4_text a b c d)
ip4_text-Free a b c d =
    let dot : (s t : Text) → Free b'/' s → Free b'/' t → Free b'/' (s ++ (text "." ++ t)) =
      λ s t hs ht. All-append (λ x. x ≢ b'/') s (text "." ++ t) hs (omega arith, ht) in
    dot (show a) _ (show-Free a)
      (dot (show b) _ (show-Free b) (dot (show c) (show d) (show-Free c) (show-Free d)))

with_peer_id : (p : Option Text) (f : Found) → Found
with_peer_id p f = record f { peer_id = p }

apply_all-with_peer_id :
    (ds : List Component) (f : Found) (p : Option Text)
    → apply_all (with_peer_id p f) ds ≡ with_peer_id p (apply_all f ds)
unfolding apply_all apply with_peer_id
apply_all-with_peer_id [] f p = refl
apply_all-with_peer_id (ip4 a b c d ∷ ds) f p = apply_all-with_peer_id ds (apply (ip4 a b c d) f) p
apply_all-with_peer_id (c ∷ ds) f p = apply_all-with_peer_id ds (apply c f) p

-- `id_text` prints a peer id and `ip6_text` an ipv6 address.
module _ (id_text ip6_text : Bytes → Text) where
  -- The parts of a component between the slashes.
  abbrev pub parts_of : Component → List Text
  parts_of (ip4 a b c d) = text "ip4" ∷ ip4_text a b c d ∷ []
  parts_of (ip6 x) = text "ip6" ∷ ip6_text x ∷ []
  parts_of (dns h) = text "dns" ∷ h ∷ []
  parts_of (dns4 h) = text "dns4" ∷ h ∷ []
  parts_of (dns6 h) = text "dns6" ∷ h ∷ []
  parts_of (tcp n) = text "tcp" ∷ show n ∷ []
  parts_of (udp n) = text "udp" ∷ show n ∷ []
  parts_of wss = text "wss" ∷ []
  parts_of ws = text "ws" ∷ []
  parts_of tls = text "tls" ∷ []
  parts_of quic = text "quic-v1" ∷ []
  parts_of circuit = text "p2p-circuit" ∷ []
  parts_of (p2p x) = text "p2p" ∷ id_text x ∷ []
  parts_of (sni h) = text "sni" ∷ h ∷ []

  abbrev pub parts_of_all : List Component → List Text
  parts_of_all [] = []
  parts_of_all (c ∷ cs) = parts_of c ++ parts_of_all cs

  -- The textual form, by the multiaddr specification.
  abbrev pub print_all : List Component → Text
  print_all cs = join_slash b'/' (parts_of_all cs)

  -- The last peer id.
  abbrev pub peer_of : Option Text → List Component → Option Text
  peer_of p [] = p
  peer_of p (p2p x ∷ cs) = peer_of (some (id_text x)) cs
  peer_of p (c ∷ cs) = peer_of p cs

  -- What a component does to the variables of the textual reader.
  text_apply : Component → Found → Found
  text_apply (ip6 x) f = f
  text_apply (p2p x) f = record f { peer_id = some (id_text x) }
  text_apply c f = apply c f

  text_apply_all : List Component → Found → Found
  text_apply_all [] f = f
  text_apply_all (c ∷ cs) f = text_apply_all cs (text_apply c f)

  loop-parts_of :
      (fuel : ℕ) (f : Found) (c : Component) (rest : List Text)
      → IsPrintable c
      → textual_loop (suc fuel) f (parts_of c ++ rest) ≡ textual_loop fuel (text_apply c f) rest
  unfolding textual_loop textual_step text_apply apply
  loop-parts_of fuel f (tcp n) rest h = rw (parse_u16-show n (omega (arith, h))) refl
  loop-parts_of fuel f (ip4 a b c d) rest h = refl
  loop-parts_of fuel f (ip6 x) rest h = refl
  loop-parts_of fuel f (dns x) rest h = refl
  loop-parts_of fuel f (dns4 x) rest h = refl
  loop-parts_of fuel f (dns6 x) rest h = refl
  loop-parts_of fuel f (udp x) rest h = refl
  loop-parts_of fuel f wss rest h = refl
  loop-parts_of fuel f ws rest h = refl
  loop-parts_of fuel f tls rest h = refl
  loop-parts_of fuel f quic rest h = refl
  loop-parts_of fuel f circuit rest h = refl
  loop-parts_of fuel f (p2p x) rest h = refl
  loop-parts_of fuel f (sni x) rest h = refl

  more_parts : (c : Component) (rest : List Text) → suc (length rest) ≤ length (parts_of c ++ rest)
  more_parts wss rest = omega arith
  more_parts c rest = omega arith

  loop-parts_of_all :
      (cs : List Component) (fuel : ℕ) (f : Found)
      → length (parts_of_all cs) ≤ fuel
      → All IsPrintable cs
      → textual_loop fuel f (parts_of_all cs) ≡ text_apply_all cs f
  unfolding textual_loop text_apply_all
  loop-parts_of_all [] zero f enough h = refl
  loop-parts_of_all [] (suc fuel) f enough h = refl
  loop-parts_of_all (c ∷ cs) zero f enough h =
      absurd (omega (arith, more_parts c (parts_of_all cs), enough))
  loop-parts_of_all (c ∷ cs) (suc fuel) f enough (hc, h) =
      loop-parts_of fuel f c (parts_of_all cs) hc
      ∙ loop-parts_of_all cs fuel (text_apply c f)
          (omega (arith, more_parts c (parts_of_all cs), enough)) h

  -- Beside the peer id, the variables are what the binary reader makes of the rest.
  text_apply_all-less_ip6 :
      (cs : List Component) (f : Found)
      → text_apply_all cs f ≡ with_peer_id (peer_of f.peer_id cs) (apply_all f (less_ip6 cs))
  unfolding with_peer_id text_apply_all text_apply apply apply_all
  text_apply_all-less_ip6 [] f = refl
  text_apply_all-less_ip6 (p2p x ∷ cs) f =
      text_apply_all-less_ip6 cs (with_peer_id (some (id_text x)) f)
      ∙ rw (apply_all-with_peer_id (less_ip6 cs) f (some (id_text x)), with_peer_id) refl
  text_apply_all-less_ip6 (ip6 x ∷ cs) f = text_apply_all-less_ip6 cs f
  text_apply_all-less_ip6 (c ∷ cs) f = text_apply_all-less_ip6 cs (apply c f)

  part-Free :
      ((x : Bytes) → Free b'/' (id_text x))
      → ((x : Bytes) → Free b'/' (ip6_text x))
      → (c : Component) → IsPrintable c
      → All (Free b'/') (parts_of c)
  part-Free hi h6 (ip4 a b c d) h = (omega arith, (ip4_text-Free a b c d, tt))
  part-Free hi h6 (ip6 x) h = (omega arith, (h6 x, tt))
  part-Free hi h6 (dns x) h = (omega arith, (h, tt))
  part-Free hi h6 (dns4 x) h = (omega arith, (h, tt))
  part-Free hi h6 (dns6 x) h = (omega arith, (h, tt))
  part-Free hi h6 (tcp n) h = (omega arith, (show-Free n, tt))
  part-Free hi h6 (udp n) h = (omega arith, (show-Free n, tt))
  part-Free hi h6 (p2p x) h = (omega arith, (hi x, tt))
  part-Free hi h6 (sni x) h = (omega arith, (h, tt))
  part-Free hi h6 c h = omega arith

  parts-Free :
      ((x : Bytes) → Free b'/' (id_text x))
      → ((x : Bytes) → Free b'/' (ip6_text x))
      → (cs : List Component) → All IsPrintable cs
      → All (Free b'/') (parts_of_all cs)
  parts-Free hi h6 [] h = tt
  parts-Free hi h6 (c ∷ cs) (hc, h) =
      All-append _ (parts_of c) _ (part-Free hi h6 c hc) (parts-Free hi h6 cs h)

  -- The first part is a name, never empty.
  named : (c : Component) → (x : ℕ) × (p : Text) × (ps : List Text) × (parts_of c ≡ (x ∷ p) ∷ ps)
  named (ip4 a b c d) = (_, _, _, refl)
  named c = (_, _, _, refl)

  reads_parts :
      (cs : List Component)
      → All (Free b'/') (parts_of_all cs)
      → parse_bootnode_multiaddr (print_all cs)
        ≡ finish_textual (textual_loop (length (parts_of_all cs)) nothing_found (parts_of_all cs))
  unfolding parse_bootnode_multiaddr trim_start_matches split textual_loop textual_step
  reads_parts [] h = refl
  reads_parts (c ∷ cs) h =
      let (x, p, ps, e) = named c in
      let pieces : split b'/' (trim_start_matches b'/' (print_all (c ∷ cs)))
          ≡ parts_of_all (c ∷ cs) =
        rw e (split-trim_start_matches-join b'/' x p (ps ++ parts_of_all cs) (rw e at h)) in
      ap (λ parts. finish_textual (textual_loop (length parts) nothing_found parts)) pieces

  finish_textual-with_peer :
      (p : Option Text) (f : Found) → finish_textual (with_peer_id p f) ≡ with_peer p (finish f)
  unfolding finish_textual finish with_peer_id
  finish_textual-with_peer none f = ground arith
  finish_textual-with_peer (some id) f = ground arith

-- The two readers agree: on the textual form of an address the textual reader answers its last
-- peer id with the url that the binary reader gives for the binary form, less the ip6
-- components, which only the binary reader lets take back a host. The address is one that both
-- forms can carry: its hosts and the texts of its ids and ipv6 addresses have no slash, its
-- ports have 16 bits, and its hosts are UTF-8 with lengths that fit.
pub parse_bootnode_multiaddr-print_all :
    (w : ℕ) (id_text ip6_text : Bytes → Text)
    → ((x : Bytes) → Free b'/' (id_text x))
    → ((x : Bytes) → Free b'/' (ip6_text x))
    → (cs : List Component) → All IsPrintable cs
    → All (IsEncodable w) cs
    → parse_bootnode_multiaddr (print_all id_text ip6_text cs)
      ≡ with_peer
          (peer_of id_text ip6_text none cs)
          (multiaddr_to_wss_url w (encode_all (less_ip6 cs)))
unfolding text_apply_all
parse_bootnode_multiaddr-print_all w id_text ip6_text hi h6 cs hp he =
    let f = apply_all nothing_found (less_ip6 cs) in
    reads_parts id_text ip6_text cs (parts-Free id_text ip6_text hi h6 cs hp)
    ∙ ap finish_textual (
        loop-parts_of_all id_text ip6_text cs _ nothing_found (omega arith) hp
        ∙ text_apply_all-less_ip6 id_text ip6_text cs nothing_found)
    ∙ finish_textual-with_peer id_text ip6_text (peer_of id_text ip6_text none cs) f
    ∙ ap (with_peer (peer_of id_text ip6_text none cs))
        (sym (multiaddr_to_wss_url-finish w (less_ip6 cs) (less_ip6-All (IsEncodable w) cs he)))
