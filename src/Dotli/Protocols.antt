-- ===== src/Dotli/Protocols.antt =====
-- example/dotli/src/lib.rs: the protocols that the two phases offer, at the head of `relay_phase` and
-- of `assethub_phase`. The hex encoder and the SCALE encoder of the handshake are arguments.
use microdot.Base.{
  ℕ, ◌*◌, ◌≡◌, ◌≢◌, ◌↔◌, refl, sym, ap, ◌∙◌, subst, Bool, true, ◌&&◌, List, [], ◌∷◌, ◌++◌, Bytes,
  length, length-take, length-append, take, drop, take-append-drop, take-append_self,
  drop-append_self, leb, le→leb, ◌==◌, arith,
}
use microdot.Text.{Text, text, text_eq}
use microdot.Text.Order.{text_eq_iff}
use microdot.Dotli.Polkadot.{relay_genesis_hash, assethub_genesis_hash}
use mathlib.Core.List.{append_assoc, append-nil}

pub record SubscriptionProtocol : Type 0 where
  pub name : Text
  pub handshake : Bytes
  pub validate : Bytes → Bool

pub record RequestProtocol : Type 0 where
  pub name : Text
  pub max_response_size : ℕ
  pub timeout_secs : ℕ

pub record Configuration : Type 0 where
  pub subscriptions : List SubscriptionProtocol
  pub requests : List RequestProtocol

-- `hs.len() >= 69 && hs[37..69] == GENESIS_HASH`
unfoldable pub validate_block_announces : Bytes → Bytes → Bool
validate_block_announces genesis hs = leb 69 (length hs) && text_eq (take 32 (drop 37 hs)) genesis

abbrev pub chain_protocol : (Bytes → Text) → Bytes → Text → Text
chain_protocol hex_encode genesis name = text "/" ++ (hex_encode genesis ++ name)

-- `encode` is the encoder of the tuple of a u8, a u32 and two arrays of 32 bytes.
module _ (hex_encode : Bytes → Text) (encode : ℕ → ℕ → Bytes → Bytes → Bytes) where
  abbrev pub block_announces : Bytes → SubscriptionProtocol
  block_announces genesis = record {
    name = chain_protocol hex_encode genesis (text "/block-announces/1");
    handshake = encode 2 0 genesis genesis;
    validate = validate_block_announces genesis;
  }

  abbrev pub grandpa : Bytes → SubscriptionProtocol
  grandpa genesis = record {
    name = chain_protocol hex_encode genesis (text "/grandpa/1");
    handshake = 2 ∷ [];
    validate = λ hs. length hs == 1;
  }

  abbrev pub state_requests : Bytes → RequestProtocol
  state_requests genesis = record {
    name = chain_protocol hex_encode genesis (text "/state/2");
    max_response_size = 16 * 1024 * 1024;
    timeout_secs = 30;
  }

  abbrev pub warp_requests : Bytes → RequestProtocol
  warp_requests genesis = record {
    name = chain_protocol hex_encode genesis (text "/sync/warp");
    max_response_size = 32 * 1024 * 1024;
    timeout_secs = 30;
  }

  unfoldable pub relay_configuration : Configuration
  relay_configuration = record {
    subscriptions = block_announces relay_genesis_hash ∷ grandpa relay_genesis_hash ∷ [];
    requests = warp_requests relay_genesis_hash ∷ state_requests relay_genesis_hash ∷ [];
  }

  unfoldable pub assethub_configuration : Configuration
  assethub_configuration = record {
    subscriptions = block_announces assethub_genesis_hash ∷ grandpa assethub_genesis_hash ∷ [];
    requests = state_requests assethub_genesis_hash ∷ [];
  }

behind :
    (front genesis rest : Bytes)
    → length front ≡ 37
    → length genesis ≡ 32
    → take 32 (drop 37 (front ++ (genesis ++ rest))) ≡ genesis
behind front genesis rest f l =
    ap (take 32) (
      subst (λ n. drop n (front ++ (genesis ++ rest)) ≡ genesis ++ rest) f
        (drop-append_self front (genesis ++ rest)))
    ∙ subst (λ n. take n (genesis ++ rest) ≡ genesis) l (take-append_self genesis rest)

and_true : {a b : Bool} → a ≡ true → b ≡ true → a && b ≡ true
and_true p q = rw (p, q) refl

-- A block-announces handshake is accepted if and only if the genesis hash, of 32 bytes, stands
-- behind its first 37 bytes: the role, the number of the best block and its hash.
pub validate_block_announces_iff :
    (genesis hs : Bytes)
    → length genesis ≡ 32
    → (validate_block_announces genesis hs ≡ true)
      ↔ ((front : Bytes) × (rest : Bytes) × (length front ≡ 37) × (hs ≡ front ++ (genesis ++ rest)))
unfolding validate_block_announces
validate_block_announces_iff genesis hs l = (
  λ e.
      let same = (text_eq_iff (take 32 (drop 37 hs)) genesis).0 (ground (arith, e)) in
      (
        take 37 hs,
        drop 32 (drop 37 hs),
        ground (arith, e, length-take 37 hs),
        sym (
            ap (λ g. take 37 hs ++ (g ++ drop 32 (drop 37 hs))) (sym same)
            ∙ ap (λ t. take 37 hs ++ t) (take-append-drop 32 (drop 37 hs))
            ∙ take-append-drop 37 hs),
      ),
  λ (front, rest, f, q).
      subst (λ t. leb 69 (length t) && text_eq (take 32 (drop 37 t)) genesis ≡ true) (sym q)
        (and_true
          (le→leb 69 _ (
            omega (arith, f, l, length-append front (genesis ++ rest), length-append genesis rest)))
          ((text_eq_iff _ genesis).1 (behind front genesis rest f l))),
)

-- What the SCALE codec writes for the handshake of a node: its role, the number of its best block in
-- four bytes, the hash of that block, and the hash of the genesis.
abbrev pub IsHandshakeEncoder : (ℕ → ℕ → Bytes → Bytes → Bytes) → Type 0
IsHandshakeEncoder encode =
    (role number : ℕ) (best genesis : Bytes)
    → (number_bytes : Bytes) × (length number_bytes ≡ 4)
      × (encode role number best genesis ≡ role ∷ (number_bytes ++ (best ++ genesis)))

-- The check accepts a written handshake if and only if the chain is the one asked for.
validate_block_announces-encode :
    (encode : ℕ → ℕ → Bytes → Bytes → Bytes) (genesis other best : Bytes) (role number : ℕ)
    → IsHandshakeEncoder encode
    → length genesis ≡ 32
    → length other ≡ 32
    → length best ≡ 32
    → (validate_block_announces genesis (encode role number best other) ≡ true) ↔ (other ≡ genesis)
unfolding validate_block_announces
validate_block_announces-encode encode genesis other best role number h l m b =
    let (number_bytes, n, e) = h role number best other in
    let front = role ∷ (number_bytes ++ best) in
    let f : length front ≡ 37 = omega (arith, n, b, length-append number_bytes best) in
    let q : encode role number best other ≡ front ++ (other ++ []) =
      e ∙ rw (append-nil, append_assoc number_bytes best other) refl in
    let found : take 32 (drop 37 (encode role number best other)) ≡ other =
      ap (λ t. take 32 (drop 37 t)) q ∙ behind front other [] f m in
    (
      λ v.
          sym found
          ∙ (text_eq_iff (take 32 (drop 37 (encode role number best other))) genesis).0
              (ground (arith, v)),
      λ same.
          (validate_block_announces_iff genesis (encode role number best other) l).1
            (front, [], f, q ∙ ap (λ g. front ++ (g ++ [])) same),
    )

-- The first subscription that a phase offers takes part in its handshake with the nodes of one
-- chain, and of no other.
abbrev pub SpeaksOnlyTo : (ℕ → ℕ → Bytes → Bytes → Bytes) → Bytes → Configuration → Type 0
SpeaksOnlyTo encode genesis configuration =
    (announces : SubscriptionProtocol) × (others : List SubscriptionProtocol)
    × (configuration.subscriptions ≡ announces ∷ others)
    × (announces.validate (announces.handshake) ≡ true)
    × ((role number : ℕ) (best other : Bytes)
        → length best ≡ 32
        → length other ≡ 32
        → (announces.validate (encode role number best other) ≡ true) ↔ (other ≡ genesis))

abbrev front_byte : Bytes → ℕ
front_byte [] = 0
front_byte (b ∷ bytes) = b

genesis_apart : front_byte relay_genesis_hash ≢ front_byte assethub_genesis_hash
genesis_apart e = omega (arith, e)

-- If the encoder writes a handshake as SCALE does, each phase accepts the handshake that it sends
-- itself, and of all handshakes with hashes of 32 bytes, whatever their role and best block, it
-- accepts exactly those of a node with the genesis hash of its own chain; and the hashes of the
-- two chains differ, so neither phase accepts a node of the other chain.
pub configurations_speak :
    (hex_encode : Bytes → Text) (encode : ℕ → ℕ → Bytes → Bytes → Bytes)
    → IsHandshakeEncoder encode
    → SpeaksOnlyTo encode relay_genesis_hash (relay_configuration hex_encode encode)
      × SpeaksOnlyTo encode assethub_genesis_hash (assethub_configuration hex_encode encode)
      × (relay_genesis_hash ≢ assethub_genesis_hash)
unfolding relay_configuration assethub_configuration
configurations_speak hex_encode encode h =
    let own = λ (genesis : Bytes) (l : length genesis ≡ 32).
      (validate_block_announces-encode encode genesis genesis genesis 2 0 h l l l).1 refl in
    (
      (
        block_announces hex_encode encode relay_genesis_hash,
        grandpa hex_encode encode relay_genesis_hash ∷ [],
        refl,
        own relay_genesis_hash refl,
        λ role number best other b l.
            validate_block_announces-encode encode relay_genesis_hash other best role number h refl
              l b,
      ),
      (
        block_announces hex_encode encode assethub_genesis_hash,
        grandpa hex_encode encode assethub_genesis_hash ∷ [],
        refl,
        own assethub_genesis_hash refl,
        λ role number best other b l.
            validate_block_announces-encode encode assethub_genesis_hash other best role number h
              refl l b,
      ),
      λ e. genesis_apart (ap front_byte e),
    )
