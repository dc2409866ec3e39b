-- ===== src/Dotli/Polkadot.antt =====
-- example/dotli/src/polkadot.rs: the constants of the chains.
use microdot.Base.{ℕ, List, [], ◌∷◌, Bytes}
use microdot.Text.{Text, text}

abbrev pub relay_genesis_hash : Bytes
relay_genesis_hash =
    119 ∷ 175 ∷ 214 ∷ 25 ∷ 15 ∷ 21 ∷ 84 ∷ 173 ∷ 69 ∷ 253 ∷ 13 ∷ 49 ∷ 174 ∷ 230 ∷ 42 ∷ 172 ∷ 195 ∷ 60
    ∷ 109 ∷ 176 ∷ 234 ∷ 128 ∷ 17 ∷ 41 ∷ 172 ∷ 184 ∷ 19 ∷ 249 ∷ 19 ∷ 224 ∷ 118 ∷ 79 ∷ []

abbrev pub assethub_genesis_hash : Bytes
assethub_genesis_hash =
    23 ∷ 60 ∷ 234 ∷ 157 ∷ 244 ∷ 86 ∷ 86 ∷ 207 ∷ 97 ∷ 44 ∷ 139 ∷ 142 ∷ 206 ∷ 86 ∷ 224 ∷ 78 ∷ 154
    ∷ 105 ∷ 60 ∷ 105 ∷ 207 ∷ 170 ∷ 196 ∷ 125 ∷ 54 ∷ 40 ∷ 218 ∷ 231 ∷ 53 ∷ 6 ∷ 122 ∷ 248 ∷ []

abbrev pub assethub_para_id : ℕ
assethub_para_id = 1500

abbrev pub dotns_content_resolver : Bytes
dotns_content_resolver =
    44 ∷ 159 ∷ 245 ∷ 217 ∷ 19 ∷ 109 ∷ 190 ∷ 88 ∷ 20 ∷ 199 ∷ 180 ∷ 253 ∷ 190 ∷ 220 ∷ 21 ∷ 39 ∷ 58
    ∷ 119 ∷ 102 ∷ 99 ∷ []

abbrev pub contenthash_slot : ℕ
contenthash_slot = 0

abbrev pub relay_wss : Text
relay_wss = text "wss://paseo-boot-ng.dwellir.com:443"

abbrev pub assethub_wss : Text
assethub_wss = text "wss://paseo-asset-hub-next-collator-node-0.parity-testnet.parity.io:443"

abbrev pub relay_wss_bootnodes : List Text
relay_wss_bootnodes =
    text
      "/dns/paseo.bootnode.amforc.com/tcp/29999/wss/p2p/12D3KooWSdf63rZjtGdeWXpQwQwPh8K8c22upcB3B1VmqW8rxrjw"
    ∷ text
        "/dns/paseo-boot-ng.dwellir.com/tcp/443/wss/p2p/12D3KooWBLLFKDGBxCwq3QmU3YwWKXUx953WwprRshJQicYu4Cfr"
    ∷ text
        "/dns/boot.gatotech.network/tcp/35400/wss/p2p/12D3KooWEvz5Ygv3MhCUNTVQbUTVhzhvf4KKcNoe5M5YbVLPBeeW"
    ∷ text
        "/dns/paseo.boot.rotko.net/tcp/30335/wss/p2p/12D3KooWRH8eBMhw8c7bucy6pJfy94q4dKpLkF3pmeGohHmemdRu"
    ∷ text
        "/dns/boot.stake.plus/tcp/43334/wss/p2p/12D3KooWNhgAC3hjZHxaT52EpPFZohkCL1AHFAijqcN8xB9Rwud2"
    ∷ text
        "/dns/paseo.bootnode.stkd.io/tcp/30633/wss/p2p/12D3KooWMdND5nwfCs5M2rfp5kyRo41BGDgD8V67rVRaB3acgZ53"
    ∷ text
        "/dns/paseo-bootnode.turboflakes.io/tcp/30730/wss/p2p/12D3KooWMjCN2CrnN71hAdehn6M2iYKeGdGbZ1A3SKhf4hxrgG9e"
    ∷ []

abbrev pub assethub_wss_bootnodes : List Text
assethub_wss_bootnodes =
    text
      "/dns/paseo-asset-hub-next-collator-node-0.parity-testnet.parity.io/tcp/443/wss/p2p/12D3KooWKT5DcVLoBbVDAM6N5ujDVknPfQWHk8SGJqJPyAM8Z4Y4"
    ∷ text
        "/dns/paseo-asset-hub-next-collator-node-1.parity-testnet.parity.io/tcp/443/wss/p2p/12D3KooWFjpVdBnfJFntogWhinn15WW2n8Fd2DiAcqU6i9rg47Yg"
    ∷ []

module _ (hex_encode : Bytes → Text) where
  abbrev pub relay_protocol_prefix_hex : Text
  relay_protocol_prefix_hex = hex_encode relay_genesis_hash

  abbrev pub assethub_protocol_prefix_hex : Text
  assethub_protocol_prefix_hex = hex_encode assethub_genesis_hash
