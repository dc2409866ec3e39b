-- ===== src/Runs/Bursts.antt =====
-- Runs of `discovery_burst` of src/discovery.rs over one bootnode, which names itself.
use microdot.Base.{◌≤◌, ◌≡◌, refl, true, false, some, List, [], ◌∷◌, Bytes, ok, err, arith}
use microdot.Text.{Text, text, split, trim_start_matches, parse_u16, show, from_utf8, is_utf8}
use microdot.BTreeMap.{get, insert, or_insert, modify, text_order}
use microdot.Wire.Field.{Field, delimited, encode_fields}
use microdot.PeerPool.{
  PeerEntry, PeerPool, new, len, max_pool_size, observe, fresh_entry, evict_to_capacity,
}
use microdot.PeerPool.Reputation.{IsValid}
use microdot.PeerPool.Invariant.{observing, Reaches-IsValid, here, after}
use microdot.Kad.Request.{response, value, one_shot_find_node}
use microdot.Wire.{encode_varint, decode_varint, take_bytes, take_delimited}
use microdot.Wire.Walk.{run}
use microdot.Kad.Multiaddr.{parse_bootnode_multiaddr, multiaddr_to_wss_url, multiaddr_step, finish}
use microdot.Kad.Message.{decode_find_node_response, response_step, decode_peer, peer_step}
use microdot.Discovery.{
  Link, timed_out, fold_outcomes, probe_one_bootnode, join_all, discovery_burst,
}
use microdot.Discovery.Harvest.{harvest, names, observe_all, discovery_burst_named}

abbrev base58 : Bytes → Text
base58 x = text "B"

-- `/dns/a/tcp/443/wss`
abbrev address : Bytes
address = 53 ∷ 1 ∷ 97 ∷ 6 ∷ 1 ∷ 187 ∷ 222 ∷ 3 ∷ []

abbrev peer_fields : List Field
peer_fields =
    record { number = 1; payload = delimited (5 ∷ []) }
    ∷ record { number = 2; payload = delimited address }
    ∷ []

abbrev link : Link
link = record {
  connect = λ url. ok tt;
  add_protocol = λ name. 0;
  handshake = λ name. ok tt;
  fill_with_random_bytes = λ n. [];
  request = λ bytes. ok tt;
  incoming =
      ok (
        response 0 (
          value (
            encode_fields
              (record { number = 8; payload = delimited (encode_fields peer_fields) } ∷ []))))
      ∷ [];
  times_out = false;
}

abbrev bootnode : Text × Link
bootnode = (text "/dns/a/tcp/443/wss/p2p/B", link)

abbrev pool : PeerPool
pool = observe (text "P") (text "p") 2 new

pool-IsValid : IsValid pool
pool-IsValid = Reaches-IsValid (after (observing (text "P") (text "p") 2) here)

probe : probe_one_bootnode 32 base58 (bootnode.0) (text "ab") link ≡ record {
  bootnode_peer_id = text "B";
  bootnode_wss_url = text "wss://a:443/";
  result = ok (record { peer_id_base58 = text "B"; wss_url = text "wss://a:443/" } ∷ []);
}
unfolding probe_one_bootnode parse_bootnode_multiaddr one_shot_find_node decode_find_node_response
    response_step decode_peer peer_step multiaddr_to_wss_url multiaddr_step finish decode_varint
    encode_varint take_delimited take_bytes run split trim_start_matches parse_u16 show from_utf8
    is_utf8
probe = refl

probes_name_b : names (text "B") (harvest (join_all 32 base58 (text "ab") (bootnode ∷ []))) ≡ true
probes_name_b = rw probe refl

pool_fits :
    len (observe_all 9 (harvest (join_all 32 base58 (text "ab") (bootnode ∷ []))) pool)
    ≤ max_pool_size
unfolding observe modify or_insert insert get
pool_fits = rw probe (omega arith)

-- the bootnode `B` named itself
discovery_burst_named_example :
    (e : PeerEntry) × (get
        (text "B")
        ((discovery_burst 32 base58 pool (bootnode ∷ []) (text "ab") 9).0)
      ≡ some e)
    × (e.last_seen_unix_ms ≡ 9)
discovery_burst_named_example =
    discovery_burst_named 32 base58 pool bootnode [] (text "ab") 9 (text "B") probes_name_b
      pool_fits

abbrev silent : Link
silent = record link { times_out = true }

abbrev silent_bootnode : Text × Link
silent_bootnode = (text "/dns/a/tcp/443/wss/p2p/B", silent)

silent_probe :
    probe_one_bootnode 32 base58 (text "/dns/a/tcp/443/wss/p2p/B") (text "ab") silent ≡ record {
      bootnode_peer_id = text "B";
      bootnode_wss_url = text "wss://a:443/";
      result = err timed_out;
    }
unfolding probe_one_bootnode parse_bootnode_multiaddr finish split trim_start_matches parse_u16 show
silent_probe = refl

probes_do_not_name_p :
    names (text "P") (harvest (join_all 32 base58 (text "ab") (silent_bootnode ∷ []))) ≡ false
probes_do_not_name_p = rw silent_probe refl

pool_keeps_p :
    get (text "P") ((discovery_burst 32 base58 pool (silent_bootnode ∷ []) (text "ab") 9).0)
    ≡ some (fresh_entry (text "p") 2)
unfolding discovery_burst probe_one_bootnode parse_bootnode_multiaddr finish split
    trim_start_matches parse_u16 show fold_outcomes evict_to_capacity observe modify or_insert
    insert get
pool_keeps_p = refl
