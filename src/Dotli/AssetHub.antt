-- ===== src/Dotli/AssetHub.antt =====
-- example/dotli/src/lib.rs, `assethub_phase`: the contract's trie id, and the bytes of a Solidity
-- `bytes` value in its child trie.
pub mod Forms
pub mod Value
pub mod Sound
pub mod Steady
pub mod Answers
use microdot.Base.{
  ℕ, zero, suc, ◌+◌, ◌-◌, ◌*◌, ◌/◌, ◌^◌, min, Bool, true, false, Option, none, some, List, [], ◌∷◌,
  ◌++◌, Bytes, length, take, bit_and, leb, ltb, ◌==◌, if◌then◌else◌, not, Result, ok, err, ◌>>=◌,
  map_err, ok_or,
}
use microdot.Text.{Text}
use microdot.State.{TrieLibrary}
use microdot.Dotli.Words.{last_byte, decode_long_bytes_length, u256_add, revive_account_info_key}
use microdot.Dotli.Session.{
  AssetHubHead, Socket, Conn, connect, wait_for_subscription_open, request_top_storage,
  request_child_slot, PhaseError, decoding_account_info, schema_drift, no_contract, slot, panicked,
}

pub data AccountType : Type 0 where
  -- only the trie id of the `ContractInfo` is read
  contract : Bytes → AccountType
  eoa : AccountType

pub record AccountInfo : Type 0 where
  pub account_type : AccountType
  pub dust : ℕ

pub record AssetHubResult : Type 0 where
  pub contenthash : Bytes
  pub fetched_trie_id : Option Bytes

-- The hash functions of sp-core, and the SCALE decoder with the bytes it leaves.
pub record Chain : Type 0 where
  pub keccak_256 : Bytes → Bytes
  pub blake2_256 : Bytes → Bytes
  pub twox_128 : Bytes → Bytes
  pub decode_account_info : Bytes → Option (AccountInfo × Bytes)

-- `total_len.div_ceil(32)`
abbrev pub slots_of : ℕ → ℕ
slots_of total_len = (total_len + 31) / 32

module _ {D : Type 0} (w : ℕ) (lib : TrieLibrary D) (chain : Chain) (socket : Socket)
    (head : AssetHubHead) where
  -- `match acc.account_type` after the checks on the decoding
  unfoldable pub contract_trie_id : Bytes → Result PhaseError Bytes
  contract_trie_id found = do
    (acc, cursor) ← ok_or (chain.decode_account_info found) decoding_account_info
    _ ← (if length cursor == 0 then ok (tt {0}) else err (schema_drift (length cursor)))
    elim (acc.account_type) [ contract trie_id ↦ ok trie_id | eoa ↦ err no_contract ]

  -- `(trie_id, fetched_trie_id)`
  unfoldable pub find_trie_id :
      Bytes → Option Bytes → Conn → Result PhaseError (Bytes × Option Bytes × Conn)
  find_trie_id contract_addr (some t) conn = ok (t, none, conn)
  find_trie_id contract_addr none conn = do
    (found, conn) ←
        request_top_storage w lib (chain.blake2_256) socket head
          (revive_account_info_key (chain.twox_128) contract_addr) conn
    trie_id ← contract_trie_id found
    ok (trie_id, some trie_id, conn)

  -- `for i in 0..n_slots`, from `i` on with `left` rounds to go; the bytes it adds to `out`
  unfoldable pub read_slots : Bytes → Bytes → ℕ → ℕ → ℕ → Conn → Result PhaseError Bytes
  read_slots trie_id data_slot_base total_len zero i conn = ok []
  read_slots trie_id data_slot_base total_len (suc left) i conn = do
    (chunk, conn) ←
        request_child_slot w lib (chain.blake2_256) socket head trie_id (u256_add data_slot_base i)
          conn
    out ← read_slots trie_id data_slot_base total_len left (i + 1) conn
    ok (take (min (total_len - i * 32) 32) chunk ++ out)

  -- The value whose base slot is `base_slot`. `panicked` marks where the source panics: a short length
  -- above 32 is a slice out of range, and a capacity above `isize::MAX` overflows.
  unfoldable pub read_value : Bytes → Bytes → Bytes → Conn → Result PhaseError Bytes
  read_value trie_id base_slot_key base_slot conn =
      if bit_and (last_byte base_slot) 1 == 0
      then (if ltb 32 (last_byte base_slot / 2)
          then err panicked
          else ok (take (last_byte base_slot / 2) base_slot))
      else (do
        total_len ← map_err slot (decode_long_bytes_length w base_slot)
        _ ← (if leb (2 ^ (w - 1)) total_len then err panicked else ok (tt {0}))
        read_slots trie_id (chain.keccak_256 base_slot_key) total_len (slots_of total_len) 0 conn)

  unfoldable pub assethub_phase :
      Bytes → Bytes → Option Bytes → Text → Result PhaseError AssetHubResult
  assethub_phase contract_addr base_slot_key cached_trie_id wss_url = do
    conn ← connect socket wss_url
    rest ← wait_for_subscription_open (socket.announces_id) (conn.incoming)
    (trie_id, fetched_trie_id, conn) ←
        find_trie_id contract_addr cached_trie_id (record { incoming = rest; sent = conn.sent })
    (base_slot, conn) ←
        request_child_slot w lib (chain.blake2_256) socket head trie_id base_slot_key conn
    contenthash ← read_value trie_id base_slot_key base_slot conn
    ok (record { contenthash = contenthash; fetched_trie_id = fetched_trie_id })
