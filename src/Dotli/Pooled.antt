-- ===== src/Dotli/Pooled.antt =====
-- example/dotli/src/lib.rs: the two phases behind their peer pools, `relay_phase_with_pool` and
-- `assethub_phase_with_pool`. The world `W` holds the clock, the network and the browser's storage.
use microdot.Base.{ℕ, Option, Bytes, Result, ok, err, map_err}
use microdot.Text.{Text}
use microdot.BTreeMap.{text_order}
use microdot.PoolFallback.{Env, run_with_pool_fallback}
use microdot.State.{TrieLibrary}
use microdot.Dotli.Persistence.{
  RelaySnapshot, PersistedState, StateError, GrandpaState, Crates, Browser,
  snapshot_to_grandpa_state,
}
use microdot.Dotli.Words.{paras_heads_key}
use microdot.Dotli.Session.{AssetHubHead, Socket, PhaseError}
use microdot.Dotli.Relay.{WarpSync, relay_phase}
use microdot.Dotli.AssetHub.{AssetHubResult, Chain, assethub_phase}
use microdot.Dotli.Polkadot.{assethub_para_id, relay_wss, assethub_wss}

-- The crates that the run calls, and the messages of the errors that become texts.
pub record Setting (D A : Type 0) : Type 0 where
  pub w : ℕ
  pub lib : TrieLibrary D
  pub warp : WarpSync A
  pub chain : Chain
  pub crates : Crates A
  pub twox_64 : Bytes → Bytes
  pub encode_u32 : ℕ → Bytes
  pub bs58_encode : Bytes → Text
  pub show_state_error : StateError → Text
  pub show_phase_error : PhaseError → Text

-- The clock, and what a connection to an url meets.
pub record World (W : Type 0) : Type 0 where
  pub unix_now_ms : W → ℕ × W
  pub dial : Text → W → Socket × W
  pub browser : Browser W

module _ {D A : Type 0} (setting : Setting D A) where
  abbrev pub paras_key : Bytes
  paras_key =
      paras_heads_key (setting.chain.twox_128) (setting.twox_64) (setting.encode_u32)
        assethub_para_id

  module _ {W : Type 0} (world : World W) where
    -- the request of `relay_phase_with_pool`
    unfoldable pub relay_env : RelaySnapshot → Env W (GrandpaState A × AssetHubHead)
    relay_env relay_snapshot = record {
      now_ms = world.unix_now_ms;
      request = λ url w. elim (snapshot_to_grandpa_state (setting.crates) relay_snapshot) [
        | err e ↦ (err (setting.show_state_error e), w)
        | ok gs ↦ (
          map_err (setting.show_phase_error) (
              (relay_phase (setting.w) (setting.lib) (setting.warp) paras_key ((world.dial url w).0)
                gs url).0),
          (world.dial url w).1,
        )
      ];
    }

    unfoldable pub relay_phase_with_pool :
        PersistedState → W → Result Text (GrandpaState A × AssetHubHead) × PersistedState × W
    relay_phase_with_pool persisted w =
        let run =
          run_with_pool_fallback (relay_env (persisted.relay)) relay_wss (persisted.relay_peers)
            w in
        (run.0, record persisted { relay_peers = run.1 }, run.2)

    unfoldable pub assethub_env : AssetHubHead → Bytes → Bytes → Option Bytes → Env W AssetHubResult
    assethub_env head contract_addr base_slot_key cached = record {
      now_ms = world.unix_now_ms;
      request = λ url w. (
        map_err (setting.show_phase_error) (
            assethub_phase (setting.w) (setting.lib) (setting.chain) ((world.dial url w).0) head
              contract_addr base_slot_key cached url),
        (world.dial url w).1,
      );
    }

    unfoldable pub assethub_phase_with_pool :
        PersistedState
        → AssetHubHead
        → Bytes
        → Bytes
        → Option Bytes
        → W
        → Result Text AssetHubResult × PersistedState × W
    assethub_phase_with_pool persisted head contract_addr base_slot_key cached w =
        let run =
          run_with_pool_fallback (assethub_env head contract_addr base_slot_key cached) assethub_wss
            (persisted.assethub_peers) w in
        (run.0, record persisted { assethub_peers = run.1 }, run.2)
