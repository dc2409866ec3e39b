-- ===== src/Runs/Saves.antt =====
-- Runs of example/dotli/src/state.rs, with a storage that holds one text and crates that leave
-- bytes as they are.
use microdot.Base.{◌≡◌, refl, sym, Option, none, some, [], ◌∷◌, Bytes, ok}
use microdot.Text.{Text}
use microdot.PeerPool.{new}
use microdot.Dotli.Persistence.{
  PersistedState, saved_local_storage, GrandpaState, Crates, Browser, available, load_or_bundled,
  save, read_storage, write_storage, current,
}
use microdot.Dotli.Persistence.Laws.{load_or_bundled-save}

abbrev zeros : Bytes
zeros =
    0 ∷ 0 ∷ 0 ∷ 0 ∷ 0 ∷ 0 ∷ 0 ∷ 0 ∷ 0 ∷ 0 ∷ 0 ∷ 0 ∷ 0 ∷ 0 ∷ 0 ∷ 0 ∷ 0 ∷ 0 ∷ 0 ∷ 0 ∷ 0 ∷ 0 ∷ 0 ∷ 0
    ∷ 0 ∷ 0 ∷ 0 ∷ 0 ∷ 0 ∷ 0 ∷ 0 ∷ 0 ∷ []

abbrev state : PersistedState
state = record {
  version = 1;
  saved_at_unix_ms = 0;
  relay = record {
    finalized_number = 3;
    finalized_hash = [];
    finalized_state_root = [];
    set_id = 2;
    authorities_scale = [];
  };
  assethub_head = none;
  contracts = [];
  resolved = [];
  relay_peers = new;
  assethub_peers = new;
}

abbrev stamped : PersistedState
stamped = record state { saved_at_unix_ms = 77 }

-- every text stands for `stamped`
abbrev crates : Crates Bytes
crates = record {
  hex_encode = λ bytes. bytes;
  hex_decode = λ t. some t;
  encode_authorities = λ a. a;
  decode_authorities = λ bytes. some bytes;
  decode_header = λ bytes. none;
  decode_authority_set = λ bytes. none;
  to_json = λ s. some [];
  from_json = λ t. some stamped;
  bundled_lightsync = none;
}

abbrev grandpa : GrandpaState Bytes
grandpa = record {
  authorities = 1 ∷ [];
  set_id = 5;
  finalized_number = 9;
  finalized_hash = zeros;
  finalized_state_root = zeros;
}

abbrev browser : Browser (Option Text)
browser = record {
  access = available;
  get_item = λ key w. ok w;
  set_item = λ key value w. ok (some value);
}

saved : (save crates browser 77 state none).1 ≡ ok (some [])
unfolding save write_storage
saved = refl

loaded : load_or_bundled crates browser (some []) ≡ ok (stamped, saved_local_storage)
unfolding load_or_bundled read_storage current
loaded = refl

load_or_bundled-save_example :
    load_or_bundled crates browser (some [])
    ≡ ok ((save crates browser 77 state none).0, saved_local_storage)
load_or_bundled-save_example =
    load_or_bundled-save crates browser 77 state none (some []) (λ key value w w' e. sym e)
      (λ t e. refl) refl saved
