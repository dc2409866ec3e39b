-- ===== src/Runs/Stale.antt =====
-- A run of `run_inner` of example/dotli/src/lib.rs whose cached head is an older one.
use microdot.Base.{
  err, ◌+◌, ◌*◌, ◌%◌, take, ◌⊎◌, Bool-cases, ℕ, ◌≡◌, ◌≢◌, refl, sym, ap, ◌∙◌, subst, none, some,
  inl, inr, List, [], ◌∷◌, ◌++◌, Bytes, Option, Result, ok, map_err, length, ◌==◌, false, arith,
}
use microdot.Text.{Text, text}
use microdot.BTreeMap.{text_order, get}
use microdot.Kad.Request.{value}
use microdot.Dotli.Persistence.{
  AssetHubHeadCache, PersistedState, saved_local_storage, GrandpaState, load_or_bundled,
  read_storage, current, snapshot_to_grandpa_state, decode_0x, decode_0x_array,
}
use microdot.State.Soundness.{Storage, some_inj}
use microdot.Dotli.Words.{paras_heads_key, last_byte}
use microdot.Dotli.Session.{AssetHubHead, response}
use microdot.Dotli.Session.Reads.{ok_inj}
use microdot.Dotli.Relay.Answers.{last, relay_phase_answers}
use microdot.Dotli.Polkadot.{dotns_content_resolver, relay_wss, assethub_wss}
use microdot.Dotli.Pooled.{Setting, paras_key, relay_env, assethub_env}
use microdot.Dotli.Run.{
  Finished, run_inner, cached_trie_id, cached_head_to_struct, base_slot_key_of,
}
use microdot.Dotli.Run.Returns.{IsOffered, IsTried, AssetHubAnswers, IsReadable}
use microdot.PoolFallback.Effects.{Gives}
use microdot.Dotli.Run.Provenance.{child_of, IsCached, IsFresh, IsValueAt}
use microdot.Dotli.Run.Resolution.{IsResultOf}
use microdot.Dotli.Run.Total.{IsContenthash, HoldsFormed, NeverPanics, run_inner_resolves}
use microdot.Dotli.Contenthash.{decode_contenthash_cid, base32_lower_no_pad, base32_digits}
use microdot.State.{child_storage_default_prefix}
use microdot.Dotli.AssetHub.{assethub_phase}
use microdot.Dotli.Session.{panicked}
use microdot.Dotli.Run.Provenance.{child_committed}
use microdot.Dotli.AssetHub.Steady.{assethub_phase_steady}
use microdot.Dotli.AssetHub.Forms.{word, last_byte_end, IsShort}
use microdot.Dotli.AssetHub.Value.{IsLong}
use microdot.Runs.Toys.{Commits, library-IsSound, held, zeros, slot, library, proof, top_value}
use microdot.Runs.Phases.{warp, socket, head, assethub_answered, slot_is_head}
use microdot.Runs.Resolutions.{stored, setting, world, info_key}

abbrev older : AssetHubHeadCache
older = record {
  number = 1;
  hash = text "0x" ++ zeros;
  state_root = text "0x" ++ slot;
  saved_at_unix_ms = 0;
}

-- with a light-client state that can be read, and an older head
abbrev stale : PersistedState
stale = record stored {
  relay = record {
    finalized_number = 3;
    finalized_hash = text "0x" ++ zeros;
    finalized_state_root = text "0x" ++ zeros;
    set_id = 2;
    authorities_scale = text "0x";
  };
  assethub_head = some older;
}

abbrev stale_setting : Setting (Unit {0}) Bytes
stale_setting = record setting { crates = record (setting.crates) { from_json = λ t. some stale } }

loaded :
    load_or_bundled (stale_setting.crates) (world.browser) (some [])
    ≡ ok (stale, saved_local_storage)
unfolding load_or_bundled read_storage current
loaded = refl

readable : IsReadable stale_setting world stale
unfolding cached_trie_id cached_head_to_struct get
readable = (
  (none, refl),
  λ c e.
      subst (λ (c : AssetHubHeadCache). Gives (cached_head_to_struct stale_setting c))
        (some_inj older c e) (_, refl),
)

short_key : (length (paras_key stale_setting) == 24) ≡ false
unfolding paras_heads_key
short_key = refl

abbrev started : GrandpaState Bytes
started = record {
  authorities = [];
  set_id = 2;
  finalized_number = 3;
  finalized_hash = zeros;
  finalized_state_root = zeros;
}

abbrev synced : GrandpaState Bytes
synced = record started { finalized_number = 9 }

restored : snapshot_to_grandpa_state (stale_setting.crates) (stale.relay) ≡ ok started
unfolding snapshot_to_grandpa_state decode_0x decode_0x_array
restored = refl

relay_asked :
    (url : Text) (w : Option Text)
    → ((relay_env stale_setting world (stale.relay)).request url w).0 ≡ ok (synced, head)
unfolding relay_env
relay_asked url w =
    rw (restored, relay_env)
      (ap
        (λ (x : Result _ (GrandpaState Bytes × AssetHubHead) × List (ℕ × Bytes)).
          map_err (stale_setting.show_phase_error) (x.0))
        (relay_phase_answers 32 library warp (paras_key stale_setting) socket started synced url
          ([] ∷ []) proof slot head (ok (response 3 (value proof)) ∷ []) refl refl refl
          (λ id bytes. refl) (omega arith) refl (last started synced [] refl)
          (top_value zeros (paras_key stale_setting) short_key) slot_is_head))

offered_head :
    (other : AssetHubHead) → IsOffered stale_setting world (stale.relay) other → head ≡ other
offered_head other (url, w, gs, e) =
    ap (λ (x : GrandpaState Bytes × AssetHubHead). x.1)
      (ok_inj (synced, head) (gs, other) (sym (relay_asked url w) ∙ e))

untried : (cached : Option Bytes) → IsTried stale_setting world stale cached → none ≡ cached
unfolding cached_trie_id get
untried cached (inl e) = sym e
untried cached (inr e) = ok_inj none cached e

assethub_asked :
    (key : Bytes) (w : Option Text)
    → Gives (
        ((assethub_env stale_setting world head dotns_content_resolver key none).request
          assethub_wss w).0)
unfolding assethub_env
assethub_asked key w = (
  _,
  ap (map_err (stale_setting.show_phase_error))
      (assethub_answered dotns_content_resolver key assethub_wss info_key),
)

assethub_answers : (key : Bytes) → AssetHubAnswers stale_setting world stale key
assethub_answers key other cached w offered tried =
    subst
      (λ (h : AssetHubHead). Gives (
        ((assethub_env stale_setting world h dotns_content_resolver key cached).request assethub_wss
          w).0))
      (offered_head other offered)
      (subst
        (λ (t : Option Bytes). Gives (
          ((assethub_env stale_setting world head dotns_content_resolver key t).request assethub_wss
            w).0))
        (untried cached tried) (assethub_asked key w))

-- Every child storage holds the slot at the one key that is hashed to.
held_slot :
    (root trie_id base_slot : Bytes)
    → child_of held root trie_id (1 ∷ []) ≡ some base_slot
    → slot ≡ base_slot
held_slot root trie_id base_slot =
    elim (Bool-cases (length (child_storage_default_prefix trie_id) == 24)) [
      | inl q ↦ rw (q, child_of) (λ e. some_inj slot base_slot e)
      | inr q ↦ rw (q, child_of) (λ e. some_inj slot base_slot e)
    ]

abbrev short_form : Bytes
short_form = 0xe3 ∷ 1 ∷ 1 ∷ 0x71 ∷ []

not_long : (total : ℕ) → word slot ≢ 2 * total + 1
not_long total e = absurd (omega (arith, ap (λ n. n % 2) e))

slot_value :
    (child : Storage) (key found : Bytes)
    → IsShort slot found ⊎ IsLong (λ bytes. zeros) (λ bytes. 1 ∷ []) child 32 key slot found
    → short_form ≡ found
slot_value child key found (inl h) =
    let four : h.len ≡ 4 =
      omega (arith, ap last_byte (h.marked) ∙ last_byte_end (h.front) (2 * h.len)) in
    ap (λ n. take n slot) (sym four) ∙ sym (h.content)
slot_value child key found (inr h) = absurd (not_long (h.total_len) (h.encoded))

formed :
    (key : Bytes)
    → HoldsFormed stale_setting Commits library-IsSound held (λ root key. refl) world key
formed key root trie_id base_slot e = inl (
  short_form,
  subst (λ s. IsShort s short_form) (held_slot root trie_id base_slot e)
      (record { front = take 31 slot; len = 4; marked = refl; fits = omega arith; content = refl }),
)

decodes : Gives (decode_contenthash_cid (λ bytes. bytes) short_form)
unfolding decode_contenthash_cid base32_lower_no_pad base32_digits
decodes = (_, refl)

values :
    (key : Bytes)
    → IsContenthash stale_setting Commits library-IsSound held (λ root key. refl) world stale key
values key head found (trie_id, t, (base_slot, e, l, v)) =
    let child = child_of held (head.state_root) trie_id in
    let same = sym (held_slot (head.state_root) trie_id base_slot e) in
    subst (λ f. Gives (decode_contenthash_cid (λ bytes. bytes) f))
      (slot_value child key found (
        subst
          (λ s. IsShort s found ⊎ IsLong (λ bytes. zeros) (λ bytes. 1 ∷ []) child 32 key s found)
          same v))
      decodes

run_inner_resolves_example :
    (fin : Finished) × NeverPanics stale_setting Commits library-IsSound held
      (λ root key. refl)
      world
      (base_slot_key_of stale_setting (text "a.dot"))
    × ((run_inner stale_setting world (text "a") 30 (some [])).0 ≡ ok fin)
    × (head : AssetHubHead) × (found : Bytes) × (IsCached stale_setting Commits library-IsSound held
          (λ root key. refl)
          stale
          head
        ⊎ IsFresh stale_setting Commits library-IsSound held (λ root key. refl) stale head)
    × IsValueAt stale_setting Commits library-IsSound held
        (λ root key. refl)
        stale
        (base_slot_key_of stale_setting (text "a.dot"))
        head
        found
    × IsResultOf stale_setting Commits library-IsSound held
        (λ root key. refl)
        world
        (text "a.dot")
        head
        found
        (fin.result)
run_inner_resolves_example =
    run_inner_resolves stale_setting Commits library-IsSound held (λ root key. refl) world
      (text "a") 30 (some []) (stale, saved_local_storage) loaded readable
      (λ w. ((synced, head), relay_asked relay_wss w))
      (assethub_answers (base_slot_key_of stale_setting (text "a.dot")))
      (formed (base_slot_key_of stale_setting (text "a.dot")))
      (values (base_slot_key_of stale_setting (text "a.dot")))

assethub_phase_steady_example :
    assethub_phase
      (stale_setting.w)
      (stale_setting.lib)
      (stale_setting.chain)
      socket
      head
      dotns_content_resolver
      slot
      none
      assethub_wss
    ≢ err panicked
assethub_phase_steady_example =
    assethub_phase_steady (stale_setting.w) (stale_setting.lib) (stale_setting.chain) socket Commits
      library-IsSound head (held (head.state_root)) (λ key. refl) (child_of held (head.state_root))
      (child_committed stale_setting Commits library-IsSound held (λ root key. refl)
        (head.state_root))
      dotns_content_resolver slot none assethub_wss (formed slot (head.state_root))
