-- ===== src/Dotli/Entry.antt =====
-- example/dotli/src/lib.rs: the two entries, `start_demo` for the page and `resolve` for a host, with
-- the page that they write. The lines that the run between logs, the
-- messages of the errors and the printed elapsed time are arguments.
pub mod Safe
use microdot.Base.{
  ℕ, ◌+◌, Bool, true, false, Option, none, some, List, [], ◌∷◌, ◌++◌, Bytes, ◌==◌, if◌then◌else◌,
  Result, ok, err,
}
use microdot.Text.{Text, text, show}
use microdot.Dotli.Contenthash.{html_escape}
use microdot.Dotli.Params.{LabelError, parse_url_params, read_subdomain_label}
use microdot.Dotli.Pooled.{Setting, World}
use microdot.Dotli.Run.{RunError, RunResult, Finished, run_inner}
use mathlib.Core.Option as Option

-- What `#result` shows, and whether its class is `ok`.
pub record Shown : Type 0 where
  pub html : Text
  pub is_ok : Bool

-- The elements of the document, if they are there, whether a status callback is set, and what
-- callbacks were told.
pub record Page : Type 0 where
  pub title_element : Option Text
  pub log_element : Option Text
  pub result_element : Option Shown
  pub status_cb : Bool
  pub told : List Text

-- A line is delivered to the callback, or else written into the document.
unfoldable pub log : Text → Page → Page
log msg page =
    if page.status_cb then record page { told = page.told ++ (msg ∷ []) } else record page {
      log_element = Option.map (λ prev. prev ++ (msg ++ (10 ∷ []))) (page.log_element);
    }

unfoldable pub log_all : List Text → Page → Page
log_all [] page = page
log_all (msg ∷ msgs) page = log_all msgs (log msg page)

unfoldable pub show_result : Text → Bool → Page → Page
show_result html is_ok page = record page {
  result_element = Option.map (λ _. record { html = html; is_ok = is_ok }) (page.result_element);
}

abbrev pub set_title : Text → Page → Page
set_title title page = record page { title_element = Option.map (λ _. title) (page.title_element) }

-- The arrow has three bytes.
abbrev arrow : Text
arrow = 0xe2 ∷ 0x86 ∷ 0x92 ∷ []

abbrev pub concat : List Text → Text
concat [] = []
concat (s ∷ pieces) = s ++ concat pieces

-- The pieces of the `format!`, line by line.
abbrev pub result_pieces : (Bytes → Text) → Text → RunResult → List Text
result_pieces hex_encode elapsed r =
    text "<div>"
    ∷ html_escape (r.full_name)
    ∷ (text "</div>" ++ (10 ∷ []))
    ∷ text "<div class=\"cid\">"
    ∷ arrow
    ∷ text " "
    ∷ html_escape (r.cid)
    ∷ (text "</div>" ++ (10 ∷ []))
    ∷ text "<div class=\"muted\">verified-at-block: "
    ∷ show (r.final_head_number)
    ∷ text " (Paseo AssetHub)"
    ∷ html_escape (r.cache_note)
    ∷ (text "<br/>" ++ (10 ∷ []))
    ∷ text "total: "
    ∷ elapsed
    ∷ (text "s<br/>" ++ (10 ∷ []))
    ∷ text "contenthash: 0x"
    ∷ hex_encode (r.contenthash_bytes)
    ∷ text "</div>"
    ∷ []

unfoldable pub result_html : (Bytes → Text) → Text → RunResult → Text
result_html hex_encode elapsed r = concat (result_pieces hex_encode elapsed r)

abbrev pub error_html : Text → Text
error_html e = text "<strong>error</strong><br/>" ++ e

unfoldable pub fatal : Text → Page → Page
fatal e page = show_result (error_html e) false (log (text "[fatal] " ++ e) page)

-- What a host is given.
pub record Answer : Type 0 where
  pub cid : Text
  pub verified_at_block : ℕ

-- The run with the parameters of the page's address.
abbrev pub run_at :
    {D A : Type 0}
    → Setting D A
    → {W : Type 0} → World W
    → Option Text
    → Text
    → W
    → Result RunError Finished × W
run_at setting world search label w = run_inner setting world label (parse_url_params search) w

module _ {D A : Type 0} (setting : Setting D A) (show_label_error : LabelError → Text)
    (show_run_error : RunError → Text) {W : Type 0} (world : World W) where
  unfoldable pub start_demo : Option Text → Option Text → List Text → Text → W × Page → W × Page
  start_demo search hostname lines elapsed (w, page) = elim (read_subdomain_label search hostname) [
    | err e ↦ (w, fatal (show_label_error e) page)
    | ok label ↦
        let titled = set_title (text "resolving: " ++ (label ++ text ".dot")) page in
        let run = run_at setting world search label w in
        let logged = log_all lines titled in
        elim (run.0) [
          | ok fin ↦ (
            run.1,
            show_result (result_html (setting.crates.hex_encode) elapsed (fin.result)) true logged,
          )
          | err e ↦ (run.1, fatal (show_run_error e) logged)
        ]
  ]

  -- `has_cb` is whether `on_status` is a function.
  unfoldable pub resolve :
      Option Text → List Text → Text → Bool → W × Page → Result Text Answer × W × Page
  resolve search lines label has_cb (w, page) =
      let run = run_at setting world search label w in
      let logged = log_all lines (record page { status_cb = has_cb }) in
      let after = record logged { status_cb = false } in
      elim (run.0) [
        | ok fin ↦ (
          ok (record {
            cid = (fin.result).cid;
            verified_at_block = (fin.result).final_head_number;
          }),
          run.1,
          after,
        )
        | err e ↦ (err (show_run_error e), run.1, after)
      ]
