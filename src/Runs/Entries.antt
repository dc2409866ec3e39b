-- ===== src/Runs/Entries.antt =====
-- Runs of the two entries of example/dotli/src/lib.rs on a page with all its elements.
use microdot.Base.{◌≡◌, true, false, none, some, [], ◌∷◌, Bytes}
use microdot.Text.{text}
use microdot.Dotli.Entry.{Page, Shown, run_at, resolve}
use microdot.Dotli.Entry.Safe.{IsAnswer, IsDelivered, resolve_lem}
use microdot.Dotli.Pooled.{Setting}
use microdot.Runs.Resolutions.{setting, world}

abbrev empty : Shown
empty = record { html = []; is_ok = false }

abbrev page : Page
page = record {
  title_element = some [];
  log_element = some [];
  result_element = some empty;
  status_cb = false;
  told = [];
}

-- every digest is printed alike
abbrev printing : Setting (Unit {0}) Bytes
printing = record setting { crates = record (setting.crates) { hex_encode = λ bytes. text "00" } }

resolve_lem_example :
    (let out =
        resolve setting
          (λ e. text "no label")
          (λ e. text "no run")
          world
          none
          (text "a.dot" ∷ [])
          (text "a")
          true
          (some [], page) in
      IsAnswer setting
        (λ e. text "no label")
        (λ e. text "no run")
        world
        ((run_at setting world none (text "a") (some [])).0)
        (out.0)
      × ((out.1) ≡ (run_at setting world none (text "a") (some [])).1)
      × ((out.2).status_cb ≡ false)
      × ((out.2).result_element ≡ some empty)
      × IsDelivered setting
          (λ e. text "no label")
          (λ e. text "no run")
          world
          true
          (text "a.dot" ∷ [])
          page
          (out.2))
resolve_lem_example =
    resolve_lem setting (λ e. text "no label") (λ e. text "no run") world none (text "a.dot" ∷ [])
      (text "a") true (some []) page
