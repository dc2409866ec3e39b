-- ===== src/Dotli/Entry/Safe.antt =====
-- What the two entries of example/dotli/src/lib.rs leave on the page.
use microdot.Base.{
  ℕ, ◌+◌, ◌≡◌, refl, sym, ◌∙◌, ◌⊎◌, inl, inr, Bool, true, false, Option, none, some, List, [], ◌∷◌,
  ◌++◌, Bytes, ◌==◌, if◌then◌else◌, Result, ok, err, Result-cases, Bool-cases,
}
use microdot.Text.{Text, show}
use microdot.Dotli.Contenthash.{html_escape}
use microdot.Dotli.Contenthash.Texts.{Lacks}
use microdot.Dotli.Params.{LabelError, read_subdomain_label}
use microdot.Dotli.Pooled.{Setting, World}
use microdot.Dotli.Run.{RunError, RunResult, Finished}
use microdot.Dotli.Entry.{Page, Answer, log, log_all, error_html, run_at, resolve}
use mathlib.Core.Option as Option
use mathlib.Core.List.{append-nil, append_assoc}

abbrev pub count : ℕ → Text → ℕ
count c [] = 0
count c (d ∷ s) = (if d == c then 1 else 0) + count c s

abbrev count_all : ℕ → List Text → ℕ
count_all c [] = 0
count_all c (s ∷ pieces) = count c s + count_all c pieces

-- Neither opens nor closes a tag.
abbrev pub IsInert : Text → Type 0
IsInert s = Lacks b'<' s × Lacks b'>' s

-- The texts stand in this one, in their order and apart from each other.
abbrev pub InOrder : List Text → Text → Type 0
InOrder [] t = Unit {0}
InOrder (p ∷ ps) t = (a : Text) × (b : Text) × (t ≡ a ++ (p ++ b)) × InOrder ps b

abbrev zip : List Bool → List Text → List (Bool × Text)
zip [] ys = []
zip (x ∷ xs) [] = []
zip (x ∷ xs) (y ∷ ys) = (x, y) ∷ zip xs ys

-- Some of the pieces, each with whether it is one that is looked for.
abbrev chosen : List (Bool × Text) → List Text
chosen [] = []
chosen ((b, s) ∷ pieces) = let rest = chosen pieces in if b then s ∷ rest else rest

abbrev texts : List (Bool × Text) → List Text
texts [] = []
texts ((b, s) ∷ pieces) = s ∷ texts pieces

-- What of the result is shown, in this order: the name, the CID, the block and the note, the time
-- and the contenthash.
abbrev pub parts_of : (Bytes → Text) → Text → RunResult → List Text
parts_of hex_encode elapsed r =
    html_escape (r.full_name)
    ∷ html_escape (r.cid)
    ∷ show (r.final_head_number)
    ∷ html_escape (r.cache_note)
    ∷ elapsed
    ∷ hex_encode (r.contenthash_bytes)
    ∷ []

log_all_keeps :
    (lines : List Text) (page : Page)
    → ((log_all lines page).result_element ≡ page.result_element)
      × ((log_all lines page).title_element ≡ page.title_element)
      × ((log_all lines page).status_cb ≡ page.status_cb)
unfolding log_all log
log_all_keeps [] page = (refl, refl, refl)
log_all_keeps (msg ∷ lines) page = elim (Bool-cases (page.status_cb)) [
  | inl q ↦
      let (r, t, c) = log_all_keeps lines (log msg page) in
      (r ∙ rw q refl, t ∙ rw q refl, c ∙ rw q refl)
  | inr q ↦
      let (r, t, c) = log_all_keeps lines (log msg page) in
      (r ∙ rw q refl, t ∙ rw q refl, c ∙ rw q refl)
]

map_same : {X : Type 0} (o : Option X) → o ≡ Option.map (λ x. x) o
map_same none = refl
map_same (some x) = refl

map-map :
    {X Y Z : Type 0} (f : X → Y) (g : Y → Z) (o : Option X)
    → Option.map g (Option.map f o) ≡ Option.map (λ x. g (f x)) o
map-map f g none = refl
map-map f g (some x) = refl

-- The lines are told to the callback in their order, or appended to the log.
abbrev pub append_lines : List Text → Text → Text
append_lines [] prev = prev
append_lines (msg ∷ lines) prev = append_lines lines (prev ++ (msg ++ (10 ∷ [])))

log_all_told :
    (lines : List Text) (page : Page)
    → page.status_cb ≡ true
    → ((log_all lines page).told ≡ page.told ++ lines)
      × ((log_all lines page).log_element ≡ page.log_element)
unfolding log_all log
log_all_told [] page h = (sym (append-nil (page.told)), refl)
log_all_told (msg ∷ lines) page h =
    let told = page.told ++ (msg ∷ []) in
    let (t, l) = log_all_told lines (record page { status_cb = true; told = told }) refl in
    rw h (t ∙ append_assoc (page.told) (msg ∷ []) lines, l)

log_all_written :
    (lines : List Text) (page : Page)
    → page.status_cb ≡ false
    → ((log_all lines page).told ≡ page.told)
      × ((log_all lines page).log_element ≡ Option.map (append_lines lines) (page.log_element))
unfolding log_all log
log_all_written [] page h = (refl, map_same (page.log_element))
log_all_written (msg ∷ lines) page h =
    let add = λ (prev : Text). prev ++ (msg ++ (10 ∷ [])) in
    let written = Option.map add (page.log_element) in
    let (t, l) =
      log_all_written lines (record page { status_cb = false; log_element = written }) refl in
    rw h (t, l ∙ map-map add (append_lines lines) (page.log_element))

module _ {D A : Type 0} (setting : Setting D A) (show_label_error : LabelError → Text)
    (show_run_error : RunError → Text) {W : Type 0} (world : World W) where
  -- What the page shows after a result: its parts, as many tags as the template has, and the
  -- class `ok`.
  abbrev pub ShowsResult : Text → RunResult → Page → Type 0
  ShowsResult elapsed r page =
      (html : Text) × InOrder (parts_of (setting.crates.hex_encode) elapsed r) html
      × (page.result_element ≡ some (record { html = html; is_ok = true }))
      × (count b'<' html ≡ 8)
      × (count b'>' html ≡ 8)

  -- After an error: its message, and the other class.
  abbrev pub ShowsError : Text → Page → Type 0
  ShowsError e page = page.result_element ≡ some (record { html = error_html e; is_ok = false })

  -- The three ways in which the demo ends.
  abbrev pub IsDemo : Option Text → Option Text → Text → W → Page → Type 0
  IsDemo search hostname elapsed w page =
      ((e : LabelError) × (read_subdomain_label search hostname ≡ err e)
        × ShowsError (show_label_error e) page)
      ⊎ ((label : Text) × (read_subdomain_label search hostname ≡ ok label)
          × (((fin : Finished) × ((run_at setting world search label w).0 ≡ ok fin)
                × ShowsResult elapsed (fin.result) page)
              ⊎ ((e : RunError) × ((run_at setting world search label w).0 ≡ err e)
                  × ShowsError (show_run_error e) page)))

  -- What a host gets: the CID and the block of the run, or the message of its error.
  abbrev pub IsAnswer : Result RunError Finished → Result Text Answer → Type 0
  IsAnswer (ok fin) answer =
      answer
      ≡ ok (record { cid = (fin.result).cid; verified_at_block = (fin.result).final_head_number })
  IsAnswer (err e) answer = answer ≡ err (show_run_error e)

  -- Where the lines of a run went: in their order to the callback, and else into the log.
  abbrev pub IsDelivered : Bool → List Text → Page → Page → Type 0
  IsDelivered true lines before after =
      (after.told ≡ before.told ++ lines) × (after.log_element ≡ before.log_element)
  IsDelivered false lines before after =
      (after.told ≡ before.told)
      × (after.log_element ≡ Option.map (append_lines lines) (before.log_element))

  resolve_page :
      (lines : List Text) (b : Bool) (page : Page)
      → IsDelivered b lines page
          (record (log_all lines (record page { status_cb = b })) { status_cb = false })
  resolve_page lines true page = log_all_told lines (record page { status_cb = true }) refl
  resolve_page lines false page = log_all_written lines (record page { status_cb = false }) refl

  -- A host gets the CID and the block of the run, or its error's message. Every line of the run
  -- goes to the callback if one is given, in order, and the log of the page is then not touched;
  -- and on both paths no callback is left set, and the result of the page stays.
  pub resolve_lem :
      (search : Option Text) (lines : List Text) (label : Text) (has_cb : Bool) (w : W)
      (page : Page)
      → (let out =
            resolve setting show_label_error show_run_error world search lines label has_cb
              (w, page) in
          IsAnswer ((run_at setting world search label w).0) (out.0)
          × ((out.1) ≡ (run_at setting world search label w).1)
          × ((out.2).status_cb ≡ false)
          × ((out.2).result_element ≡ page.result_element)
          × IsDelivered has_cb lines page (out.2))
  unfolding resolve
  resolve_lem search lines label b w page =
      let kept = (log_all_keeps lines (record page { status_cb = b })).0 in
      let delivered = resolve_page lines b page in
      elim (Result-cases ((run_at setting world search label w).0)) [
        | inl (fin, k) ↦ rw (k, resolve) (refl, refl, refl, kept, delivered)
        | inr (e, k) ↦ rw (k, resolve) (refl, refl, refl, kept, delivered)
      ]
