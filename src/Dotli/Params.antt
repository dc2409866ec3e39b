-- ===== src/Dotli/Params.antt =====
-- example/dotli/src/lib.rs: the parameters of the page's address, `parse_url_params` and
-- `read_subdomain_label`. What the browser gives for the search and for the host are arguments.
use microdot.Base.{
  ℕ, ◌+◌, ◌-◌, ◌*◌, ◌^◌, ◌≡◌, ◌≢◌, ap, ◌∙◌, Bool, false, not, ◌&&◌, ◌||◌, Option, none, some, List,
  [], ◌∷◌, ◌==◌, leb, ltb, if◌then◌else◌, Result, ok, err, Bool-cases, Option-cases, inl, inr,
}
use microdot.Text.{Text, text, text_eq, trim_start_matches, split}
use microdot.Dotli.Session.Reads.{ok_inj}
use mathlib.Core.List.{reverse}

-- `splitn(2, c)`: what stands before the first separator, and what follows it, if there is one.
unfoldable pub splitn : ℕ → Text → Text × Option Text
splitn c [] = ([], none)
splitn c (x ∷ s) = let (key, val) = splitn c s in if x == c then ([], some s) else (x ∷ key, val)

abbrev pub or_empty : Option Text → Text
or_empty none = []
or_empty (some s) = s

-- The digits of a u64 behind `acc`, and `parse::<u64>()`.
abbrev pub u64_digits : ℕ → Text → Option ℕ
u64_digits acc [] = some acc
u64_digits acc (c ∷ s) =
    let acc' = acc * 10 + (c - b'0') in
    let rest = u64_digits acc' s in
    if leb b'0' c && (leb c b'9' && ltb acc' (2 ^ 64)) then rest else none

abbrev pub u64_unsigned : Text → Option ℕ
u64_unsigned [] = none
u64_unsigned (c ∷ s) = u64_digits 0 (c ∷ s)

unfoldable pub parse_u64 : Text → Option ℕ
parse_u64 [] = none
parse_u64 (c ∷ s) = if c == b'+' then u64_unsigned s else u64_unsigned (c ∷ s)

-- One `kv` of the query.
unfoldable pub read_param : ℕ → Text → ℕ
read_param max_head_age_secs [] = max_head_age_secs
read_param max_head_age_secs (c ∷ kv) =
    let parts = splitn b'=' (c ∷ kv) in
    if text_eq (parts.0) (text "fresh")
    then 0
    else if text_eq (parts.0) (text "max-head-age")
    then elim (parse_u64 (or_empty (parts.1))) [ none ↦ max_head_age_secs | some n ↦ n ]
    else max_head_age_secs

abbrev pub read_params : ℕ → List Text → ℕ
read_params max_head_age_secs [] = max_head_age_secs
read_params max_head_age_secs (kv ∷ kvs) = read_params (read_param max_head_age_secs kv) kvs

-- The `max_head_age_secs` of the parameters.
unfoldable pub parse_url_params : Option Text → ℕ
parse_url_params search = read_params 30 (split b'&' (trim_start_matches b'?' (or_empty search)))

-- `trim` of a text in ASCII, as the browser encodes a query
abbrev pub is_whitespace : ℕ → Bool
is_whitespace c = c == 32 || (leb 9 c && leb c 13)

abbrev pub trim_start : Text → Text
trim_start [] = []
trim_start (c ∷ s) = let rest = trim_start s in if is_whitespace c then rest else c ∷ s

abbrev pub trim : Text → Text
trim s = reverse (trim_start (reverse (trim_start s)))

abbrev pub or_later : Text → Option Text → Option Text
or_later [] later = later
or_later (c ∷ s) later = some (c ∷ s)

-- The loop over the query for a `domain` that is not empty.
unfoldable pub domain_override : List Text → Option Text
domain_override [] = none
domain_override (kv ∷ kvs) =
    let parts = splitn b'=' kv in
    let val = trim (or_empty (parts.1)) in
    let later = domain_override kvs in
    if text_eq (parts.0) (text "domain") then or_later val later else later

abbrev pub has_dot : Text → Bool
has_dot [] = false
has_dot (c ∷ s) = c == b'.' || has_dot s

pub data LabelError : Type 0 where
  unreadable_hostname : LabelError
  empty_hostname : LabelError

abbrev pub first_piece : List Text → Text
first_piece [] = []
first_piece (s ∷ pieces) = s

abbrev pub nonempty : Text → Result LabelError Text
nonempty [] = err empty_hostname
nonempty (c ∷ s) = ok (c ∷ s)

abbrev pub label_of_host : Option Text → Result LabelError Text
label_of_host none = err unreadable_hostname
label_of_host (some host) =
    if not (has_dot host)
    then ok (text "host-playground")
    else nonempty (first_piece (split b'.' host))

unfoldable pub read_subdomain_label : Option Text → Option Text → Result LabelError Text
read_subdomain_label search hostname =
    elim (domain_override (split b'&' (trim_start_matches b'?' (or_empty search)))) [
      | some label ↦ ok label
      | none ↦ label_of_host hostname
    ]

or_later_lem :
    (val : Text) (later : Option Text) (label : Text)
    → (later ≡ some label → label ≢ [])
    → or_later val later ≡ some label
    → label ≢ []
or_later_lem [] later label h e = h e
or_later_lem (c ∷ s) later label h e = λ q. cc

domain_override_lem :
    (kvs : List Text) (label : Text) → domain_override kvs ≡ some label → label ≢ []
unfolding domain_override
domain_override_lem [] label = λ e. cc
domain_override_lem (kv ∷ kvs) label =
    elim (Bool-cases (text_eq ((splitn b'=' kv).0) (text "domain"))) [
      | inl q ↦
          rw (q, domain_override)
            (or_later_lem (trim (or_empty ((splitn b'=' kv).1))) (domain_override kvs) label
              (domain_override_lem kvs label))
      | inr q ↦ rw (q, domain_override) (domain_override_lem kvs label)
    ]

nonempty_lem : (s label : Text) → nonempty s ≡ ok label → label ≢ []
nonempty_lem [] label e = cc
nonempty_lem (c ∷ s) label e = λ q. cc

label_of_host_lem :
    (hostname : Option Text) (label : Text) → label_of_host hostname ≡ ok label → label ≢ []
label_of_host_lem none label = λ e. cc
label_of_host_lem (some host) label = elim (Bool-cases (has_dot host)) [
  | inl q ↦ rw (q) (nonempty_lem (first_piece (split b'.' host)) label)
  | inr q ↦ rw (q) (λ e p. cc)
]

-- The label that is resolved is never empty, whatever the query and the host are.
read_subdomain_label_lem :
    (search hostname : Option Text) (label : Text)
    → read_subdomain_label search hostname ≡ ok label
    → label ≢ []
unfolding read_subdomain_label
read_subdomain_label_lem search hostname label =
    elim (Option-cases (domain_override (split b'&' (trim_start_matches b'?' (or_empty search))))) [
      | inl q ↦ rw (q, read_subdomain_label) (label_of_host_lem hostname label)
      | inr (l, q) ↦
          rw (q, read_subdomain_label)
            (λ e. domain_override_lem _ label (q ∙ ap some (ok_inj l label e)))
    ]
