-- ===== src/Text/Decimal.antt =====
-- `u16::from_str` reads what `{}` prints.
use microdot.Base.{
  ℕ, ◌+◌, ◌*◌, ◌/◌, ◌%◌, ◌≤◌, ◌<◌, ◌≡◌, ap, ◌∙◌, some, [], ◌∷◌, ◌++◌, All, All-append, arith,
}
use microdot.Base.WellFounded.{lt_wf}
use microdot.Text.{Text, tenth_shrinks, show_loop, show, read_digits, parse_u16}
use mathlib.Core.Logic.{dif_pos, dif_neg}
use mathlib.Core.List.{append-nil, append_assoc}
use mathlib.Core.WellFounded.{Acc}
use native.Mathlib.Bridge.{le_prop}
use native.Mathlib.Decide.{dec_le}

read_digit :
    (acc d : ℕ) (rest : Text)
    → d < 10
    → acc * 10 + d ≤ 65535
    → read_digits acc ((d + b'0') ∷ rest) ≡ read_digits (acc * 10 + d) rest
unfolding read_digits
read_digit acc d rest hd fits = ground arith

-- Reading what `show` wrote from zero on; `rest` are the digits that follow.
read-show_loop :
    (n : ℕ) (wf : Acc ◌<◌ n) (rest : Text)
    → n ≤ 65535
    → read_digits 0 (show_loop n wf ++ rest) ≡ read_digits n rest
unfolding show_loop
read-show_loop n (Acc.intro _ smaller) rest h = elim (dec_le 10 n) [
  | yes more ↦
      rw (dif_pos (dec_le 10 n) le_prop more _ _, append_assoc)
        (read-show_loop (n / 10) (smaller _ (tenth_shrinks n more)) ((n % 10 + b'0') ∷ rest)
            (omega arith)
          ∙ read_digit (n / 10) (n % 10) rest (omega arith) (omega arith)
          ∙ ap (λ t. read_digits t rest)
              (let whole : n / 10 * 10 + n % 10 ≡ n = omega arith in whole))
  | no done ↦
      rw (dif_neg (dec_le 10 n) done _ _) (
        read_digit 0 n rest (omega arith) (omega arith)
        ∙ ap (λ t. read_digits t rest) (omega arith))
]

show_loop-All_digits :
    (n : ℕ) (wf : Acc ◌<◌ n) → All (λ c. (b'0' ≤ c) × (c ≤ b'9')) (show_loop n wf)
unfolding show_loop
show_loop-All_digits n (Acc.intro _ smaller) = elim (dec_le 10 n) [
  | yes more ↦ rw (dif_pos (dec_le 10 n) le_prop more _ _) (
      All-append _ _ _ (show_loop-All_digits (n / 10) (smaller _ (tenth_shrinks n more)))
        (omega arith))
  | no done ↦ rw (dif_neg (dec_le 10 n) done _ _) (omega arith)
]

-- What `show` writes begins with a digit.
show_loop_head :
    (n : ℕ) (wf : Acc ◌<◌ n)
    → (c : ℕ) × (cs : Text) × (show_loop n wf ≡ c ∷ cs) × (b'0' ≤ c) × (c ≤ b'9')
unfolding show_loop
show_loop_head n (Acc.intro _ smaller) = elim (dec_le 10 n) [
  | yes more ↦
      let (c, cs, e, lo, hi) = show_loop_head (n / 10) (smaller _ (tenth_shrinks n more)) in
      (c, cs ++ ((n % 10 + b'0') ∷ []), rw (dif_pos (dec_le 10 n) le_prop more _ _, e), lo, hi)
  | no done ↦ (n + b'0', [], rw (dif_neg (dec_le 10 n) done _ _), omega arith, omega arith)
]

parse_digits :
    (c : ℕ) (cs : Text) (n : ℕ)
    → b'0' ≤ c
    → read_digits 0 (c ∷ cs) ≡ some n
    → parse_u16 (c ∷ cs) ≡ some n
unfolding parse_u16
parse_digits c cs n lo e = ground arith

parse-show_loop : (n : ℕ) (wf : Acc ◌<◌ n) → n ≤ 65535 → parse_u16 (show_loop n wf) ≡ some n
unfolding read_digits
parse-show_loop n wf h =
    let (c, cs, e, lo, hi) = show_loop_head n wf in
    let whole : read_digits 0 (show_loop n wf) ≡ some n =
      rw (append-nil (show_loop n wf)) at (read-show_loop n wf [] h) in
    rw e (parse_digits c cs n lo (rw e at whole))

-- `u16::from_str` gives back every number that `{}` printed.
pub parse_u16-show : (n : ℕ) → n ≤ 65535 → parse_u16 (show n) ≡ some n
unfolding show
parse_u16-show n h = parse-show_loop n (lt_wf.apply n) h

-- What `{}` prints holds no byte but digits.
pub show-All_digits : (n : ℕ) → All (λ c. (b'0' ≤ c) × (c ≤ b'9')) (show n)
unfolding show
show-All_digits n = show_loop-All_digits n (lt_wf.apply n)
