-- ===== src/Text/Split.antt =====
-- `split` on a text that was joined, and texts without the separator.
use microdot.Base.{ℕ, ◌≡◌, ◌≢◌, refl, List, [], ◌∷◌, ◌++◌, All, arith}
use mathlib.Core.List.{append-nil}
use microdot.Text.{Text, split_first, split, trim_start_matches}

-- The separator does not stand in the text.
abbrev pub Free : ℕ → Text → Type 0
Free c t = All (λ x. x ≢ c) t

-- `/a/b/c`
abbrev pub join_slash : ℕ → List Text → Text
join_slash c [] = []
join_slash c (p ∷ ps) = c ∷ (p ++ join_slash c ps)

split_first-append :
    (c : ℕ) (p rest : Text)
    → Free c p
    → split_first c (p ++ rest) ≡ (p ++ (split_first c rest).0, (split_first c rest).1)
unfolding split_first
split_first-append c [] rest free = refl
split_first-append c (x ∷ p) rest (hx, free) = ground (arith, split_first-append c p rest free)

split_first-join :
    (c : ℕ) (ps : List Text) → All (Free c) ps → split_first c (join_slash c ps) ≡ ([], ps)
unfolding split_first
split_first-join c [] all = refl
split_first-join c (p ∷ ps) (hp, all) =
    ground
      (arith, split_first-append c p (join_slash c ps) hp, split_first-join c ps all, append-nil p)

-- Pieces without the separator come back.
pub split-join :
    (c : ℕ) (p : Text) (ps : List Text)
    → Free c p
    → All (Free c) ps
    → split c (p ++ join_slash c ps) ≡ p ∷ ps
unfolding split
split-join c p ps hp all =
    ground
      (arith, split_first-append c p (join_slash c ps) hp, split_first-join c ps all, append-nil p)

-- One separator in front is trimmed.
pub trim_one : (c x : ℕ) (t : Text) → x ≢ c → trim_start_matches c (c ∷ x ∷ t) ≡ x ∷ t
unfolding trim_start_matches
trim_one c x t h = ground arith

-- The pieces of a text like `/a/b/c`, whose first piece is not empty.
pub split-trim_start_matches-join :
    (c x : ℕ) (p : Text) (ps : List Text)
    → All (Free c) ((x ∷ p) ∷ ps)
    → split c (trim_start_matches c (join_slash c ((x ∷ p) ∷ ps))) ≡ (x ∷ p) ∷ ps
split-trim_start_matches-join c x p ps ((hx, hp), h) =
    rw (trim_one c x (p ++ join_slash c ps) hx) (split-join c (x ∷ p) ps (hx, hp) h)
