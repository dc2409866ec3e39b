-- ===== src/Runs/Keys.antt =====
-- Runs of the helpers of example/dotli/src/lib.rs.
use microdot.Base.{ℕ, ◌+◌, ◌*◌, ◌≡◌, [], ◌∷◌}
use microdot.Text.{text}
use microdot.Dotli.Persistence.{AssetHubHeadCache}
use microdot.Dotli.Words.{u256_add, value, modulus, u256_add-value}
use mathlib.Core.List.{reverse}

-- 0x01ff + 0x0301
u256_add-value_example :
    (q : ℕ) × (value (reverse (u256_add (1 ∷ 255 ∷ []) 769)) + q * modulus (reverse (1 ∷ 255 ∷ []))
      ≡ value (reverse (1 ∷ 255 ∷ [])) + 769)
u256_add-value_example = u256_add-value (1 ∷ 255 ∷ []) 769

abbrev head : AssetHubHeadCache
head = record { number = 1; hash = text "a"; state_root = text "b"; saved_at_unix_ms = 5000 }
