-- ===== src/Pages/Health/Bytes.antt =====
-- The units of `formatBytes` in web/admin/src/pages/Health.tsx.
use native.Mathlib.Numerals.{unary_clauses}
use konsul.Prelude.{ℕ, zero, suc, ◌*◌, ◌^◌, ◌<◌, ◌≤◌, String, ◌≡◌, arith, ltb, if◌then◌else◌}
use konsul.Prelude.Text.{◌<>◌}
use konsul.Pages.Health.{format_bytes, sizes}

-- The unit of a size by the powers of 1024; there is none from 1024 ^ 4 on.
abbrev pub unit : ℕ → String
unit bytes =
    if ltb bytes 1024
    then "B"
    else if ltb bytes (1024 ^ 2)
    then "KB"
    else if ltb bytes (1024 ^ 3)
    then "MB"
    else if ltb bytes (1024 ^ 4)
    then "GB"
    else "undefined"

power_step : (n : ℕ) → 1024 ^ suc n ≡ 1024 ^ n * 1024
power_step n = simp unary_clauses

power_grows : (n : ℕ) → 1024 ^ 4 ≤ 1024 ^ suc (suc (suc (suc n)))
power_grows zero = omega arith
power_grows (suc n) = omega (arith, power_step (suc (suc (suc (suc n)))), power_grows n)

sizes-unit : (l bytes : ℕ) → 1024 ^ l ≤ bytes → bytes < 1024 ^ suc l → sizes l ≡ unit bytes
sizes-unit zero bytes low high = ground arith
sizes-unit (suc zero) bytes low high = ground arith
sizes-unit (suc (suc zero)) bytes low high = ground arith
sizes-unit (suc (suc (suc zero))) bytes low high = ground arith
sizes-unit (suc (suc (suc (suc n)))) bytes low high = ground (arith, power_grows n)

-- A size of which the logarithm is right is shown with the unit that its place among the powers
-- of 1024 gives, which from 1024 ^ 4 on is the text `undefined`.
pub format_bytes-unit :
    (log_1024 : ℕ → ℕ) (to_fixed : ℕ → ℕ → String) (bytes : ℕ)
    → 0 < bytes
    → 1024 ^ log_1024 bytes ≤ bytes
    → bytes < 1024 ^ suc (log_1024 bytes)
    → format_bytes log_1024 to_fixed bytes
      ≡ to_fixed bytes (1024 ^ log_1024 bytes) <> " " <> unit bytes
unfolding format_bytes
format_bytes-unit log_1024 to_fixed bytes h low high =
    rw (sizes-unit (log_1024 bytes) bytes low high) (ground arith)
