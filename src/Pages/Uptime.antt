-- ===== src/Pages/Uptime.antt =====
-- `formatUptime` of web/admin/src/pages/Health.tsx and of Dashboard.tsx, over whole seconds.
pub mod Total
use konsul.Prelude.{
  ℕ, zero, suc, ◌+◌, ◌*◌, ◌/◌, ◌%◌, Bool, ◌||◌, String, List, [], ◌∷◌, ◌++◌, map, ltb, ◌==◌,
  if◌then◌else◌,
}
use konsul.Prelude.Text.{◌<>◌, join}

pub data TimeUnit : Type 0 where
  days hours mins secs : TimeUnit

abbrev pub suffix : TimeUnit → String
suffix days = "d"
suffix hours = "h"
suffix mins = "m"
suffix secs = "s"

abbrev pub weight : TimeUnit → ℕ
weight days = 86400
weight hours = 3600
weight mins = 60
weight secs = 1

abbrev pub Part : Type 0
Part = ℕ × TimeUnit

abbrev digit : ℕ → String
digit zero = "0"
digit (suc zero) = "1"
digit (suc (suc zero)) = "2"
digit (suc (suc (suc zero))) = "3"
digit (suc (suc (suc (suc zero)))) = "4"
digit (suc (suc (suc (suc (suc zero))))) = "5"
digit (suc (suc (suc (suc (suc (suc zero)))))) = "6"
digit (suc (suc (suc (suc (suc (suc (suc zero))))))) = "7"
digit (suc (suc (suc (suc (suc (suc (suc (suc zero)))))))) = "8"
digit _ = "9"

-- The decimal text of a number; `n + 1` rounds are enough for its digits.
show_rounds : ℕ → ℕ → String
show_rounds zero n = ""
show_rounds (suc f) n =
    let front = show_rounds f (n / 10) in if ltb n 10 then digit n else front <> digit (n % 10)

unfoldable pub show : ℕ → String
unfolding show_rounds
show n = show_rounds (suc n) n

abbrev pub show_part : Part → String
show_part (n, u) = show n <> suffix u

-- `if (n > 0) parts.push(…)`.
unfoldable pub push_positive : ℕ → TimeUnit → List Part → List Part
push_positive n u parts = if ltb 0 n then parts ++ (n, u) ∷ [] else parts

abbrev pub is_empty : List Part → Bool
is_empty [] = Bool.true
is_empty (p ∷ ps) = Bool.false

-- `if (secs > 0 || parts.length === 0) parts.push(…)`.
unfoldable pub push_secs : ℕ → List Part → List Part
push_secs n parts = if ltb 0 n || is_empty parts then parts ++ (n, secs) ∷ [] else parts

-- The parts that Health.tsx pushes, in their order.
unfoldable pub uptime_parts : ℕ → List Part
uptime_parts seconds =
    let some_days = push_positive (seconds / 86400) days [] in
    let some_hours = push_positive (seconds % 86400 / 3600) hours some_days in
    let some_mins = push_positive (seconds % 3600 / 60) mins some_hours in
    push_secs (seconds % 60) some_mins

unfoldable pub health_uptime : ℕ → String
unfolding uptime_parts push_positive push_secs show join
health_uptime seconds = join " " (map show_part (uptime_parts seconds))

-- The parts that Dashboard.tsx shows: the two greatest.
unfoldable pub dashboard_parts : ℕ → List Part
dashboard_parts seconds =
    if ltb 0 (seconds / 86400)
    then (seconds / 86400, days) ∷ (seconds % 86400 / 3600, hours) ∷ []
    else if ltb 0 (seconds % 86400 / 3600)
    then (seconds % 86400 / 3600, hours) ∷ (seconds % 3600 / 60, mins) ∷ []
    else (seconds % 3600 / 60, mins) ∷ []

unfoldable pub dashboard_uptime : ℕ → String
unfolding dashboard_parts show join
dashboard_uptime seconds = join " " (map show_part (dashboard_parts seconds))
