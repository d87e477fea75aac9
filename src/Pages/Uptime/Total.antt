-- ===== src/Pages/Uptime/Total.antt =====
-- The parts of the two `formatUptime` of web/admin/src/pages, and the seconds.
use konsul.Prelude.{
  ℕ, ◌+◌, ◌*◌, ◌≤◌, ◌<◌, List, [], ◌∷◌, ◌++◌, ◌≡◌, arith, All, All-append, ltb, length, if_rule,
  ◌||◌,
}
use konsul.Pages.Uptime.{
  TimeUnit, days, hours, mins, secs, weight, Part, push_positive, push_secs, is_empty, uptime_parts,
  dashboard_parts,
}

abbrev pub total : List Part → ℕ
total [] = 0
total ((n, u) ∷ ps) = n * weight u + total ps

total-append : (ps qs : List Part) → total (ps ++ qs) ≡ total ps + total qs
total-append [] qs = omega arith
total-append ((n, u) ∷ ps) qs = omega (arith, total-append ps qs)

-- How far a part may go before the next greater unit takes over.
abbrev pub IsInRange : Part → Type 0
IsInRange (n, days) = Unit
IsInRange (n, hours) = n < 24
IsInRange (n, mins) = n < 60
IsInRange (n, secs) = n < 60

total-push :
    (n : ℕ) (u : TimeUnit) (ps : List Part) → total (push_positive n u ps) ≡ total ps + n * weight u
unfolding push_positive
total-push n u ps = ground (arith, total-append ps ((n, u) ∷ []))

total-push_secs : (n : ℕ) (ps : List Part) → total (push_secs n ps) ≡ total ps + n
unfolding push_secs
total-push_secs n ps = ground (arith, total-append ps ((n, secs) ∷ []))

push-IsInRange :
    (n : ℕ) (u : TimeUnit) (ps : List Part)
    → IsInRange (n, u)
    → All IsInRange ps
    → All IsInRange (push_positive n u ps)
unfolding push_positive
push-IsInRange n u ps r h =
    if_rule (All IsInRange) (ltb 0 n) (ps ++ (n, u) ∷ []) ps
      (λ _. All-append IsInRange ps ((n, u) ∷ []) h (r, tt)) (λ _. h)

push_secs-IsInRange :
    (n : ℕ) (ps : List Part) → n < 60 → All IsInRange ps → All IsInRange (push_secs n ps)
unfolding push_secs
push_secs-IsInRange n ps r h =
    if_rule (All IsInRange) (ltb 0 n || is_empty ps) (ps ++ (n, secs) ∷ []) ps
      (λ _. All-append IsInRange ps ((n, secs) ∷ []) h (r, tt)) (λ _. h)

push_secs_pos : (n : ℕ) (ps : List Part) → 0 < length (push_secs n ps)
unfolding push_secs
push_secs_pos n [] = ground arith
push_secs_pos n (p ∷ ps) = ground arith

-- The uptime of the health page loses nothing: its parts add up to the seconds, each stays below
-- the next greater unit, and there is at least one.
pub uptime_parts-total :
    (seconds : ℕ)
    → (total (uptime_parts seconds) ≡ seconds)
      × All IsInRange (uptime_parts seconds)
      × (0 < length (uptime_parts seconds))
unfolding uptime_parts
uptime_parts-total seconds = (
  simp (total-push_secs, total-push) (omega arith),
  push_secs-IsInRange _ _ (omega arith) (
      push-IsInRange _ mins _ (omega arith)
        (push-IsInRange _ hours _ (omega arith) (push-IsInRange _ days [] tt tt))),
  push_secs_pos _ _,
)

-- The uptime of the dashboard never shows more than the seconds, and less than an hour is left
-- out, or less than a minute on the first day.
pub dashboard_parts-total :
    (seconds : ℕ)
    → (total (dashboard_parts seconds) ≤ seconds)
      × (seconds < total (dashboard_parts seconds) + 3600)
      × (seconds < 86400 → seconds < total (dashboard_parts seconds) + 60)
unfolding dashboard_parts
dashboard_parts-total seconds = (ground arith, ground arith, λ h. ground arith)
