-- ===== src/Pages/Dashboard/Counts.antt =====
-- The numbers of web/admin/src/pages/Dashboard.tsx and its list of services.
use konsul.Prelude.{ℕ, zero, suc, ◌≤◌, Option, List, [], ◌∷◌, keep, map, length, arith}
use konsul.Pages.Services.{is_healthy}
use konsul.Pages.Dashboard.{Service, Row, or_empty, healthy_services, slice, row, recent_services}

abbrev green : List Row → ℕ
green rows = length (keep (λ (r : Row). r.is_green) rows)

counted :
    (n : ℕ) (ss : List Service)
    → (length (map row (slice n ss)) ≤ n)
      × (green (map row (slice n ss)) ≤ length (keep (λ (s : Service). is_healthy s.status) ss))
      × (length (keep (λ (s : Service). is_healthy s.status) ss) ≤ length ss)
unfolding slice row
counted zero [] = (omega arith, omega arith, omega arith)
counted zero (s ∷ ss) = let (a, b, c) = counted zero ss in (omega arith, ground arith, ground arith)
counted (suc n) [] = (omega arith, omega arith, omega arith)
counted (suc n) (s ∷ ss) =
    let (a, b, c) = counted n ss in (ground arith, ground arith, ground arith)

-- The list shows at most five services; the green ones among them are at most as many as the
-- healthy ones that the card counts, which are at most as many as all services.
pub recent_services-healthy_services :
    (services : Option (List Service))
    → (length (recent_services services) ≤ 5)
      × (length (keep (λ (r : Row). r.is_green) (recent_services services))
          ≤ healthy_services services)
      × (healthy_services services ≤ length (or_empty services))
unfolding recent_services healthy_services
recent_services-healthy_services services = counted 5 (or_empty services)
