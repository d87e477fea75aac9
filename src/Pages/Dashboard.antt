-- ===== src/Pages/Dashboard.antt =====
-- web/admin/src/pages/Dashboard.tsx: the four cards, the list of services and the panel with the
-- system information. The data of the queries is used as its types say; the uptime is whole seconds.
pub mod Counts
use konsul.Prelude.{
  ℕ, zero, suc, Bool, true, false, String, Option, none, some, List, [], ◌∷◌, ◌++◌, keep, map,
  length, ltb, if◌then◌else◌,
}
use konsul.Prelude.Text.{◌<>◌, nonempty}
use konsul.Value.{Value}
use konsul.Pages.Uptime.{show, dashboard_uptime}
use konsul.Pages.Services.{is_healthy, badge}
use konsul.Pages.Cards.{StatCard, Panel, panel, or_text}
use konsul.Pages.Health.{ServiceCounts, System, Health, of_health}

-- The fields of a service that the page shows.
pub record Service : Type 0 where
  pub name : String
  pub address : String
  pub port : ℕ
  pub status : Value

-- `xs || []` for what a query has: nothing yet, or a list.
abbrev pub or_empty {ℓ} : {A : Type ℓ} → Option (List A) → List A
or_empty none = []
or_empty (some xs) = xs

unfoldable pub healthy_services : Option (List Service) → ℕ
unfolding is_healthy
healthy_services services = length (keep (λ (s : Service). is_healthy s.status) (or_empty services))

abbrev pub status_text : Option Health → String
status_text health = or_text "unknown" (of_health (λ (h : Health). some h.status) health)

abbrev uptime_text : Option Health → String
unfolding dashboard_uptime
uptime_text none = "0m"
uptime_text (some h) = if ltb 0 h.uptime then dashboard_uptime h.uptime else "0m"

-- The page's queries: what each has, and whether it loads.
pub record Queries : Type 0 where
  pub services : Option (List Service)
  pub services_loading : Bool
  pub keys : Option (List String)
  pub keys_loading : Bool
  pub health : Option Health
  pub health_loading : Bool

unfoldable pub stat_cards : Queries → List StatCard
unfolding healthy_services uptime_text show
stat_cards q =
    record {
      title = "Total Services";
      value = show (length (or_empty q.services));
      trend = some (show (healthy_services q.services) <> " healthy", true);
      loading = q.services_loading;
    }
    ∷ record {
      title = "KV Keys";
      value = show (length (or_empty q.keys));
      trend = none;
      loading = q.keys_loading;
    }
    ∷ record {
      title = "System Status";
      value = status_text q.health;
      trend = none;
      loading = q.health_loading;
    }
    ∷ record {
      title = "Uptime";
      value = uptime_text q.health;
      trend = none;
      loading = q.health_loading;
    }
    ∷ []

-- `services.slice(0, n)`.
unfoldable pub slice {ℓ} : {A : Type ℓ} → ℕ → List A → List A
slice zero xs = []
slice (suc n) [] = []
slice (suc n) (x ∷ xs) = x ∷ slice n xs

-- A line of the list: name, address with port, the badge and whether it is green.
pub record Row : Type 0 where
  pub name : String
  pub place : String
  pub badge_text : Value
  pub is_green : Bool

unfoldable pub row : Service → Row
unfolding is_healthy badge show
row s = record {
  name = s.name;
  place = s.address <> ":" <> show s.port;
  badge_text = badge s.status;
  is_green = is_healthy s.status;
}

unfoldable pub recent_services : Option (List Service) → List Row
unfolding slice row
recent_services services = map row (slice 5 (or_empty services))

abbrev services_line : Option ServiceCounts → List (String × String)
unfolding show
services_line none = []
services_line (some c) = ("Healthy Services", show c.healthy <> " / " <> show c.total) ∷ []

abbrev goroutines_line : Option System → List (String × String)
unfolding show
goroutines_line none = []
goroutines_line (some s) = ("Goroutines", show s.goroutines) ∷ []

-- The lines of the system information, the last two where the answer has them.
unfoldable pub info_lines : Health → List (String × String)
unfolding services_line goroutines_line
info_lines h =
    ("Status", h.status)
    ∷ ("Version", or_text "N/A" h.version)
    ∷ (services_line h.services ++ goroutines_line h.system)

unfoldable pub system_information : Queries → Panel (List (String × String))
unfolding panel info_lines
system_information q = panel q.health_loading "Unable to fetch system info" info_lines q.health

-- The panel of recent services: its rows where there is a service.
abbrev pub first_rows : Option (List Service) → Option (List Row)
unfolding recent_services
first_rows (some (s ∷ ss)) = some (recent_services (some (s ∷ ss)))
first_rows _ = none

unfoldable pub services_panel : Queries → Panel (List Row)
unfolding panel
services_panel q =
    panel q.services_loading "No services registered" (λ rows. rows) (first_rows q.services)
