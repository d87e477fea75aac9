-- ===== src/Pages/Health.antt =====
-- web/admin/src/pages/Health.tsx: the cards and the three panels of the page. The answer of the
-- server is used as its type says. `Math.floor(Math.log(b) / Math.log(1024))`, `toFixed(2)` of a
-- quotient and the local form of a date are parameters.
pub mod Bytes
use konsul.Prelude.{
  ℕ, zero, suc, ◌*◌, ◌^◌, Bool, String, Option, none, some, List, [], ◌∷◌, ltb, ◌==◌, str_eq,
  if◌then◌else◌,
}
use konsul.Prelude.Text.{◌<>◌}
use konsul.Pages.Uptime.{show, health_uptime}
use konsul.Pages.Cards.{StatCard, Panel, panel, or_text}

pub record ServiceCounts : Type 0 where
  pub total : ℕ
  pub healthy : ℕ
  pub unhealthy : ℕ

pub record Memory : Type 0 where
  pub alloc : ℕ
  pub total_alloc : ℕ
  pub sys : ℕ
  pub heap_alloc : ℕ
  pub heap_sys : ℕ

pub record System : Type 0 where
  pub goroutines : ℕ
  pub memory : Memory

-- `kv` is the number of keys, where the answer has one.
pub record Health : Type 0 where
  pub status : String
  pub uptime : ℕ
  pub timestamp : String
  pub version : Option String
  pub services : Option ServiceCounts
  pub kv : Option ℕ
  pub system : Option System

-- `health?.field`.
abbrev pub of_health {ℓ} : {A : Type ℓ} → (Health → Option A) → Option Health → Option A
of_health f none = none
of_health f (some h) = f h

-- `sizes[i]`, which is the text `undefined` from the fifth unit on.
abbrev pub sizes : ℕ → String
sizes zero = "B"
sizes (suc zero) = "KB"
sizes (suc (suc zero)) = "MB"
sizes (suc (suc (suc zero))) = "GB"
sizes _ = "undefined"

module _ (log_1024 : ℕ → ℕ) (to_fixed : ℕ → ℕ → String) where
  unfoldable pub format_bytes : ℕ → String
  format_bytes bytes =
      if bytes == 0
      then "0 B"
      else to_fixed bytes (1024 ^ log_1024 bytes) <> " " <> sizes (log_1024 bytes)

-- The trend of the card of services: the text, and whether it is green.
abbrev pub services_trend : ServiceCounts → String × Bool
unfolding show
services_trend c = (show c.healthy <> " healthy", c.healthy == c.total)

abbrev pub total_services : Option ServiceCounts → ℕ
total_services none = 0
total_services (some c) = c.total

abbrev pub trend_of : Option ServiceCounts → Option (String × Bool)
trend_of none = none
trend_of (some c) = some (services_trend c)

abbrev pub total_keys : Option ℕ → ℕ
total_keys none = 0
total_keys (some n) = n

abbrev pub shown_uptime : Option Health → String
unfolding health_uptime
shown_uptime none = "0s"
shown_uptime (some h) = if ltb 0 h.uptime then health_uptime h.uptime else "0s"

unfoldable pub status_cards : Bool → Option Health → List StatCard
unfolding show shown_uptime
status_cards is_loading health =
    record {
      title = "Status";
      value = or_text "unknown" (of_health (λ (h : Health). some h.status) health);
      trend = none;
      loading = is_loading;
    }
    ∷ record { title = "Uptime"; value = shown_uptime health; trend = none; loading = is_loading }
    ∷ record {
      title = "Services";
      value = show (total_services (of_health (λ (h : Health). h.services) health));
      trend = trend_of (of_health (λ (h : Health). h.services) health);
      loading = is_loading;
    }
    ∷ record {
      title = "KV Keys";
      value = show (total_keys (of_health (λ (h : Health). h.kv) health));
      trend = none;
      loading = is_loading;
    }
    ∷ []

-- A bar of the service statistics: its label and number, and its width in hundredths of the
-- denominator. The first bar is always full.
pub record Bar : Type 0 where
  pub label : String
  pub number : ℕ
  pub width : ℕ × ℕ

abbrev pub share : ℕ → ℕ → ℕ × ℕ
share part total = if ltb 0 total then (part * 100, total) else (0, 1)

unfoldable pub service_bars : ServiceCounts → List Bar
service_bars c =
    record { label = "Total Services"; number = c.total; width = (100, 1) }
    ∷ record { label = "Healthy Services"; number = c.healthy; width = share c.healthy c.total }
    ∷ record {
      label = "Unhealthy Services";
      number = c.unhealthy;
      width = share c.unhealthy c.total;
    }
    ∷ []

unfoldable pub service_statistics : Bool → Option Health → Panel (List Bar)
unfolding panel
service_statistics is_loading health =
    panel is_loading "No service data available" service_bars
      (of_health (λ (h : Health). h.services) health)

module _ (log_1024 : ℕ → ℕ) (to_fixed : ℕ → ℕ → String) where
  -- The lines of the system metrics: label and text.
  unfoldable pub system_lines : System → List (String × String)
  unfolding format_bytes show
  system_lines s =
      ("Goroutines", show s.goroutines)
      ∷ ("Memory Allocated", format_bytes log_1024 to_fixed s.memory.alloc)
      ∷ ("Total Allocated", format_bytes log_1024 to_fixed s.memory.total_alloc)
      ∷ ("System Memory", format_bytes log_1024 to_fixed s.memory.sys)
      ∷ ("Heap Allocated", format_bytes log_1024 to_fixed s.memory.heap_alloc)
      ∷ ("Heap System", format_bytes log_1024 to_fixed s.memory.heap_sys)
      ∷ []

  unfoldable pub system_metrics : Bool → Option Health → Panel (List (String × String))
  unfolding panel
  system_metrics is_loading health =
      panel is_loading "No system metrics available" system_lines
        (of_health (λ (h : Health). h.system) health)

-- The general information: the status, whether it is green, the version and the time.
pub record General : Type 0 where
  pub status : String
  pub is_green : Bool
  pub version : String
  pub time : String

module _ (to_locale : String → String) where
  unfoldable pub general : Health → General
  general h = record {
    status = h.status;
    is_green = str_eq h.status "healthy";
    version = or_text "N/A" h.version;
    time = to_locale h.timestamp;
  }

  unfoldable pub general_information : Bool → Option Health → Panel General
  unfolding panel
  general_information is_loading health =
      panel is_loading "Unable to fetch health data" general health
