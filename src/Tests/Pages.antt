-- ===== src/Tests/Pages.antt =====
-- The forms of the pages.
use konsul.Prelude.{ℕ, ◌*◌, ◌^◌, ◌≡◌, refl, String, Option, none, List, [], ◌∷◌, false}
use konsul.Prelude.Text.{trim, split}
use konsul.Value.{Value, num, str}
use konsul.Auth.{initial}
use konsul.Pages.Uptime.{health_uptime, dashboard_uptime}
use konsul.Pages.Login.{Screen, initial_form, text_list}
use konsul.Pages.Services
use konsul.Pages.Services.Tags.{IsTagList, run-IsTagList}
use konsul.Pages.KeyValues
use konsul.Prelude.Text.{includes}
use konsul.Prelude.{true}
use konsul.Pages.Dashboard
use konsul.Pages.Health
use konsul.Pages.Cards.{card_lines}
use konsul.Prelude.{map, some}
use konsul.Value.{null}
use konsul.Pages.ApiKeys
use konsul.Pages.ApiKeys.Sent.{Since, run-Since}
use konsul.Tests.{server, parse, empty_browser, old_session}

text_list_of_two : text_list " admin ,, ops" ≡ "admin" ∷ "ops" ∷ []
unfolding text_list split trim
text_list_of_two = refl

abbrev typed : Screen
typed = record {
  form = record initial_form { username = "alice" };
  path = "/login";
  session = record initial { is_loading = false };
  browser = empty_browser;
}

abbrev parse_int : String → Value
parse_int s = num s

abbrev tag_events : List Services.Event
tag_events =
    Services.type_tag " web "
    ∷ Services.add_tag
    ∷ Services.type_tag "web"
    ∷ Services.add_tag
    ∷ Services.submit
    ∷ []

run-IsTagList_example :
    IsTagList
      (Services.run server parse parse_int tag_events (Services.opened, old_session)).0.form.tags
run-IsTagList_example = run-IsTagList server parse parse_int tag_events old_session

abbrev pretty : Value → String
pretty v = "{}"

abbrev atob : String → Option String
atob s = none

abbrev blank : KeyValues.Editor
blank = record { key = " "; value = "v"; error = "" }

abbrev pair : KeyValues.KvPair
pair = record { key = "a"; value = "b" }

abbrev edit_events : List KeyValues.Event
edit_events = KeyValues.handle_edit pair ∷ KeyValues.type_key "c" ∷ KeyValues.type_value "d" ∷ []

abbrev key_events : List ApiKeys.Event
key_events = ApiKeys.load ∷ ApiKeys.type_name "ci" ∷ ApiKeys.submit ∷ ApiKeys.settled 0 ∷ []

run-Since_example :
    Since
      (str "old")
      old_session
      (ApiKeys.run server parse_int (str "old") key_events (ApiKeys.opened, old_session)).1
run-Since_example = run-Since server parse_int (str "old") key_events ApiKeys.opened old_session

health_uptime_of_a_day : health_uptime 90061 ≡ "1d 1h 1m 1s"
unfolding health_uptime
health_uptime_of_a_day = refl

dashboard_uptime_of_a_day : dashboard_uptime 90061 ≡ "1d 1h"
unfolding dashboard_uptime
dashboard_uptime_of_a_day = refl

abbrev two_pairs : List KeyValues.KvPair
two_pairs = record { key = "app/port"; value = "80" } ∷ pair ∷ []

found_by_search :
    KeyValues.filtered (λ s. s) "port" two_pairs ≡ record { key = "app/port"; value = "80" } ∷ []
unfolding KeyValues.filtered includes
found_by_search = refl

abbrev web : Dashboard.Service
web = record { name = "web"; address = "10.0.0.1"; port = 80; status = str "passing" }

abbrev old : Dashboard.Service
old = record { name = "old"; address = "10.0.0.2"; port = 80; status = null }

abbrev queries : Dashboard.Queries
queries = record {
  services = some (web ∷ old ∷ []);
  services_loading = false;
  keys = none;
  keys_loading = true;
  health = none;
  health_loading = false;
}

cards_of_queries :
    map card_lines (Dashboard.stat_cards queries)
    ≡ some ("2", some ("1 healthy", true)) ∷ none ∷ some ("unknown", none) ∷ some ("0m", none) ∷ []
unfolding card_lines Dashboard.stat_cards
cards_of_queries = refl

abbrev terabytes : ℕ
terabytes = 5 * 1024 ^ 4

abbrev some_health : Health.Health
some_health = record {
  status = "healthy";
  uptime = 61;
  timestamp = "2024-01-01";
  version = none;
  services = some (record { total = 2; healthy = 1; unhealthy = 1 });
  kv = some 3;
  system = none;
}

cards_of_health :
    map card_lines (Health.status_cards false (some some_health))
    ≡ some ("healthy", none)
      ∷ some ("1m 1s", none)
      ∷ some ("2", some ("1 healthy", false))
      ∷ some ("3", none)
      ∷ []
unfolding card_lines Health.status_cards
cards_of_health = refl

widths_of_health :
    map
      (λ (b : Health.Bar). b.width)
      (Health.service_bars (record { total = 2; healthy = 1; unhealthy = 1 }))
    ≡ (100, 1) ∷ (100, 2) ∷ (100, 2) ∷ []
unfolding Health.service_bars
widths_of_health = refl
