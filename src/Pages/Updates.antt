-- ===== src/Pages/Updates.antt =====
-- The effects by which web/admin/src/pages/Dashboard.tsx, Services.tsx, KVStore.tsx and Health.tsx
-- subscribe to live updates, with the provider that calls them. The cache of the queries is a
-- library's: its type and its two operations are parameters.
pub mod Shown
pub mod Balanced
use konsul.Prelude.{ℕ, suc, Option, none, some, List, [], ◌∷◌, ◌==◌, length, if◌then◌else◌}
use konsul.Value.{Value, Result, ok, err, get_prop, ◌>>=◌}
use konsul.Live.Subscribers.{Channel, kv, services, health}
use konsul.Live.{Provider, Event, subscribes, unsubscribes, step}

-- The keys of the queries.
pub data QueryKey : Type 0 where
  services_query kv_list_query kv_all_query health_query : QueryKey

pub data Visited : Type 0 where
  dashboard services_page kv_page health_page other_page : Visited

-- What happens: a page takes the place of another, or an event of the provider.
pub data UiEvent : Type 0 where
  shows : Visited → UiEvent
  net : Event → UiEvent

-- A callback, which may throw.
abbrev pub Handler : Type 0 → Type 0
Handler C = Value → C → Result C

-- The callbacks by their numbers, and those that the page which is shown has subscribed.
pub record Console (C : Type 0) : Type 0 where
  pub provider : Provider
  pub handlers : List (ℕ × Handler C)
  pub subscribed : List (Channel × ℕ)
  pub cache : C

-- Before any page is shown.
abbrev pub console : {C : Type 0} → Provider → C → Console C
console p c = record { provider = p; handlers = []; subscribed = []; cache = c }

module _ {C : Type 0} where
  unfoldable pub subscribe_all : List (Channel × Handler C) → Console C → Console C
  subscribe_all [] c = c
  subscribe_all ((channel, h) ∷ hs) c =
      let f = length c.handlers in
      subscribe_all hs (record c {
        provider = (step (subscribes channel f) c.provider).0;
        handlers = (f, h) ∷ c.handlers;
        subscribed = (channel, f) ∷ c.subscribed;
      })

  unfoldable pub unsubscribe_all : List (Channel × ℕ) → Console C → Console C
  unsubscribe_all [] c = record c { subscribed = [] }
  unsubscribe_all ((channel, f) ∷ fs) c =
      unsubscribe_all fs (record c { provider = (step (unsubscribes channel f) c.provider).0 })

  abbrev pub handler_of : ℕ → List (ℕ × Handler C) → Option (Handler C)
  handler_of f [] = none
  handler_of f ((g, h) ∷ hs) = if g == f then some h else handler_of f hs

  abbrev pub call_handler : Option (Handler C) → Value → C → Result C
  call_handler none v c = ok c
  call_handler (some h) v c = h v c

  -- The calls of one message; an error that a callback throws ends them.
  unfoldable pub run_calls : List (ℕ × Handler C) → List (ℕ × Value) → C → C
  run_calls hs [] c = c
  run_calls hs ((f, v) ∷ ms) c = elim (call_handler (handler_of f hs) v c) [
    | ok d ↦ run_calls hs ms d
    | err e ↦ c
  ]

module _ {C : Type 0} (invalidate : QueryKey → C → C) (set_data : QueryKey → Value → C → C) where
  abbrev pub invalidates : QueryKey → Handler C
  invalidates k = λ event c. ok (invalidate k c)

  abbrev pub updates_health : Handler C
  updates_health = λ event c. get_prop event "data" >>= λ v. ok (set_data health_query v c)

  -- What the effect of each page subscribes to, in its order.
  abbrev pub dashboard_effect : List (Channel × Handler C)
  dashboard_effect =
      (services, invalidates services_query)
      ∷ (kv, invalidates kv_list_query)
      ∷ (health, updates_health)
      ∷ []

  abbrev pub services_effect : List (Channel × Handler C)
  services_effect = (services, invalidates services_query) ∷ []

  abbrev pub kv_effect : List (Channel × Handler C)
  kv_effect = (kv, invalidates kv_all_query) ∷ []

  abbrev pub health_effect : List (Channel × Handler C)
  health_effect = (health, updates_health) ∷ []

  unfoldable pub subscriptions : Visited → List (Channel × Handler C)
  unfolding get_prop
  subscriptions dashboard = dashboard_effect
  subscriptions services_page = services_effect
  subscriptions kv_page = kv_effect
  subscriptions health_page = health_effect
  subscriptions other_page = []

  unfoldable pub ui_step : UiEvent → Console C → Console C
  unfolding subscriptions subscribe_all unsubscribe_all run_calls step
  ui_step (shows v) c = subscribe_all (subscriptions v) (unsubscribe_all c.subscribed c)
  ui_step (net e) c =
      let (q, ms) = step e c.provider in
      record c { provider = q; cache = run_calls c.handlers ms c.cache }

  unfoldable pub ui_run : List UiEvent → Console C → Console C
  unfolding ui_step
  ui_run [] c = c
  ui_run (e ∷ es) c = ui_run es (ui_step e c)
