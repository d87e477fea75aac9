-- ===== src/Tests/Live.antt =====
-- Live updates of one sign-in.
use konsul.Prelude.{◌≡◌, refl, true, false, some, List, [], ◌∷◌, length}
use konsul.Value.{Value, str, obj, field, end}
use konsul.Live.Subscribers.{kv, Subs}
use konsul.Pages.Updates.{QueryKey, UiEvent, shows, net, dashboard, kv_page, console, ui_run}
use konsul.Pages.Updates.Shown.{heard, listeners, ui_run-shown}
use konsul.Live.Stale.{Holds, IsFrozen}
use konsul.Live.Calls.{live_calls_nobody}
use konsul.Live.Single.{OnlyLive}
use konsul.Live.Reach.{run-OnlyLive}
use konsul.Live.Return.{reconnects_signed_out}
use konsul.Live.{
  Provider, Socket, Closure, closing, Event, auth_changes, subscribes, opens, closes, fires,
  receives, run, step, mounted,
}

abbrev news : Value
news = obj (field "channel" (str "kv") (field "data" (str "k") end))

abbrev some_events : List Event
some_events =
    subscribes kv 7
    ∷ opens 0
    ∷ receives 0 (some news)
    ∷ closes 0
    ∷ fires 0
    ∷ opens 1
    ∷ receives 1 (some news)
    ∷ []

live_calls_nobody_example :
    (run some_events (step (auth_changes true (str "t")) (mounted "http:" "host")).0).1 ≡ []
live_calls_nobody_example = live_calls_nobody "http:" "host" (str "t") some_events

run-OnlyLive_example :
    OnlyLive
      (run some_events (mounted "http:" "host")).0.ws
      (run some_events (mounted "http:" "host")).0.sockets
run-OnlyLive_example = run-OnlyLive "http:" "host" some_events

-- A provider whose user has left, and whose socket is closing.
abbrev subscribed : Closure
subscribed = record {
  is_authenticated = true;
  token = str "t";
  subscribers = record { kv = 7 ∷ []; services = []; health = [] };
}

abbrev left_socket : Socket
left_socket = record {
  id = 0;
  url = "ws://host/ws/updates";
  handler = subscribed;
  phase = closing;
  frames = [];
}

abbrev left : Provider
left = record (mounted "http:" "host") { ws = some 0; sockets = left_socket ∷ [] }

left-IsFrozen : IsFrozen subscribed left
left-IsFrozen = record { sockets = (refl, tt); timers = tt; connected = (0, refl) }

reconnects_signed_out_example :
    let q = (run (closes 0 ∷ fires 0 ∷ []) left).0 in
    (q.is_authenticated ≡ false)
    × (q.ws ≡ some 1)
    × (length q.sockets ≡ 2)
    × Holds subscribed q.sockets
reconnects_signed_out_example =
    reconnects_signed_out subscribed left 0 left_socket left-IsFrozen refl refl refl refl

abbrev nobody_yet : Subs
nobody_yet = record { kv = []; services = []; health = [] }

-- A cache as the list of what was done to it.
abbrev invalidate_log : QueryKey → List QueryKey → List QueryKey
invalidate_log k l = k ∷ l

abbrev set_log : QueryKey → Value → List QueryKey → List QueryKey
set_log k v l = k ∷ l

abbrev visits : List UiEvent
visits =
    shows dashboard
    ∷ net (opens 0)
    ∷ net (receives 0 (some news))
    ∷ shows kv_page
    ∷ net (closes 0)
    ∷ net (fires 0)
    ∷ net (opens 1)
    ∷ net (receives 1 (some news))
    ∷ []

ui_run-shown_example :
    heard kv (ui_run invalidate_log set_log visits (console (mounted "http:" "host") []))
    ≡ listeners invalidate_log set_log kv_page kv
ui_run-shown_example = ui_run-shown invalidate_log set_log "http:" "host" [] kv visits refl
