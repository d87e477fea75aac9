-- ===== src/Live/Calls.antt =====
-- Whom the messages of the sockets of web/admin/src/contexts/WebSocketContext.tsx reach.
use konsul.Prelude.{
  ℕ, true, String, Option, none, some, List, [], ◌∷◌, map, ◌≡◌, refl, arith, All, All-append,
  if_rule,
}
use konsul.Value.{Value, Result, ok, err, get_prop}
use konsul.Live.Subscribers.{Channel, callbacks, has}
use konsul.Live.Stale.{IsFrozen, step-IsFrozen, find_socket-handler}
use konsul.Live.{
  Closure, Socket, Provider, Event, auth_changes, receives, connect, first_connect, run_effect,
  find_socket, deliver, channel_of, on_message, calls, step, run, mounted, is_open, close_ws,
}

-- A call goes to a callback of the closure.
abbrev pub IsCaptured : Closure → ℕ × Value → Type 0
IsCaptured c call = (d : Channel) × (has call.0 (callbacks d c.subscribers) ≡ true)

module _ (c : Closure) (d : Channel) (body : Value) where
  calls-IsCaptured :
      (fs : List ℕ)
      → ((f : ℕ) → has f fs ≡ true → has f (callbacks d c.subscribers) ≡ true)
      → All (IsCaptured c) (map (λ f. (f, body)) fs)
  calls-IsCaptured [] sub = tt
  calls-IsCaptured (f ∷ fs) sub =
      ((d, sub f (ground arith)), calls-IsCaptured fs (λ g h. sub g (ground arith)))

deliver-IsCaptured :
    (c : Closure) (r : Result Value) (body : Result Value)
    → All (IsCaptured c) (deliver r body c.subscribers)
deliver-IsCaptured c (err e) body = tt
deliver-IsCaptured c (ok v) (err e) = tt
deliver-IsCaptured c (ok v) (ok body) = by_channel (channel_of v)
  where
    by_channel :
        (o : Option Channel)
        → All
            (IsCaptured c)
            (elim o [ none ↦ [] | some d ↦ map (λ f. (f, body)) (callbacks d c.subscribers) ])
    by_channel none = tt
    by_channel (some d) = calls-IsCaptured c d body (callbacks d c.subscribers) (λ f h. h)

on_message-IsCaptured : (c : Closure) (m : Option Value) → All (IsCaptured c) (on_message m c)
unfolding on_message
on_message-IsCaptured c none = tt
on_message-IsCaptured c (some v) = deliver-IsCaptured c (get_prop v "channel") (get_prop v "data")

calls_of-IsCaptured :
    (c : Closure) (o : Option Socket) (m : Option Value)
    → ((s : Socket) → o ≡ some s → s.handler ≡ c)
    → All (IsCaptured c) (calls o m)
calls_of-IsCaptured c none m h = tt
calls_of-IsCaptured c (some s) m h =
    if_rule (All (IsCaptured c)) (is_open s.phase) (on_message m s.handler) []
      (λ e. rw (h s refl) (on_message-IsCaptured c m)) (λ e. tt)

pub step-IsCaptured :
    (c : Closure) (e : Event) (p : Provider) → IsFrozen c p → All (IsCaptured c) (step e p).1
unfolding step
step-IsCaptured c (receives i m) p v =
    calls_of-IsCaptured c (find_socket i p.sockets) m
      λ s e. find_socket-handler c i p.sockets s v.sockets e
step-IsCaptured c _ p v = tt

-- In a state that has a current socket and whose sockets and timers all have one closure, all
-- calls that later events make go to callbacks that this closure captured, whatever subscribes
-- or unsubscribes in between.
pub run-IsCaptured :
    (c : Closure) (es : List Event) (p : Provider) → IsFrozen c p → All (IsCaptured c) (run es p).1
unfolding run
run-IsCaptured c [] p v = tt
run-IsCaptured c (e ∷ es) p v =
    All-append (IsCaptured c) (step e p).1 (run es (step e p).0).1 (step-IsCaptured c e p v)
      (run-IsCaptured c es (step e p).0 (step-IsFrozen c e p v))

-- The closure of a sign-in before which nobody has subscribed.
abbrev pub first_closure : Value → Closure
first_closure token = record {
  is_authenticated = true;
  token = token;
  subscribers = record { kv = []; services = []; health = [] };
}

pub signed_in-IsFrozen :
    (protocol host : String) (token : Value)
    → IsFrozen (first_closure token) (step (auth_changes true token) (mounted protocol host)).0
unfolding step run_effect first_connect connect close_ws
signed_in-IsFrozen protocol host token = record {
  sockets = (refl, tt);
  timers = tt;
  connected = (0, refl);
}

pub nobody :
    (token : Value) (ms : List (ℕ × Value)) → All (IsCaptured (first_closure token)) ms → ms ≡ []
nobody token [] h = refl
nobody token (m ∷ ms) ((Channel.kv, h), t) = cc
nobody token (m ∷ ms) ((Channel.services, h), t) = cc
nobody token (m ∷ ms) ((Channel.health, h), t) = cc

-- When the first event after the mount is a sign-in, no subscriber is ever called: whatever
-- subscribes later, however often the sockets close and reconnect and whatever they receive.
pub live_calls_nobody :
    (protocol host : String) (token : Value) (es : List Event)
    → (run es (step (auth_changes true token) (mounted protocol host)).0).1 ≡ []
live_calls_nobody protocol host token es =
    nobody token _
      (run-IsCaptured (first_closure token) es _ (signed_in-IsFrozen protocol host token))
