-- ===== src/Live.antt =====
-- web/admin/src/contexts/WebSocketContext.tsx: the provider of live updates as a machine whose
-- steps are the browser's and React's events. A render's `connect` is the record of what it
-- captures; the effect runs after each render in which what it depends on has changed.
pub mod Subscribers
pub mod Stale
pub mod Calls
pub mod Single
pub mod Reach
pub mod Return
use konsul.Prelude.{
  ℕ, zero, suc, Bool, true, false, ◌&&◌, String, Option, none, some, List, [], ◌∷◌, ◌++◌, map,
  length, ◌==◌, str_eq, if◌then◌else◌,
}
use konsul.Prelude.Text.{◌<>◌}
use konsul.Value.{Value, str, truthy, Result, ok, err, get_prop}
use Subscribers.{Channel, kv, services, health, Subs, callbacks, add, remove}

-- What a render's `connect` closes over.
pub record Closure : Type 0 where
  pub is_authenticated : Bool
  pub token : Value
  pub subscribers : Subs

pub data Phase : Type 0 where
  connecting open_ closing closed : Phase

-- A text that is sent through a socket.
pub data Frame : Type 0 where
  auth : Value → Frame
  subscribe : List Channel → Frame

pub record Socket : Type 0 where
  pub id : ℕ
  pub url : String
  pub handler : Closure
  pub phase : Phase
  pub frames : List Frame

-- `cleanup` is the `ws` that the last effect closes when it is undone. The newest socket and the
-- newest timer stand first. A callback is a number, the identity of the function.
pub record Provider : Type 0 where
  pub is_authenticated : Bool
  pub token : Value
  pub protocol : String
  pub host : String
  pub is_connected : Bool
  pub ws : Option ℕ
  pub subscribers : Subs
  pub sockets : List Socket
  pub timers : List Closure
  pub cleanup : Option ℕ

unfoldable pub ws_url : String → String → String
ws_url protocol host =
    (if str_eq protocol "https:" then "wss:" else "ws:") <> "//" <> host <> "/ws/updates"

abbrev pub captured : Provider → Closure
captured p = record {
  is_authenticated = p.is_authenticated;
  token = p.token;
  subscribers = p.subscribers;
}

abbrev pub new_socket : Closure → Provider → Socket
new_socket c p = record {
  id = length p.sockets;
  url = ws_url p.protocol p.host;
  handler = c;
  phase = connecting;
  frames = [];
}

-- `connect`: a new socket with the handlers of this closure, and `setWs`.
unfoldable pub connect : Closure → Provider → Provider
connect c p =
    if c.is_authenticated
    then record p { sockets = new_socket c p ∷ p.sockets; ws = some (length p.sockets) }
    else p

-- `close()` starts the closing handshake of a socket that is connecting or open.
abbrev pub close_phase : Phase → Phase
close_phase connecting = closing
close_phase open_ = closing
close_phase closing = closing
close_phase closed = closed

abbrev pub change : ℕ → (Socket → Socket) → List Socket → List Socket
change i f [] = []
change i f (s ∷ ss) = (if s.id == i then f s else s) ∷ change i f ss

abbrev pub close_socket : Socket → Socket
close_socket s = record s { phase = close_phase s.phase }

unfoldable pub close_ws : Option ℕ → List Socket → List Socket
close_ws none ss = ss
close_ws (some i) ss = change i close_socket ss

-- The first connection is made by the effect itself; the render that `setWs` causes undoes an
-- effect that captured no socket, and captures the new one.
unfoldable pub first_connect : Option ℕ → Provider → Provider
first_connect none p = if p.is_authenticated then connect (captured p) p else p
first_connect (some i) p = p

-- A render in which a dependency has changed: the last effect is undone and the effect runs.
unfoldable pub run_effect : Provider → Provider
run_effect p =
    let closed_ = record p { sockets = close_ws p.cleanup p.sockets } in
    let connected = first_connect closed_.ws closed_ in record connected { cleanup = connected.ws }

abbrev pub is_open : Phase → Bool
is_open open_ = true
is_open _ = false

abbrev pub find_socket : ℕ → List Socket → Option Socket
find_socket i [] = none
find_socket i (s ∷ ss) = if s.id == i then some s else find_socket i ss

-- `onopen` sends the token, if there is one, and asks for all channels.
abbrev pub greeting : Closure → List Frame
greeting c =
    let ask = subscribe (kv ∷ services ∷ health ∷ []) ∷ [] in
    if truthy c.token then auth c.token ∷ ask else ask

abbrev pub open_socket : Socket → Socket
open_socket s = record s { phase = open_; frames = s.frames ++ greeting s.handler }

abbrev pub closed_socket : Socket → Socket
closed_socket s = record s { phase = closed }

abbrev pub channel_of : Value → Option Channel
channel_of (str s) =
    if str_eq s "kv"
    then some kv
    else if str_eq s "services"
    then some services
    else if str_eq s "health"
    then some health
    else none
channel_of _ = none

abbrev pub deliver : Result Value → Result Value → Subs → List (ℕ × Value)
deliver (ok channel) (ok body) subs = elim (channel_of channel) [
  | none ↦ []
  | some c ↦ map (λ f. (f, body)) (callbacks c subs)
]
deliver (ok channel) (err e) subs = []
deliver (err e) body subs = []

-- `onmessage`: the calls that it makes, each callback with the message's data. `none` stands for a
-- text that `JSON.parse` refuses.
unfoldable pub on_message : Option Value → Closure → List (ℕ × Value)
unfolding get_prop
on_message none c = []
on_message (some message) c =
    deliver (get_prop message "channel") (get_prop message "data") c.subscribers

pub data Event : Type 0 where
  auth_changes : Bool → Value → Event
  subscribes unsubscribes : Channel → ℕ → Event
  opens errors closes fires : ℕ → Event
  receives : ℕ → Option Value → Event

-- The timer at a place, and the others.
abbrev pub take_timer : ℕ → List Closure → Option (Closure × List Closure)
take_timer n [] = none
take_timer zero (c ∷ cs) = some (c, cs)
take_timer (suc n) (c ∷ cs) = elim (take_timer n cs) [
  | none ↦ none
  | some (d, rest) ↦ some (d, c ∷ rest)
]

-- A reconnection: `setWs` changes a dependency of the effect.
unfoldable pub reconnect : Closure → Provider → Provider
reconnect c p = if c.is_authenticated then run_effect (connect c p) else p

abbrev pub fire : Option (Closure × List Closure) → Provider → Provider
fire none p = p
fire (some (c, rest)) p = reconnect c (record p { timers = rest })

abbrev pub is_connecting : Phase → Bool
is_connecting connecting = true
is_connecting _ = false

abbrev pub is_closed : Phase → Bool
is_closed closed = true
is_closed _ = false

-- The browser opens a socket only while it is connecting, and closes each socket once.
abbrev pub on_open : Option Socket → Provider → Provider
on_open none p = p
on_open (some s) p =
    if is_connecting s.phase
    then record p { is_connected = true; sockets = change s.id open_socket p.sockets }
    else p

abbrev pub on_close : Option Socket → Provider → Provider
on_close none p = p
on_close (some s) p = if is_closed s.phase then p else record p {
  is_connected = false;
  sockets = change s.id closed_socket p.sockets;
  timers = s.handler ∷ p.timers;
}

abbrev pub calls : Option Socket → Option Value → List (ℕ × Value)
calls none m = []
calls (some s) m = if is_open s.phase then on_message m s.handler else []

-- One event: the new state and the calls of subscribers.
unfoldable pub step : Event → Provider → Provider × List (ℕ × Value)
step (auth_changes b t) p = (run_effect (record p { is_authenticated = b; token = t }), [])
step (subscribes c f) p = (run_effect (record p { subscribers = add c f p.subscribers }), [])
step (unsubscribes c f) p = (run_effect (record p { subscribers = remove c f p.subscribers }), [])
step (opens i) p = (on_open (find_socket i p.sockets) p, [])
step (errors i) p = (record p { is_connected = false }, [])
step (closes i) p = (on_close (find_socket i p.sockets) p, [])
step (fires n) p = (fire (take_timer n p.timers) p, [])
step (receives i m) p = (p, calls (find_socket i p.sockets) m)

-- The state after a run of events, and all calls of subscribers in their order.
unfoldable pub run : List Event → Provider → Provider × List (ℕ × Value)
run [] p = (p, [])
run (e ∷ es) p = let (q, made) = step e p in let (r, later) = run es q in (r, made ++ later)

-- The provider as it mounts, before anybody is signed in.
abbrev pub mounted : String → String → Provider
mounted protocol host = record {
  is_authenticated = false;
  token = Value.null;
  protocol = protocol;
  host = host;
  is_connected = false;
  ws = none;
  subscribers = record { kv = []; services = []; health = [] };
  sockets = [];
  timers = [];
  cleanup = none;
}
