-- ===== src/Live/Stale.antt =====
-- The closures of the sockets and timers of web/admin/src/contexts/WebSocketContext.tsx.
use konsul.Prelude.{
  ℕ, zero, suc, Option, none, some, List, [], ◌∷◌, ◌≡◌, refl, ap, arith, All, length, if_rule,
}
use konsul.Live.{
  Closure, Socket, Provider, Event, auth_changes, subscribes, unsubscribes, opens, errors, closes,
  fires, receives, connect, change, close_socket, close_ws, first_connect, run_effect, find_socket,
  open_socket, closed_socket, take_timer, reconnect, fire, on_open, on_close, step, is_connecting,
  is_closed,
}

abbrev pub Holds : Closure → List Socket → Type 0
Holds c = All (λ s. s.handler ≡ c)

-- There is a connection, and all handlers and timers are those of one closure.
pub record IsFrozen (c : Closure) (p : Provider) : Type 0 where
  pub sockets : Holds c p.sockets
  pub timers : All (λ d. d ≡ c) p.timers
  pub connected : (i : ℕ) × (p.ws ≡ some i)

change-Holds :
    (c : Closure) (i : ℕ) (f : Socket → Socket) (ss : List Socket)
    → ((s : Socket) → (f s).handler ≡ s.handler)
    → Holds c ss
    → Holds c (change i f ss)
change-Holds c i f [] same h = tt
change-Holds c i f (s ∷ ss) same h = ground (arith, change-Holds c i f ss same h.1, same s)

close_ws-Holds :
    (c : Closure) (w : Option ℕ) (ss : List Socket) → Holds c ss → Holds c (close_ws w ss)
unfolding close_ws
close_ws-Holds c none ss h = h
close_ws-Holds c (some i) ss h = change-Holds c i close_socket ss (λ s. refl) h

first_connect_id : (i : ℕ) (p : Provider) → p.ws ≡ some i → first_connect p.ws p ≡ p
unfolding first_connect
first_connect_id i p e = rw (e, first_connect) refl

-- While there is a connection the effect makes none.
pub run_effect-connected :
    (i : ℕ) (p : Provider)
    → p.ws ≡ some i
    → run_effect p ≡ record p { sockets = close_ws p.cleanup p.sockets; cleanup = p.ws }
unfolding run_effect
run_effect-connected i p e =
    ap (λ (r : Provider). record r { cleanup = r.ws })
      (first_connect_id i (record p { sockets = close_ws p.cleanup p.sockets }) e)

run_effect-IsFrozen : (c : Closure) (p : Provider) → IsFrozen c p → IsFrozen c (run_effect p)
run_effect-IsFrozen c p v = rw (run_effect-connected v.connected.0 p v.connected.1) (record {
  sockets = close_ws-Holds c p.cleanup p.sockets v.sockets;
  timers = v.timers;
  connected = v.connected;
})

connect-IsFrozen : (c : Closure) (p : Provider) → IsFrozen c p → IsFrozen c (connect c p)
unfolding connect
connect-IsFrozen c p v =
    if_rule (IsFrozen c) c.is_authenticated _ p
      (λ e. record {
        sockets = (refl, v.sockets);
        timers = v.timers;
        connected = (length p.sockets, refl);
      })
      (λ e. v)

reconnect-IsFrozen : (c : Closure) (p : Provider) → IsFrozen c p → IsFrozen c (reconnect c p)
unfolding reconnect
reconnect-IsFrozen c p v =
    if_rule (IsFrozen c) c.is_authenticated _ p
      (λ e. run_effect-IsFrozen c (connect c p) (connect-IsFrozen c p v)) (λ e. v)

pub find_socket-handler :
    (c : Closure) (i : ℕ) (ss : List Socket) (s : Socket)
    → Holds c ss
    → find_socket i ss ≡ some s
    → s.handler ≡ c
find_socket-handler c i [] s h e = cc
find_socket-handler c i (x ∷ ss) s h e = ground (arith, find_socket-handler c i ss s h.1)

abbrev Taken : Closure → Option (Closure × List Closure) → Type 0
Taken c none = Unit
Taken c (some (d, rest)) = (d ≡ c) × All (λ x. x ≡ c) rest

take_timer-Taken :
    (c : Closure) (n : ℕ) (ds : List Closure) → All (λ x. x ≡ c) ds → Taken c (take_timer n ds)
take_timer-Taken c zero [] h = tt
take_timer-Taken c (suc n) [] h = tt
take_timer-Taken c zero (d ∷ ds) h = h
take_timer-Taken c (suc n) (d ∷ ds) h = ground (arith, take_timer-Taken c n ds h.1)

fire-IsFrozen :
    (c : Closure) (t : Option (Closure × List Closure)) (p : Provider)
    → Taken c t
    → IsFrozen c p
    → IsFrozen c (fire t p)
fire-IsFrozen c none p h v = v
fire-IsFrozen c (some (d, rest)) p (e, h) v = rw e (
    reconnect-IsFrozen c (record p { timers = rest })
      (record { sockets = v.sockets; timers = h; connected = v.connected }))

on_open-IsFrozen :
    (c : Closure) (o : Option Socket) (p : Provider) → IsFrozen c p → IsFrozen c (on_open o p)
on_open-IsFrozen c none p v = v
on_open-IsFrozen c (some s) p v =
    if_rule (IsFrozen c) (is_connecting s.phase) _ p
      (λ e. record {
        sockets = change-Holds c s.id open_socket p.sockets (λ x. refl) v.sockets;
        timers = v.timers;
        connected = v.connected;
      })
      (λ e. v)

on_close-IsFrozen :
    (c : Closure) (o : Option Socket) (p : Provider)
    → ((s : Socket) → o ≡ some s → s.handler ≡ c)
    → IsFrozen c p
    → IsFrozen c (on_close o p)
on_close-IsFrozen c none p h v = v
on_close-IsFrozen c (some s) p h v =
    if_rule (IsFrozen c) (is_closed s.phase) p _ (λ e. v)
      λ e. record {
        sockets = change-Holds c s.id closed_socket p.sockets (λ x. refl) v.sockets;
        timers = (h s refl, v.timers);
        connected = v.connected;
      }

-- Every event keeps the handlers and timers frozen.
pub step-IsFrozen :
    (c : Closure) (e : Event) (p : Provider) → IsFrozen c p → IsFrozen c (step e p).0
unfolding step
step-IsFrozen c (auth_changes b t) p v =
    run_effect-IsFrozen c _
      (record { sockets = v.sockets; timers = v.timers; connected = v.connected })
step-IsFrozen c (subscribes d f) p v =
    run_effect-IsFrozen c _
      (record { sockets = v.sockets; timers = v.timers; connected = v.connected })
step-IsFrozen c (unsubscribes d f) p v =
    run_effect-IsFrozen c _
      (record { sockets = v.sockets; timers = v.timers; connected = v.connected })
step-IsFrozen c (opens i) p v = on_open-IsFrozen c (find_socket i p.sockets) p v
step-IsFrozen c (errors i) p v = record {
  sockets = v.sockets;
  timers = v.timers;
  connected = v.connected;
}
step-IsFrozen c (closes i) p v =
    on_close-IsFrozen c (find_socket i p.sockets) p
      (λ s e. find_socket-handler c i p.sockets s v.sockets e) v
step-IsFrozen c (fires n) p v =
    fire-IsFrozen c (take_timer n p.timers) p (take_timer-Taken c n p.timers v.timers) v
step-IsFrozen c (receives i m) p v = v
