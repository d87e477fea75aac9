-- ===== src/Live/Reach.antt =====
-- The sockets of web/admin/src/contexts/WebSocketContext.tsx after any run of events.
use konsul.Prelude.{
  ℕ, true, String, Option, none, some, List, [], ◌∷◌, ◌≡◌, refl, arith, ◌==◌, if_rule,
}
use mathlib.Core.Option.{some-injective}
use konsul.Live.Single.{
  IsSingle, OnlyLive, is_live, effect-IsSingle, connect-IsSingle, change-Below, change-OnlyLive,
  length-change,
}
use konsul.Live.{
  Closure, Phase, connecting, Socket, Provider, Event, auth_changes, subscribes, unsubscribes,
  opens, errors, closes, fires, receives, connect, change, run_effect, find_socket, open_socket,
  closed_socket, take_timer, reconnect, fire, on_open, on_close, step, run, mounted, is_connecting,
  is_closed,
}

reconnect-IsSingle : (c : Closure) (p : Provider) → IsSingle p → IsSingle (reconnect c p)
unfolding reconnect
reconnect-IsSingle c p v =
    if_rule IsSingle c.is_authenticated (run_effect (connect c p)) p (λ e. connect-IsSingle c p e v)
      (λ e. v)

fire-IsSingle :
    (t : Option (Closure × List Closure)) (p : Provider) → IsSingle p → IsSingle (fire t p)
fire-IsSingle none p v = v
fire-IsSingle (some (d, rest)) p v =
    reconnect-IsSingle d (record p { timers = rest })
      (record { live = v.live; below = v.below; current = v.current; undone = v.undone })

find_socket-id :
    (i : ℕ) (ss : List Socket) (s : Socket) (w : Option ℕ)
    → OnlyLive w ss
    → find_socket i ss ≡ some s
    → is_live s.phase ≡ true
    → w ≡ some s.id
find_socket-id i [] s w h e l = cc
find_socket-id i (x ∷ ss) s w h e l =
    if_rule (λ o. o ≡ some s → w ≡ some s.id) (x.id == i) (some x) (find_socket i ss)
      (λ _ q. here (some-injective _ _ q)) (λ _ q. find_socket-id i ss s w h.1 q l) e
  where
    here : x ≡ s → w ≡ some s.id
    here same = rw same at (h.0) l

change_current :
    (i : ℕ) (f : Socket → Socket) (ss : List Socket)
    → ((s : Socket) → (f s).id ≡ s.id)
    → OnlyLive (some i) ss
    → OnlyLive (some i) (change i f ss)
change_current i f [] same h = tt
change_current i f (s ∷ ss) same h = (
  if_rule (λ (x : Socket). is_live x.phase ≡ true → some i ≡ some x.id) (s.id == i) (f s) s
      (λ e l. rw (same s) (ground arith)) (λ e. h.0),
  change_current i f ss same h.1,
)

connecting-is_live : (x : Phase) → is_connecting x ≡ true → is_live x ≡ true
connecting-is_live connecting e = refl
connecting-is_live _ e = cc

on_open-IsSingle :
    (o : Option Socket) (p : Provider)
    → ((s : Socket) → o ≡ some s → is_live s.phase ≡ true → p.ws ≡ some s.id)
    → IsSingle p
    → IsSingle (on_open o p)
on_open-IsSingle none p h v = v
on_open-IsSingle (some s) p h v =
    if_rule IsSingle (is_connecting s.phase) _ p
      (λ e.
        let w = h s refl (connecting-is_live s.phase e) in
        record {
          live = rw w (change_current s.id open_socket p.sockets (λ x. refl) (rw (← w) v.live));
          below =
              rw (length-change s.id open_socket p.sockets)
                (change-Below _ s.id open_socket p.sockets (λ x. refl) v.below);
          current = rw (length-change s.id open_socket p.sockets) v.current;
          undone = v.undone;
        })
      (λ e. v)

on_close-IsSingle : (o : Option Socket) (p : Provider) → IsSingle p → IsSingle (on_close o p)
on_close-IsSingle none p v = v
on_close-IsSingle (some s) p v =
    if_rule IsSingle (is_closed s.phase) p _ (λ e. v)
      λ e. record {
        live = change-OnlyLive p.ws s.id closed_socket p.sockets (λ x. refl) (λ x l. cc) v.live;
        below =
            rw (length-change s.id closed_socket p.sockets)
              (change-Below _ s.id closed_socket p.sockets (λ x. refl) v.below);
        current = rw (length-change s.id closed_socket p.sockets) v.current;
        undone = v.undone;
      }

step-IsSingle : (e : Event) (p : Provider) → IsSingle p → IsSingle (step e p).0
unfolding step
step-IsSingle (auth_changes b t) p v =
    effect-IsSingle p.ws _ refl
      (record { live = v.live; below = v.below; current = v.current; undone = v.undone })
step-IsSingle (subscribes d f) p v =
    effect-IsSingle p.ws _ refl
      (record { live = v.live; below = v.below; current = v.current; undone = v.undone })
step-IsSingle (unsubscribes d f) p v =
    effect-IsSingle p.ws _ refl
      (record { live = v.live; below = v.below; current = v.current; undone = v.undone })
step-IsSingle (opens i) p v =
    on_open-IsSingle (find_socket i p.sockets) p
      (λ s e l. find_socket-id i p.sockets s p.ws v.live e l) v
step-IsSingle (errors i) p v = record {
  live = v.live;
  below = v.below;
  current = v.current;
  undone = v.undone;
}
step-IsSingle (closes i) p v = on_close-IsSingle (find_socket i p.sockets) p v
step-IsSingle (fires n) p v = fire-IsSingle (take_timer n p.timers) p v
step-IsSingle (receives i m) p v = v

run-IsSingle : (es : List Event) (p : Provider) → IsSingle p → IsSingle (run es p).0
unfolding run
run-IsSingle [] p v = v
run-IsSingle (e ∷ es) p v = run-IsSingle es (step e p).0 (step-IsSingle e p v)

-- After any events, from the mount on, a socket that is connecting or open is the current one:
-- there are never two live connections.
pub run-OnlyLive :
    (protocol host : String) (es : List Event)
    → OnlyLive (run es (mounted protocol host)).0.ws (run es (mounted protocol host)).0.sockets
run-OnlyLive protocol host es =
    (run-IsSingle es (mounted protocol host)
      (record { live = tt; below = tt; current = tt; undone = refl })).live
