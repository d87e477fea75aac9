-- ===== src/Live/Return.antt =====
-- The timers of web/admin/src/contexts/WebSocketContext.tsx after the user has left.
use konsul.Prelude.{
  ℕ, suc, true, false, Option, none, some, List, [], ◌∷◌, ◌≡◌, refl, ap, ◌∙◌, length, if_rule,
}
use konsul.Live.Stale.{Holds, IsFrozen, step-IsFrozen, find_socket-handler, run_effect-connected}
use konsul.Live.Single.{length-change}
use konsul.Live.{
  Closure, Socket, Provider, closes, fires, connect, change, closed_socket, close_socket, close_ws,
  run_effect, find_socket, take_timer, reconnect, fire, on_close, step, run, is_closed, new_socket,
}

length-close_ws : (w : Option ℕ) (ss : List Socket) → length (close_ws w ss) ≡ length ss
unfolding close_ws
length-close_ws none ss = refl
length-close_ws (some i) ss = length-change i close_socket ss

module _ (c : Closure) (p : Provider) (h : c.is_authenticated ≡ true) where
  -- The state in which `setWs` is called.
  abbrev opened : Provider
  opened = record p { sockets = new_socket c p ∷ p.sockets; ws = some (length p.sockets) }

  abbrev rejoined : Provider
  rejoined = record opened {
    sockets = close_ws p.cleanup (new_socket c p ∷ p.sockets);
    cleanup = some (length p.sockets);
  }

  connect-eq : connect c p ≡ opened
  unfolding connect
  connect-eq = if_rule (λ x. x ≡ opened) c.is_authenticated opened p (λ _. refl) (λ e. cc)

  reconnect-eq : reconnect c p ≡ rejoined
  unfolding reconnect
  reconnect-eq =
      if_rule (λ x. x ≡ rejoined) c.is_authenticated (run_effect (connect c p)) p
        (λ _. ap run_effect connect-eq ∙ run_effect-connected (length p.sockets) opened refl)
        (λ e. cc)

-- When all sockets and timers have the closure of a sign-in, nobody is signed in any more, and a
-- socket that is not closed closes: its timer adds a socket, which is the current one, and all
-- sockets still have the closure of that sign-in.
pub reconnects_signed_out :
    (c : Closure) (p : Provider) (i : ℕ) (s : Socket)
    → IsFrozen c p
    → c.is_authenticated ≡ true
    → p.is_authenticated ≡ false
    → find_socket i p.sockets ≡ some s
    → is_closed s.phase ≡ false
    → let q = (run (closes i ∷ fires 0 ∷ []) p).0 in
      (q.is_authenticated ≡ false)
      × (q.ws ≡ some (length p.sockets))
      × (length q.sockets ≡ suc (length p.sockets))
      × Holds c q.sockets
unfolding run step
reconnects_signed_out c p i s v h out found pending = (
  rw whole out,
  rw whole (ap some same),
  rw whole (length-close_ws p.cleanup (new_socket c waiting ∷ waiting.sockets) ∙ ap suc same),
  (step-IsFrozen c (fires 0) (step (closes i) p).0 (step-IsFrozen c (closes i) p v)).sockets,
)
  where
    parted : Provider
    parted = record p {
      is_connected = false;
      sockets = change s.id closed_socket p.sockets;
      timers = s.handler ∷ p.timers;
    }

    closed_ : on_close (find_socket i p.sockets) p ≡ parted
    closed_ =
        ap (λ o. on_close o p) found
        ∙ if_rule (λ x. x ≡ parted) (is_closed s.phase) p parted (λ e. cc) (λ e. refl)

    same : length (change s.id closed_socket p.sockets) ≡ length p.sockets
    same = length-change s.id closed_socket p.sockets

    waiting : Provider
    waiting = record parted { timers = p.timers }

    whole : (run (closes i ∷ fires 0 ∷ []) p).0 ≡ rejoined c waiting h
    whole =
        ap (λ (x : Provider). fire (take_timer 0 x.timers) x) closed_
        ∙ ap (λ d. reconnect d waiting) (find_socket-handler c i p.sockets s v.sockets found)
        ∙ reconnect-eq c waiting h
