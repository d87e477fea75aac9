-- ===== src/Live/Single.antt =====
-- The live sockets of web/admin/src/contexts/WebSocketContext.tsx and the current one.
use konsul.Prelude.{
  ℕ, suc, ◌<◌, ◌≤◌, Bool, true, false, Option, none, some, List, [], ◌∷◌, ◌≡◌, refl, ap, ◌∙◌, arith,
  ◌==◌, All, if_rule, length, if◌then◌else◌,
}
use konsul.Live.Stale.{run_effect-connected}
use konsul.Live.{
  Closure, Phase, connecting, open_, closing, closed, Socket, Provider, Event, auth_changes,
  subscribes, unsubscribes, opens, errors, closes, fires, receives, captured, connect, change,
  close_socket, close_ws, first_connect, run_effect, find_socket, open_socket, closed_socket,
  take_timer, reconnect, fire, on_open, on_close, step, run, mounted, is_connecting, is_closed,
  new_socket,
}

abbrev pub is_live : Phase → Bool
is_live connecting = true
is_live open_ = true
is_live closing = false
is_live closed = false

-- Every live socket is the current one.
abbrev pub OnlyLive : Option ℕ → List Socket → Type 0
OnlyLive w = All (λ s. is_live s.phase ≡ true → w ≡ some s.id)

abbrev pub Below : ℕ → List Socket → Type 0
Below n = All (λ s. s.id < n)

abbrev pub BelowOption : Option ℕ → ℕ → Type 0
BelowOption none n = Unit
BelowOption (some i) n = i < n

pub record IsSingle (p : Provider) : Type 0 where
  pub live : OnlyLive p.ws p.sockets
  pub below : Below (length p.sockets) p.sockets
  pub current : BelowOption p.ws (length p.sockets)
  pub undone : p.cleanup ≡ p.ws

pub length-change :
    (i : ℕ) (f : Socket → Socket) (ss : List Socket) → length (change i f ss) ≡ length ss
length-change i f [] = refl
length-change i f (s ∷ ss) = ap suc (length-change i f ss)

pub change-Below :
    (n i : ℕ) (f : Socket → Socket) (ss : List Socket)
    → ((s : Socket) → (f s).id ≡ s.id)
    → Below n ss
    → Below n (change i f ss)
change-Below n i f [] same h = tt
change-Below n i f (s ∷ ss) same h = ground (arith, change-Below n i f ss same h.1, same s)

-- A change that makes no socket live.
pub change-OnlyLive :
    (w : Option ℕ) (i : ℕ) (f : Socket → Socket) (ss : List Socket)
    → ((s : Socket) → (f s).id ≡ s.id)
    → ((s : Socket) → is_live (f s).phase ≡ true → is_live s.phase ≡ true)
    → OnlyLive w ss
    → OnlyLive w (change i f ss)
change-OnlyLive w i f [] same dead h = tt
change-OnlyLive w i f (s ∷ ss) same dead h = (
  if_rule (λ (x : Socket). is_live x.phase ≡ true → w ≡ some x.id) (s.id == i) (f s) s
      (λ e l. rw (same s) (h.0 (dead s l))) (λ e. h.0),
  change-OnlyLive w i f ss same dead h.1,
)

close-is_live : (s : Socket) → is_live (close_socket s).phase ≡ false
close-is_live s = by_phase s.phase
  where
    by_phase : (x : Phase) → is_live (konsul.Live.close_phase x) ≡ false
    by_phase connecting = refl
    by_phase open_ = refl
    by_phase closing = refl
    by_phase closed = refl

-- Closing the current socket leaves none live, so any other may become the current one.
close_current :
    (w : Option ℕ) (i : ℕ) (ss : List Socket)
    → OnlyLive (some i) ss
    → OnlyLive w (change i close_socket ss)
close_current w i [] h = tt
close_current w i (s ∷ ss) h = (
  if_rule (λ (x : Socket). is_live x.phase ≡ true → w ≡ some x.id) (s.id == i) (close_socket s) s
      (λ e l. cc (close-is_live s)) (λ e l. ground (arith, h.0 l)),
  close_current w i ss h.1,
)

Below-mono : (m n : ℕ) (ss : List Socket) → m ≤ n → Below m ss → Below n ss
Below-mono m n [] e h = tt
Below-mono m n (s ∷ ss) e h = (omega arith, Below-mono m n ss e h.1)

-- The current socket has been closed: nothing is live.
abbrev NoneLive : List Socket → Type 0
NoneLive = All (λ s. is_live s.phase ≡ false)

OnlyLive-of_NoneLive : (w : Option ℕ) (ss : List Socket) → NoneLive ss → OnlyLive w ss
OnlyLive-of_NoneLive w [] h = tt
OnlyLive-of_NoneLive w (s ∷ ss) h = ((λ l. cc), OnlyLive-of_NoneLive w ss h.1)

-- Where there is no current socket, none is live.
NoneLive-of_none : (ss : List Socket) → OnlyLive none ss → NoneLive ss
NoneLive-of_none [] h = tt
NoneLive-of_none (s ∷ ss) h = (not_live (is_live s.phase) h.0, NoneLive-of_none ss h.1)
  where
    not_live : (b : Bool) → (b ≡ true → ◌≡◌ {A = Option ℕ} none (some s.id)) → b ≡ false
    not_live true k = cc (k refl)
    not_live false k = refl

close_ws-single :
    (v : Option ℕ) (ss : List Socket) (n : ℕ)
    → OnlyLive v ss
    → Below n ss
    → NoneLive (close_ws v ss) × Below n (close_ws v ss) × (length (close_ws v ss) ≡ length ss)
unfolding close_ws
close_ws-single none ss n h k = (NoneLive-of_none ss h, k, refl)
close_ws-single (some i) ss n h k = (
  NoneLive-of_none _ (close_current none i ss h),
  change-Below n i close_socket ss (λ s. refl) k,
  length-change i close_socket ss,
)

-- The effect at a render without a new connection leaves no socket live.
connected-IsSingle :
    (i : ℕ) (p : Provider)
    → p.ws ≡ some i
    → OnlyLive p.cleanup p.sockets
    → Below (length p.sockets) p.sockets
    → BelowOption p.ws (length p.sockets)
    → IsSingle (run_effect p)
connected-IsSingle i p e h k c =
    let (dead, below, same) = close_ws-single p.cleanup p.sockets (length p.sockets) h k in
    rw (run_effect-connected i p e) (record {
      live = OnlyLive-of_NoneLive _ _ dead;
      below = rw same below;
      current = rw same c;
      undone = refl;
    })

close_ws_new :
    (c : Closure) (p : Provider)
    → BelowOption p.cleanup (length p.sockets)
    → close_ws p.cleanup (new_socket c p ∷ p.sockets)
      ≡ new_socket c p ∷ close_ws p.cleanup p.sockets
unfolding close_ws
close_ws_new c p h = by_cleanup p.cleanup h
  where
    by_cleanup :
        (w : Option ℕ)
        → BelowOption w (length p.sockets)
        → close_ws w (new_socket c p ∷ p.sockets) ≡ new_socket c p ∷ close_ws w p.sockets
    by_cleanup none h = refl
    by_cleanup (some i) h = ground arith

-- A new connection takes the place of the old one.
pub connect-IsSingle :
    (c : Closure) (p : Provider)
    → c.is_authenticated ≡ true
    → IsSingle p
    → IsSingle (run_effect (connect c p))
unfolding connect
connect-IsSingle c p h v =
    if_rule (λ x. IsSingle (run_effect x)) c.is_authenticated
      (record p { sockets = new_socket c p ∷ p.sockets; ws = some (length p.sockets) }) p
      (λ e. replaced) (λ e. cc)
  where
    next : Provider
    next = record p { sockets = new_socket c p ∷ p.sockets; ws = some (length p.sockets) }

    under : BelowOption p.cleanup (length p.sockets)
    under = rw v.undone v.current

    replaced : IsSingle (run_effect next)
    replaced =
        let (dead, below, same) =
          close_ws-single p.cleanup p.sockets (length p.sockets) (rw v.undone v.live) v.below in
        rw (run_effect-connected (length p.sockets) next refl, close_ws_new c p under)
          (record {
            live = ((λ l. refl), OnlyLive-of_NoneLive _ _ dead);
            below = (omega (arith, same), Below-mono _ _ _ (omega (arith, same)) below);
            current = omega (arith, same);
            undone = refl;
          })

run_effect-none :
    (p : Provider)
    → p.ws ≡ none
    → p.cleanup ≡ none
    → run_effect p ≡ (
        let q = if p.is_authenticated then connect (captured p) p else p in
        record q { cleanup = q.ws })
unfolding run_effect first_connect close_ws
run_effect-none p hw hc =
    ap
      (λ (w : Option ℕ).
        let q = first_connect p.ws (record p { sockets = close_ws w p.sockets }) in
        record q { cleanup = q.ws })
      hc
    ∙ ap (λ (w : Option ℕ). let q = first_connect w p in record q { cleanup = q.ws }) hw

-- The state after the effect has captured the current socket.
abbrev settled : Provider → Provider
settled q = record q { cleanup = q.ws }

settled-IsSingle : (p : Provider) → IsSingle p → IsSingle (settled p)
settled-IsSingle p v = record { live = v.live; below = v.below; current = v.current; undone = refl }

first-IsSingle :
    (c : Closure) (p : Provider) → p.ws ≡ none → IsSingle p → IsSingle (settled (connect c p))
unfolding connect
first-IsSingle c p e v =
    if_rule (λ q. IsSingle (settled q)) c.is_authenticated
      (record p { sockets = new_socket c p ∷ p.sockets; ws = some (length p.sockets) }) p
      (λ _. record {
        live =
            ((λ l. refl), OnlyLive-of_NoneLive _ _ (NoneLive-of_none p.sockets (rw (← e) v.live)));
        below = (omega arith, Below-mono _ _ _ (omega arith) v.below);
        current = omega arith;
        undone = refl;
      })
      (λ _. settled-IsSingle p v)

pub effect-IsSingle :
    (w : Option ℕ) (p : Provider) → p.ws ≡ w → IsSingle p → IsSingle (run_effect p)
effect-IsSingle (some i) p e v = connected-IsSingle i p e (rw v.undone v.live) v.below v.current
effect-IsSingle none p e v = rw (run_effect-none p e (v.undone ∙ e)) (
    if_rule (λ q. IsSingle (settled q)) p.is_authenticated (connect (captured p) p) p
      (λ _. first-IsSingle (captured p) p e v) (λ _. settled-IsSingle p v))
