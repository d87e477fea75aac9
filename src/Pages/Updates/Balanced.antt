-- ===== src/Pages/Updates/Balanced.antt =====
-- The subscriptions of the pages of the console, which their effects make and undo.
use konsul.Prelude.{
  ℕ, Bool, true, false, not, ◌&&◌, ◌||◌, Option, none, some, List, [], ◌∷◌, ◌≡◌, refl, ap, ◌∙◌,
  arith, ◌==◌, length,
}
use konsul.Value.{Value}
use konsul.Live.Subscribers.{
  Channel, callbacks, has, same_channel, add, remove, has-add, has-remove,
}
use konsul.Live.{
  Provider, Closure, Event, auth_changes, subscribes, unsubscribes, opens, errors, closes, fires,
  receives, step, run_effect, first_connect, connect, captured, on_open, on_close, fire, reconnect,
  find_socket, take_timer, Socket,
}
use konsul.Pages.Updates.{
  QueryKey, UiEvent, shows, net, Console, Handler, subscriptions, subscribe_all, unsubscribe_all,
  ui_step,
}

abbrev pub is_subscription : Event → Bool
is_subscription (subscribes d f) = true
is_subscription (unsubscribes d f) = true
is_subscription (auth_changes b t) = false
is_subscription (opens i) = false
is_subscription (errors i) = false
is_subscription (closes i) = false
is_subscription (fires n) = false
is_subscription (receives i m) = false

-- Only pages subscribe.
abbrev pub only_pages : List UiEvent → Bool
only_pages [] = true
only_pages (shows v ∷ es) = only_pages es
only_pages (net e ∷ es) = not (is_subscription e) && only_pages es

abbrev pub member : Channel → ℕ → List (Channel × ℕ) → Bool
member d g [] = false
member d g ((c, f) ∷ fs) = (same_channel c d && f == g) || member d g fs

connect-subscribers : (k : Closure) (p : Provider) → (connect k p).subscribers ≡ p.subscribers
unfolding connect
connect-subscribers k p = ground arith

first_connect-subscribers :
    (o : Option ℕ) (p : Provider) → (first_connect o p).subscribers ≡ p.subscribers
unfolding first_connect
first_connect-subscribers none p = ground (arith, connect-subscribers (captured p) p)
first_connect-subscribers (some i) p = refl

pub run_effect-subscribers : (p : Provider) → (run_effect p).subscribers ≡ p.subscribers
unfolding run_effect
run_effect-subscribers p = first_connect-subscribers p.ws _

fire-subscribers :
    (o : Option (Closure × List Closure)) (p : Provider) → (fire o p).subscribers ≡ p.subscribers
unfolding reconnect
fire-subscribers none p = refl
fire-subscribers (some (k, rest)) p =
    let q = record p { timers = rest } in
    ground (arith, run_effect-subscribers (connect k q), connect-subscribers k q)

on_open-subscribers : (o : Option Socket) (p : Provider) → (on_open o p).subscribers ≡ p.subscribers
on_open-subscribers none p = refl
on_open-subscribers (some s) p = ground arith

on_close-subscribers :
    (o : Option Socket) (p : Provider) → (on_close o p).subscribers ≡ p.subscribers
on_close-subscribers none p = refl
on_close-subscribers (some s) p = ground arith

pub step-subscribers :
    (e : Event) (p : Provider)
    → is_subscription e ≡ false
    → (step e p).0.subscribers ≡ p.subscribers
unfolding step
step-subscribers (auth_changes b t) p h = run_effect-subscribers _
step-subscribers (subscribes d f) p h = cc
step-subscribers (unsubscribes d f) p h = cc
step-subscribers (opens i) p h = on_open-subscribers (find_socket i p.sockets) p
step-subscribers (errors i) p h = refl
step-subscribers (closes i) p h = on_close-subscribers (find_socket i p.sockets) p
step-subscribers (fires n) p h = fire-subscribers (take_timer n p.timers) p
step-subscribers (receives i m) p h = refl

module _ {C : Type 0} (d : Channel) (g : ℕ) where
  -- Whether the provider has a callback on a channel.
  abbrev is_listening : Console C → Bool
  is_listening c = has g (callbacks d c.provider.subscribers)

  subscribe_all-listening :
      (hs : List (Channel × Handler C)) (c : Console C)
      → is_listening c ≡ member d g c.subscribed
      → is_listening (subscribe_all hs c) ≡ member d g (subscribe_all hs c).subscribed
  unfolding subscribe_all step
  subscribe_all-listening [] c h = h
  subscribe_all-listening ((channel, f) ∷ hs) c h =
      let p = record c.provider {
        subscribers = add channel (length c.handlers) c.provider.subscribers;
      } in
      subscribe_all-listening hs _ (
        ap (λ s. has g (callbacks d s)) (run_effect-subscribers p)
        ∙ has-add (length c.handlers) g c.provider.subscribers channel d
        ∙ ap (λ b. (same_channel channel d && length c.handlers == g) || b) h)

  pub unsubscribe_all-listening :
      (fs : List (Channel × ℕ)) (c : Console C)
      → is_listening (unsubscribe_all fs c) ≡ (not (member d g fs) && is_listening c)
  unfolding unsubscribe_all step
  unsubscribe_all-listening [] c = refl
  unsubscribe_all-listening ((channel, f) ∷ fs) c =
      let p = record c.provider { subscribers = remove channel f c.provider.subscribers } in
      let q = record c { provider = run_effect p } in
      ground (
        arith,
        unsubscribe_all-listening fs q,
        ap (λ s. has g (callbacks d s)) (run_effect-subscribers p),
        has-remove f g c.provider.subscribers channel d,
      )

  unsubscribe_all-subscribed :
      (fs : List (Channel × ℕ)) (c : Console C) → (unsubscribe_all fs c).subscribed ≡ []
  unfolding unsubscribe_all
  unsubscribe_all-subscribed [] c = refl
  unsubscribe_all-subscribed ((channel, f) ∷ fs) c = unsubscribe_all-subscribed fs _

module _ {C : Type 0} (invalidate : QueryKey → C → C) (set_data : QueryKey → Value → C → C)
    (d : Channel) (g : ℕ) where
  pub ui_step-listening :
      (e : UiEvent) (c : Console C)
      → only_pages (e ∷ []) ≡ true
      → is_listening d g c ≡ member d g c.subscribed
      → (let r = ui_step invalidate set_data e c in is_listening d g r ≡ member d g r.subscribed)
  unfolding ui_step
  ui_step-listening (shows v) c o h =
      let left = unsubscribe_all c.subscribed c in
      let nobody : is_listening d g left ≡ member d g left.subscribed = ground (
        arith,
        h,
        unsubscribe_all-listening d g c.subscribed c,
        unsubscribe_all-subscribed d g c.subscribed c,
      ) in
      subscribe_all-listening d g (subscriptions invalidate set_data v) left nobody
  ui_step-listening (net e) c o h =
      ap (λ s. has g (callbacks d s)) (step-subscribers e c.provider (ground (arith, o))) ∙ h
