-- ===== src/Pages/Updates/Shown.antt =====
-- Which callbacks the provider of web/admin/src/contexts/WebSocketContext.tsx has while a page is
-- shown.
use konsul.Prelude.{
  ℕ, suc, true, false, String, Option, some, List, [], ◌∷◌, ◌≡◌, refl, ap, ◌∙◌, arith, length, map,
}
use konsul.Value.{Value, ok, get_prop, ◌>>=◌}
use konsul.Live.Subscribers.{Channel, kv, services, health, Subs, callbacks, add, set_add, has}
use konsul.Live.{step, mounted}
use konsul.Pages.Updates.{
  QueryKey, services_query, kv_list_query, kv_all_query, health_query, Visited, dashboard,
  services_page, kv_page, health_page, other_page, UiEvent, shows, net, Console, Handler,
  invalidates, updates_health, handler_of, subscriptions, subscribe_all, unsubscribe_all, ui_step,
  ui_run, console,
}
use konsul.Pages.Updates.Balanced.{
  only_pages, member, run_effect-subscribers, step-subscribers, unsubscribe_all-listening,
  ui_step-listening,
}

-- The page that is shown after some events, from the one before them.
abbrev pub shown : List UiEvent → Visited → Visited
shown [] v = v
shown (shows w ∷ es) v = shown es w
shown (net e ∷ es) v = shown es v

-- The callbacks of a channel, in their order.
abbrev pub heard : {C : Type 0} → Channel → Console C → List (Option (Handler C))
heard d c = map (λ f. handler_of f c.handlers) (callbacks d c.provider.subscribers)

-- What each page does with the messages of a channel.
module _ {C : Type 0} (invalidate : QueryKey → C → C) (set_data : QueryKey → Value → C → C) where
  abbrev refetches : QueryKey → List (Option (Handler C))
  refetches k = some (λ event c. ok (invalidate k c)) ∷ []

  abbrev stores_health : List (Option (Handler C))
  stores_health =
      some (λ event c. get_prop event "data" >>= λ v. ok (set_data health_query v c)) ∷ []

  abbrev pub listeners : Visited → Channel → List (Option (Handler C))
  listeners dashboard services = refetches services_query
  listeners dashboard kv = refetches kv_list_query
  listeners dashboard health = stores_health
  listeners services_page services = refetches services_query
  listeners services_page kv = []
  listeners services_page health = []
  listeners kv_page services = []
  listeners kv_page kv = refetches kv_all_query
  listeners kv_page health = []
  listeners health_page services = []
  listeners health_page kv = []
  listeners health_page health = stores_health
  listeners other_page d = []

nobody_listens : (fs : List ℕ) → ((g : ℕ) → has g fs ≡ false) → fs ≡ []
nobody_listens [] h = refl
nobody_listens (f ∷ fs) h = ground (arith, h f)

abbrev no_subs : Subs
no_subs = record { kv = []; services = []; health = [] }

without_callbacks : (s : Subs) → ((d : Channel) → callbacks d s ≡ []) → s ≡ no_subs
without_callbacks s h = λ i. record { kv = h kv i; services = h services i; health = h health i }

module _ {C : Type 0} where
  -- What subscribing adds to the three sets, and to the callbacks.
  abbrev added : List (Channel × Handler C) → List (ℕ × Handler C) → Subs → Subs
  added [] l s = s
  added ((d, h) ∷ hs) l s = added hs ((length l, h) ∷ l) (add d (length l) s)

  abbrev piled : List (Channel × Handler C) → List (ℕ × Handler C) → List (ℕ × Handler C)
  piled [] l = l
  piled ((d, h) ∷ hs) l = piled hs ((length l, h) ∷ l)

  subscribe_all-subscribers :
      (hs : List (Channel × Handler C)) (c : Console C)
      → (subscribe_all hs c).provider.subscribers ≡ added hs c.handlers c.provider.subscribers
  unfolding subscribe_all step
  subscribe_all-subscribers [] c = refl
  subscribe_all-subscribers ((d, h) ∷ hs) c =
      let f = length c.handlers in
      let p = record c.provider { subscribers = add d f c.provider.subscribers } in
      subscribe_all-subscribers hs _
      ∙ ap (added hs ((f, h) ∷ c.handlers)) (run_effect-subscribers p)

  subscribe_all-handlers :
      (hs : List (Channel × Handler C)) (c : Console C)
      → (subscribe_all hs c).handlers ≡ piled hs c.handlers
  unfolding subscribe_all
  subscribe_all-handlers [] c = refl
  subscribe_all-handlers ((d, h) ∷ hs) c = subscribe_all-handlers hs _

  handler_of-top :
      (n : ℕ) (h : Handler C) (l : List (ℕ × Handler C)) → handler_of n ((n, h) ∷ l) ≡ some h
  handler_of-top n h l = ground arith

  module _ (n : ℕ) (f g h : Handler C) (l : List (ℕ × Handler C)) where
    abbrev three : List (ℕ × Handler C)
    three = (suc (suc n), h) ∷ (suc n, g) ∷ (n, f) ∷ l

    handler_of-first : handler_of n three ≡ some f
    handler_of-first = ground arith

    handler_of-second : handler_of (suc n) three ≡ some g
    handler_of-second = ground arith

  abbrev heard_of : Channel → List (ℕ × Handler C) → Subs → List (Option (Handler C))
  heard_of d l s = map (λ f. handler_of f l) (callbacks d s)

module _ {C : Type 0} (invalidate : QueryKey → C → C) (set_data : QueryKey → Value → C → C) where
  page_heard :
      (v : Visited) (d : Channel) (l : List (ℕ × Handler C))
      → heard_of d
          (piled (subscriptions invalidate set_data v) l)
          (added (subscriptions invalidate set_data v) l no_subs)
        ≡ listeners invalidate set_data v d
  unfolding subscriptions add set_add
  page_heard dashboard kv l =
      ap (λ o. o ∷ [])
        (handler_of-second (length l) (invalidates invalidate set_data services_query)
          (invalidates invalidate set_data kv_list_query) (updates_health invalidate set_data) l)
  page_heard dashboard services l =
      ap (λ o. o ∷ [])
        (handler_of-first (length l) (invalidates invalidate set_data services_query)
          (invalidates invalidate set_data kv_list_query) (updates_health invalidate set_data) l)
  page_heard dashboard health l =
      ap (λ o. o ∷ [])
        (handler_of-top (suc (suc (length l))) (updates_health invalidate set_data) (
          piled
            ((services, invalidates invalidate set_data services_query)
              ∷ (kv, invalidates invalidate set_data kv_list_query)
              ∷ [])
            l))
  page_heard services_page kv l = refl
  page_heard services_page services l = ap (λ o. o ∷ []) (handler_of-top _ _ l)
  page_heard services_page health l = refl
  page_heard kv_page kv l = ap (λ o. o ∷ []) (handler_of-top _ _ l)
  page_heard kv_page services l = refl
  page_heard kv_page health l = refl
  page_heard health_page kv l = refl
  page_heard health_page services l = refl
  page_heard health_page health l = ap (λ o. o ∷ []) (handler_of-top _ _ l)
  page_heard other_page kv l = refl
  page_heard other_page services l = refl
  page_heard other_page health l = refl

  heard-shows :
      (v : Visited) (d : Channel) (c : Console C)
      → ((d : Channel) (g : ℕ)
          → has g (callbacks d c.provider.subscribers) ≡ member d g c.subscribed)
      → heard d (ui_step invalidate set_data (shows v) c) ≡ listeners invalidate set_data v d
  unfolding ui_step
  heard-shows v d c h =
      let left = unsubscribe_all c.subscribed c in
      let silent : left.provider.subscribers ≡ no_subs =
        without_callbacks left.provider.subscribers (λ e.
          nobody_listens _
            (λ g. ground (arith, h e g, unsubscribe_all-listening e g c.subscribed c))) in
      let hs = subscriptions invalidate set_data v in
      ap (λ s. heard_of d (subscribe_all hs left).handlers s)
        (subscribe_all-subscribers hs left ∙ ap (added hs left.handlers) silent)
      ∙ ap (λ l. heard_of d l (added hs left.handlers no_subs)) (subscribe_all-handlers hs left)
      ∙ page_heard v d left.handlers

  ui_run-heard :
      (d : Channel) (es : List UiEvent) (v : Visited) (c : Console C)
      → only_pages es ≡ true
      → ((d : Channel) (g : ℕ)
          → has g (callbacks d c.provider.subscribers) ≡ member d g c.subscribed)
      → heard d c ≡ listeners invalidate set_data v d
      → heard d (ui_run invalidate set_data es c) ≡ listeners invalidate set_data (shown es v) d
  unfolding ui_run
  ui_run-heard d [] v c o h e = e
  ui_run-heard d (shows w ∷ es) v c o h e =
      ui_run-heard d es w (ui_step invalidate set_data (shows w) c) o
        (λ f g. ui_step-listening invalidate set_data f g (shows w) c refl (h f g))
        (heard-shows w d c h)
  ui_run-heard d (net n ∷ es) v c o h e =
      let pages_only : only_pages (net n ∷ []) ≡ true = ground (arith, o) in
      ui_run-heard d es v (ui_step invalidate set_data (net n) c) (ground (arith, o))
        (λ f g. ui_step-listening invalidate set_data f g (net n) c pages_only (h f g))
        (unfold ui_step in
          ap (heard_of d c.handlers) (step-subscribers n c.provider (ground (arith, o))) ∙ e)

  -- Only pages subscribe, whatever else happens to the sockets and the session. On each channel the
  -- provider then has the callbacks of the page that is shown, and none of a page that was left or
  -- before any page is shown: the dashboard listens on all three channels, the services, key-value
  -- and health pages on their own, and the others on none; a message makes queries of the services
  -- or keys be fetched again, or is stored as the health.
  pub ui_run-shown :
      (protocol host : String) (x : C) (d : Channel) (es : List UiEvent)
      → only_pages es ≡ true
      → heard d (ui_run invalidate set_data es (console (mounted protocol host) x))
        ≡ listeners invalidate set_data (shown es other_page) d
  ui_run-shown protocol host x d es o =
      ui_run-heard d es other_page (console (mounted protocol host) x) o nobody_yet (nothing d)
    where
      nobody_yet :
          (e : Channel) (g : ℕ) → has g (callbacks e (mounted protocol host).subscribers) ≡ false
      nobody_yet kv g = refl
      nobody_yet services g = refl
      nobody_yet health g = refl

      nothing :
          (e : Channel)
          → heard e (console (mounted protocol host) x) ≡ listeners invalidate set_data other_page e
      nothing kv = refl
      nothing services = refl
      nothing health = refl
