-- ===== src/Watch/Delivery.antt =====
-- Whom `Notify` of internal/watch/manager.go sends an event to.
use konsul.Prelude.{
  ℕ, zero, suc, ◌+◌, Bool, true, false, String, Option, none, some, List, [], ◌∷◌, ◌++◌, ◌&&◌,
  length, ltb, ◌≡◌, refl, ap, ◌∙◌, arith, str_eq, eq_iff, eq_refl, if◌then◌else◌,
}
use konsul.Prelude.Dict.{Dict, find, find-put}
use konsul.Prelude.Names.{has, count}
use konsul.Prelude.Keys.{keys, differ, distinct, find-has}
use konsul.Registry.{or_empty}
use konsul.Watch.{
  Event, Watcher, Manager, send_event, matches_pattern, notified, notify_ids, notify_patterns,
  notify,
}

-- How often a watcher that may be there is to be listed under a pattern.
abbrev pub listed_once : String → Option Watcher → ℕ
listed_once p none = 0
listed_once p (some w) = if str_eq w.pattern p then 1 else 0

-- Each watcher is listed once under its pattern and under no other, and the patterns differ.
pub record IsIndexed (m : Manager) : Type 0 where
  pub listing :
      (id p : String) → count id (or_empty (find p m.patterns)) ≡ listed_once p (find id m.watchers)
  pub differing : distinct m.patterns ≡ true

module _ (path_match : String → String → Bool) (may_read : List String → String → Bool) (size : ℕ)
    (e : Event) where
  -- What one sending makes of a watcher that may be there.
  abbrev pub delivered : Option Watcher → Option Watcher
  delivered none = none
  delivered (some w) = some (if may_read w.policies e.key then send_event size e w else w)

  abbrev sendings : ℕ → Option Watcher → Option Watcher
  sendings zero o = o
  sendings (suc n) o = sendings n (delivered o)

  abbrev hits : String → Bool
  hits pattern = matches_pattern path_match e.key pattern

  notified-find :
      (id j : String) (o : Option Watcher) (ws : Dict Watcher)
      → find id ws ≡ o
      → find j (notified path_match may_read id o size e ws)
        ≡ (if str_eq id j then delivered (find j ws) else find j ws)
  notified-find id j none ws h = ground (arith, h, eq_iff id j)
  notified-find id j (some w) ws h =
      ground (arith, h, eq_iff id j, find-put id (send_event size e w) j ws)

  sendings-add : (m n : ℕ) (o : Option Watcher) → sendings n (sendings m o) ≡ sendings (m + n) o
  sendings-add zero n o = let f : n ≡ 0 + n = omega arith in ap (λ k. sendings k o) f
  sendings-add (suc m) n o =
      let f : suc (m + n) ≡ suc m + n = omega arith in
      sendings-add m n (delivered o) ∙ ap (λ k. sendings k o) f

  notify_ids-find :
      (j : String) (ids : List String) (ws : Dict Watcher)
      → find j (notify_ids path_match may_read ids size e ws) ≡ sendings (count j ids) (find j ws)
  unfolding notify_ids count
  notify_ids-find j [] ws = refl
  notify_ids-find j (id ∷ ids) ws =
      notify_ids-find j ids (notified path_match may_read id (find id ws) size e ws)
      ∙ ap (sendings (count j ids)) (notified-find id j (find id ws) ws refl)
      ∙ split (str_eq id j)
    where
      split :
          (b : Bool)
          → sendings (count j ids) (if b then delivered (find j ws) else find j ws)
            ≡ sendings ((if b then 1 else 0) + count j ids) (find j ws)
      split true = sendings-add 1 (count j ids) (find j ws)
      split false = sendings-add 0 (count j ids) (find j ws)

  -- How often the matching patterns list an identifier.
  abbrev total : String → Dict (List String) → ℕ
  total j [] = 0
  total j ((p, ids) ∷ ps) = (if hits p then count j ids else 0) + total j ps

  notify_patterns-find :
      (j : String) (ps : Dict (List String)) (ws : Dict Watcher)
      → find j (notify_patterns path_match may_read ps size e ws)
        ≡ sendings (total j ps) (find j ws)
  unfolding notify_patterns
  notify_patterns-find j [] ws = refl
  notify_patterns-find j ((p, ids) ∷ ps) ws =
      notify_patterns-find j ps _
      ∙ ap (sendings (total j ps)) (first (hits p))
      ∙ sendings-add (if hits p then count j ids else 0) (total j ps) (find j ws)
    where
      first :
          (b : Bool)
          → find j (if b then notify_ids path_match may_read ids size e ws else ws)
            ≡ sendings (if b then count j ids else 0) (find j ws)
      first true = notify_ids-find j ids ws
      first false = refl

  -- An identifier that only one pattern lists.
  total-one :
      (j q : String) (ps : Dict (List String))
      → distinct ps ≡ true
      → ((p : String) → str_eq q p ≡ false → count j (or_empty (find p ps)) ≡ 0)
      → total j ps ≡ (if hits q then count j (or_empty (find q ps)) else 0)
  unfolding find keys differ has count
  total-one j q [] d h = ground arith
  total-one j q ((k, ids) ∷ ps) d h =
      let rest =
        total-one j q ps (ground (arith, d))
          (λ p n. ground (arith, d, n, h p, find-has p ps, eq_iff k p)) in
      ground (arith, rest, d, h k, find-has k ps, eq_iff k q, eq_iff q k, eq_iff k k)

-- What an event makes of a watcher: the event stands once more, as the last one, in its channel, if
-- its pattern matches the key, its policies allow to read it and the channel has room; nothing else
-- changes.
abbrev pub told :
    (String → String → Bool)
    → (List String → String → Bool)
    → ℕ
    → Event
    → Option Watcher
    → Option Watcher
told path_match may_read size e none = none
told path_match may_read size e (some w) =
    if matches_pattern path_match e.key w.pattern
      && may_read w.policies e.key
      && ltb (length w.events) size
    then some (record {
      pattern = w.pattern;
      events = w.events ++ e ∷ [];
      policies = w.policies;
      user_id = w.user_id;
    })
    else some w

-- One sending, to a watcher whose pattern matches or not.
delivered-told :
    (path_match : String → String → Bool) (may_read : List String → String → Bool) (size : ℕ)
    (e : Event) (w : Watcher)
    → (if matches_pattern path_match e.key w.pattern
        then delivered path_match may_read size e (some w)
        else some w)
      ≡ told path_match may_read size e (some w)
delivered-told path_match may_read size e w = ground arith

told-sendings :
    (path_match : String → String → Bool) (may_read : List String → String → Bool) (size : ℕ)
    (e : Event) (j : String) (m : Manager) (o : Option Watcher)
    → IsIndexed m
    → find j m.watchers ≡ o
    → sendings path_match may_read size e (total path_match may_read size e j m.patterns) o
      ≡ told path_match may_read size e o
told-sendings path_match may_read size e j m none i h =
    ap (λ n. sendings path_match may_read size e n none) nowhere
  where
    nowhere : total path_match may_read size e j m.patterns ≡ 0
    nowhere = ground (
      arith,
      h,
      i.listing j "",
      total-one path_match may_read size e j "" m.patterns i.differing
          (λ p n. i.listing j p ∙ ap (listed_once p) h),
    )
told-sendings path_match may_read size e j m (some w) i h =
    ap (λ n. sendings path_match may_read size e n (some w)) once
    ∙ by_test (matches_pattern path_match e.key w.pattern)
    ∙ delivered-told path_match may_read size e w
  where
    once :
        total path_match may_read size e j m.patterns
        ≡ (if matches_pattern path_match e.key w.pattern then 1 else 0)
    once = ground (
      arith,
      h,
      i.listing j w.pattern,
      eq_refl w.pattern,
      total-one path_match may_read size e j w.pattern m.patterns i.differing
          (λ p n. ground (arith, n, h, i.listing j p)),
    )

    by_test :
        (b : Bool)
        → sendings path_match may_read size e (if b then 1 else 0) (some w)
          ≡ (if b then delivered path_match may_read size e (some w) else some w)
    by_test true = refl
    by_test false = refl

-- An event goes, once, to each watcher whose pattern matches its key, whose policies allow to read
-- the key, and whose channel has room, and changes nothing of the others; each watcher is listed
-- once under its pattern and under no other, and the patterns differ.
pub notify-told :
    (path_match : String → String → Bool) (may_read : List String → String → Bool) (e : Event)
    (m : Manager) (j : String)
    → IsIndexed m
    → find j (notify path_match may_read e m).watchers
      ≡ told path_match may_read m.buffer_size e (find j m.watchers)
unfolding notify
notify-told path_match may_read e m j i =
    notify_patterns-find path_match may_read m.buffer_size e j m.patterns m.watchers
    ∙ told-sendings path_match may_read m.buffer_size e j m (find j m.watchers) i refl
