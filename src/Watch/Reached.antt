-- ===== src/Watch/Reached.antt =====
-- All calls of internal/watch/manager.go keep its lists and counts.
use konsul.Prelude.{
  ℕ, Bool, true, false, String, Option, none, some, List, [], ◌∷◌, ◌≡◌, refl, arith, if_rule,
}
use konsul.Prelude.Dict.{Dict, find, put}
use konsul.Watch.{
  Event, Watcher, Manager, new_manager, add_watcher, is_over_limit, new_watcher, unless_over,
  with_watcher, remove_watcher, send_event, matches_pattern, notified, notify_ids, notify_patterns,
  notify, take_event, receive, ManagerCall, adds, removes, receives, notifies, closes, step, is_new,
  run, all_new,
}
use konsul.Watch.Kept.{
  IsKept, new_manager-IsKept, change-IsKept, with_watcher-IsKept, removed-IsKept,
}

-- A manager with other watchers.
abbrev with_watchers : Dict Watcher → Manager → Manager
with_watchers ws m = record m { watchers = ws }

unless_over-IsKept :
    (b : Bool) (id : String) (w : Watcher) (m : Manager)
    → (b ≡ false → IsKept (with_watcher id w m))
    → IsKept m
    → IsKept (unless_over b id w m).1
unless_over-IsKept true id w m h k = k
unless_over-IsKept false id w m h k = h refl

send_event-same :
    (size : ℕ) (e : Event) (w : Watcher)
    → ((send_event size e w).pattern ≡ w.pattern) × ((send_event size e w).user_id ≡ w.user_id)
send_event-same size e w = (ground arith, ground arith)

take_event-IsKept :
    (m : Manager) (id : String) (o : Option Watcher)
    → find id m.watchers ≡ o
    → IsKept m
    → IsKept (with_watchers (take_event id o m.watchers) m)
take_event-IsKept m id none h k = k
take_event-IsKept m id (some w) h k = by_events w.events
  where
    by_events :
        (es : List Event)
        → IsKept (
            with_watchers
              (elim es [
                | [] ↦ m.watchers
                | (e ∷ rest) ↦ put id (record w { events = rest }) m.watchers
              ])
              m)
    by_events [] = k
    by_events (e ∷ es) = change-IsKept m id w (record w { events = es }) h refl refl k

module _ (path_match : String → String → Bool) (may_read : List String → String → Bool) where
  notified-IsKept :
      (m : Manager) (id : String) (o : Option Watcher) (size : ℕ) (e : Event)
      → find id m.watchers ≡ o
      → IsKept m
      → IsKept (with_watchers (notified path_match may_read id o size e m.watchers) m)
  notified-IsKept m id none size e h k = k
  notified-IsKept m id (some w) size e h k =
      if_rule (λ ws. IsKept (with_watchers ws m)) (may_read w.policies e.key) _ _
        (λ t.
          change-IsKept m id w (send_event size e w) h (send_event-same size e w).0
            (send_event-same size e w).1 k)
        (λ t. k)

  notify_ids-IsKept :
      (m : Manager) (ids : List String) (size : ℕ) (e : Event) (ws : Dict Watcher)
      → IsKept (with_watchers ws m)
      → IsKept (with_watchers (notify_ids path_match may_read ids size e ws) m)
  unfolding notify_ids
  notify_ids-IsKept m [] size e ws k = k
  notify_ids-IsKept m (id ∷ ids) size e ws k =
      notify_ids-IsKept m ids size e _
        (notified-IsKept (with_watchers ws m) id (find id ws) size e refl k)

  notify_patterns-IsKept :
      (m : Manager) (ps : Dict (List String)) (size : ℕ) (e : Event) (ws : Dict Watcher)
      → IsKept (with_watchers ws m)
      → IsKept (with_watchers (notify_patterns path_match may_read ps size e ws) m)
  unfolding notify_patterns
  notify_patterns-IsKept m [] size e ws k = k
  notify_patterns-IsKept m ((p, ids) ∷ ps) size e ws k = notify_patterns-IsKept m ps size e _ (
      if_rule (λ vs. IsKept (with_watchers vs m)) (matches_pattern path_match e.key p) _ ws
        (λ t. notify_ids-IsKept m ids size e ws k) (λ t. k))

  step-IsKept :
      (c : ManagerCall) (m : Manager)
      → is_new path_match may_read c m ≡ true
      → IsKept m
      → IsKept (step path_match may_read c m)
  unfolding step add_watcher remove_watcher receive notify
  step-IsKept (adds id pattern policies user) m n k =
      unless_over-IsKept (is_over_limit user m) id (new_watcher pattern policies user) m
        (λ room.
          with_watcher-IsKept m id (new_watcher pattern policies user) (ground (arith, n)) room k)
        k
  step-IsKept (removes id) m n k = removed-IsKept m id (find id m.watchers) refl k
  step-IsKept (receives id) m n k = take_event-IsKept m id (find id m.watchers) refl k
  step-IsKept (notifies e) m n k = notify_patterns-IsKept m m.patterns m.buffer_size e m.watchers k
  step-IsKept closes m n k =
      let e = new_manager-IsKept m.buffer_size m.max_per_client in
      record {
        indexed = record { listing = e.indexed.listing; differing = e.indexed.differing };
        distinct_ids = e.distinct_ids;
        counts = e.counts;
        limited = e.limited;
      }

  run-IsKept :
      (cs : List ManagerCall) (m : Manager)
      → all_new path_match may_read cs m ≡ true
      → IsKept m
      → IsKept (run path_match may_read cs m)
  unfolding run
  run-IsKept [] m n k = k
  run-IsKept (c ∷ cs) m n k =
      run-IsKept cs _ (ground (arith, n)) (step-IsKept c m (ground (arith, n)) k)

  -- After any calls on a new manager whose identifiers are new when they come, each watcher is
  -- listed once under its pattern and under no other, each user's count is the number of their
  -- watchers, and no user has more watchers than the limit, where there is one.
  pub reached-IsKept :
      (size limit : ℕ) (cs : List ManagerCall)
      → all_new path_match may_read cs (new_manager size limit) ≡ true
      → IsKept (run path_match may_read cs (new_manager size limit))
  reached-IsKept size limit cs n = run-IsKept cs _ n (new_manager-IsKept size limit)
