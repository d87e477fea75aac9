-- ===== src/KvStore/Notices/Told.antt =====
-- What the events of internal/store/kv.go say: the deletions that were made, the values that were
-- there before, and the values that are there after.
use mathlib.Core.Bool.{false≢true}
use konsul.Prelude.{
  sym, inl, inr, Bool-cases, true, false, not, ◌&&◌, ◌||◌, ◌+◌, ℕ, Bool, String, Option, none, some,
  List, [], ◌∷◌, ◌++◌, ◌≡◌, refl, ap, arith, str_eq, eq_iff, eq_refl, is_some, if◌then◌else◌,
}
use konsul.Prelude.Dict.{Dict, find, find-put}
use konsul.Prelude.Names.{has}
use konsul.Watch.{Event, EventType}
use konsul.KvStore.{
  KvEntry, Store, CasFault, Command, set, set_with_flags, set_cas, delete, delete_cas, batch_set,
  batch_set_cas, batch_delete, batch_delete_cas, check_set, check_delete, check_sets, check_deletes,
  unless, written, kept_flags, set_local, set_with_flags_local, set_cas_local, delete_local,
  delete_cas_local, batch_set_local, batch_delete_local, batch_set_cas_local,
  batch_delete_cas_local, apply, next_index, new_indices, expected_of, first_fault,
}
use konsul.KvStore.Notices.{
  value_of, old_value_of, set_event, delete_events, set_events, batch_delete_events,
  last_delete_events, cas_delete_events, unless_fault, events_of, replay, deletions,
  says_old_values,
}
use konsul.KvStore.Notices.Replay.{delete_local-find, batch_delete_local-find, apply-values}

-- One deletion is told of where an entry goes.
abbrev pub gone : Option KvEntry → Option KvEntry → ℕ
gone before after_ = if is_some before && not (is_some after_) then 1 else 0

module _ (k : String) where
  deletions-append : (es fs : List Event) → deletions k (es ++ fs) ≡ deletions k es + deletions k fs
  unfolding deletions
  deletions-append [] fs = omega arith
  deletions-append (e ∷ es) fs = ground (arith, deletions-append es fs)

  deletions-delete_events :
      (key : String) (old : Option KvEntry)
      → deletions k (delete_events key old) ≡ (if str_eq key k && is_some old then 1 else 0)
  unfolding deletions
  deletions-delete_events key none = ground arith
  deletions-delete_events key (some e) = ground arith

  deletions-last_delete_events :
      (key : String) (seen : List String) (old : Option KvEntry)
      → deletions k (last_delete_events seen key old)
        ≡ (if str_eq key k && (has key seen || is_some old) then 1 else 0)
  unfolding deletions
  deletions-last_delete_events key seen none = ground arith
  deletions-last_delete_events key seen (some e) = ground arith

  deletions-set_events :
      (items : List (String × String)) (d : Dict KvEntry) → deletions k (set_events items d) ≡ 0
  unfolding deletions set_events
  deletions-set_events [] d = refl
  deletions-set_events ((key, value) ∷ items) d = ground (arith, deletions-set_events items d)

  deletions-batch_delete_events :
      (keys : List String) (d : Dict KvEntry)
      → deletions k (batch_delete_events keys d)
        ≡ (if has k keys && is_some (find k d) then 1 else 0)
  unfolding deletions batch_delete_events has
  deletions-batch_delete_events [] d = refl
  deletions-batch_delete_events (key ∷ keys) d =
      let first = if has key keys then [] else delete_events key (find key d) in
      ground (
        arith,
        eq_iff key k,
        deletions-append first (batch_delete_events keys d),
        deletions-batch_delete_events keys d,
        deletions-delete_events key (find key d),
      )

  -- Where a key of the batch has an entry.
  deletions-cas_delete_events :
      (seen keys : List String) (d : Dict KvEntry)
      → (is_some (find k d) || not (has k keys)) ≡ true
      → deletions k (cas_delete_events seen keys d) ≡ (if has k keys then 1 else 0)
  unfolding deletions cas_delete_events has
  deletions-cas_delete_events seen [] d h = refl
  deletions-cas_delete_events seen (key ∷ keys) d h =
      let first = if has key keys then [] else last_delete_events seen key (find key d) in
      let rest = deletions-cas_delete_events (key ∷ seen) keys d (ground (arith, h)) in
      ground (
        arith,
        h,
        rest,
        eq_iff key k,
        deletions-append first (cas_delete_events (key ∷ seen) keys d),
        deletions-last_delete_events key seen (find key d),
      )

  first_check :
      (key : String) (n : ℕ) (o : Option KvEntry) (later : Option CasFault)
      → first_fault (check_delete key n o) later ≡ none
      → (is_some o ≡ true) × (later ≡ none)
  first_check key n none later h = absurd (false≢true (sym (ap is_some h)))
  first_check key n (some old) later h = ground (arith, h)

  -- A batch that passes its test has an entry for each of its keys.
  check_deletes-has :
      (keys : List String) (expected : Dict ℕ) (d : Dict KvEntry)
      → check_deletes keys expected d ≡ none
      → (is_some (find k d) || not (has k keys)) ≡ true
  unfolding check_deletes has
  check_deletes-has [] expected d h = ground arith
  check_deletes-has (key ∷ keys) expected d h =
      let (there, later) = first_check key (expected_of (find key expected)) (find key d) _ h in
      ground (arith, there, eq_iff key k, check_deletes-has keys expected d later)

  set_local-is_some :
      (key value : String) (s : Store)
      → is_some (find k (set_local key value s).data_) ≡ (str_eq key k || is_some (find k s.data_))
  unfolding set_local
  set_local-is_some key value s =
      ground (arith, find-put key (written key value (kept_flags (find key s.data_)) s) k s.data_)

  batch_set_local-is_some :
      (items : List (String × String)) (s : Store)
      → is_some (find k s.data_) ≡ true
      → is_some (find k (batch_set_local items s).data_) ≡ true
  unfolding batch_set_local
  batch_set_local-is_some [] s h = h
  batch_set_local-is_some ((key, value) ∷ items) s h =
      batch_set_local-is_some items (set_local key value s)
        (ground (arith, h, set_local-is_some key value s))

  unless-deletions {ℓ} :
      {A : Type ℓ} (f : Option CasFault) (answer : A) (changed s : Store) (es : List Event)
      → (f ≡ none → deletions k es ≡ gone (find k s.data_) (find k changed.data_))
      → deletions k (unless_fault f es)
        ≡ gone (find k s.data_) (find k (unless f answer changed s).1.data_)
  unfolding deletions
  unless-deletions none answer changed s es h = h refl
  unless-deletions (some f) answer changed s es h = ground arith

  set_local-deletions :
      (key value : String) (s : Store)
      → deletions k (set_event key value (find key s.data_) ∷ [])
        ≡ gone (find k s.data_) (find k (set_local key value s).data_)
  unfolding deletions
  set_local-deletions key value s = ground (arith, set_local-is_some key value s)

  batch_set_local-deletions :
      (items : List (String × String)) (s : Store) (d : Dict KvEntry)
      → deletions k (set_events items d)
        ≡ gone (find k s.data_) (find k (batch_set_local items s).data_)
  batch_set_local-deletions items s d = elim (Bool-cases (is_some (find k s.data_))) [
    | inr no_entry ↦ ground (arith, no_entry, deletions-set_events items d)
    | inl there ↦
        ground (arith, there, batch_set_local-is_some items s there, deletions-set_events items d)
  ]

  delete_local-deletions :
      (key : String) (s : Store)
      → deletions k (delete_events key (find key s.data_))
        ≡ gone (find k s.data_) (find k (delete_local key s).data_)
  delete_local-deletions key s = ground (
    arith,
    eq_iff key k,
    delete_local-find key k s,
    deletions-delete_events key (find key s.data_),
  )

  batch_delete_local-deletions :
      (keys : List String) (s : Store)
      → deletions k (batch_delete_events keys s.data_)
        ≡ gone (find k s.data_) (find k (batch_delete_local keys s).data_)
  batch_delete_local-deletions keys s =
      ground (arith, batch_delete_local-find k keys s, deletions-batch_delete_events keys s.data_)

  cas_delete-deletions :
      (keys : List String) (expected : Dict ℕ) (s : Store)
      → check_deletes keys expected s.data_ ≡ none
      → deletions k (cas_delete_events [] keys s.data_)
        ≡ gone (find k s.data_) (find k (batch_delete_local keys s).data_)
  cas_delete-deletions keys expected s h =
      let there = check_deletes-has keys expected s.data_ h in
      ground (
        arith,
        there,
        batch_delete_local-find k keys s,
        deletions-cas_delete_events [] keys s.data_ there,
      )

  apply-deletions :
      (c : Command) (s : Store)
      → deletions k (events_of c s) ≡ gone (find k s.data_) (find k (apply c s).data_)
  unfolding apply events_of set_with_flags_local set_cas_local delete_cas_local batch_set_cas_local
      batch_delete_cas_local deletions
  apply-deletions (set key value) s = set_local-deletions key value s
  apply-deletions (set_with_flags key value flags) s =
      ground (arith, find-put key (written key value flags s) k s.data_)
  apply-deletions (set_cas key value expected) s =
      unless-deletions (check_set key expected (find key s.data_)) (next_index s.global_index)
        (set_local key value s) s (set_event key value (find key s.data_) ∷ [])
        (λ h. set_local-deletions key value s)
  apply-deletions (delete key) s = delete_local-deletions key s
  apply-deletions (delete_cas key expected) s =
      unless-deletions {A = Unit {0}} (check_delete key expected (find key s.data_)) tt
        (delete_local key s) s (delete_events key (find key s.data_))
        (λ h. delete_local-deletions key s)
  apply-deletions (batch_set items) s = batch_set_local-deletions items s s.data_
  apply-deletions (batch_set_cas items expected) s =
      unless-deletions (check_sets items expected s.data_) (new_indices items s)
        (batch_set_local items s) s (set_events items s.data_)
        (λ h. batch_set_local-deletions items s s.data_)
  apply-deletions (batch_delete keys) s = batch_delete_local-deletions keys s
  apply-deletions (batch_delete_cas keys expected) s =
      unless-deletions {A = Unit {0}} (check_deletes keys expected s.data_) tt
        (batch_delete_local keys s) s (cas_delete_events [] keys s.data_)
        (cas_delete-deletions keys expected s)

module _ (d : Dict KvEntry) where
  says_old_values-append :
      (es fs : List Event)
      → says_old_values d es ≡ true
      → says_old_values d fs ≡ true
      → says_old_values d (es ++ fs) ≡ true
  unfolding says_old_values
  says_old_values-append [] fs h i = i
  says_old_values-append (e ∷ es) fs h i =
      let rest = says_old_values-append es fs (ground (arith, h)) i in ground (arith, h, rest)

  says-delete_events :
      (key : String) (old : Option KvEntry) → says_old_values d (delete_events key old) ≡ true
  unfolding says_old_values
  says-delete_events key none = refl
  says-delete_events key (some e) = refl

  says-set_events : (items : List (String × String)) → says_old_values d (set_events items d) ≡ true
  unfolding says_old_values set_events
  says-set_events [] = refl
  says-set_events ((key, value) ∷ items) =
      ground (arith, eq_refl (old_value_of (find key d)), says-set_events items)

  says-once :
      (b : Bool) (es fs : List Event)
      → says_old_values d es ≡ true
      → says_old_values d fs ≡ true
      → says_old_values d ((if b then [] else es) ++ fs) ≡ true
  says-once true es fs h i = i
  says-once false es fs h i = says_old_values-append es fs h i

  says-batch_delete_events :
      (keys : List String) → says_old_values d (batch_delete_events keys d) ≡ true
  unfolding says_old_values batch_delete_events has
  says-batch_delete_events [] = refl
  says-batch_delete_events (key ∷ keys) =
      says-once (has key keys) (delete_events key (find key d)) (batch_delete_events keys d)
        (says-delete_events key (find key d)) (says-batch_delete_events keys)

  says-last_delete_events :
      (key : String) (old : Option KvEntry) (b : Bool)
      → says_old_values d (
          if b
          then record { type_ = EventType.delete; key = key; value = ""; old_value = "" } ∷ []
          else delete_events key old)
        ≡ true
  unfolding says_old_values
  says-last_delete_events key old true = refl
  says-last_delete_events key old false = says-delete_events key old

  says-cas_delete_events :
      (seen keys : List String) → says_old_values d (cas_delete_events seen keys d) ≡ true
  unfolding says_old_values cas_delete_events has
  says-cas_delete_events seen [] = refl
  says-cas_delete_events seen (key ∷ keys) =
      says-once (has key keys) (last_delete_events seen key (find key d))
        (cas_delete_events (key ∷ seen) keys d)
        (says-last_delete_events key (find key d) (has key seen))
        (says-cas_delete_events (key ∷ seen) keys)

  says-unless_fault :
      (f : Option CasFault) (es : List Event)
      → says_old_values d es ≡ true
      → says_old_values d (unless_fault f es) ≡ true
  unfolding says_old_values
  says-unless_fault none es h = h
  says-unless_fault (some f) es h = refl

  says-set_event :
      (key value : String) → says_old_values d (set_event key value (find key d) ∷ []) ≡ true
  unfolding says_old_values
  says-set_event key value = ground (arith, eq_refl (old_value_of (find key d)))

events_of-says : (c : Command) (s : Store) → says_old_values s.data_ (events_of c s) ≡ true
unfolding events_of
events_of-says (set key value) s = says-set_event s.data_ key value
events_of-says (set_with_flags key value flags) s = says-set_event s.data_ key value
events_of-says (set_cas key value expected) s =
    says-unless_fault s.data_ (check_set key expected (find key s.data_))
      (set_event key value (find key s.data_) ∷ []) (says-set_event s.data_ key value)
events_of-says (delete key) s = says-delete_events s.data_ key (find key s.data_)
events_of-says (delete_cas key expected) s =
    says-unless_fault s.data_ (check_delete key expected (find key s.data_))
      (delete_events key (find key s.data_)) (says-delete_events s.data_ key (find key s.data_))
events_of-says (batch_set items) s = says-set_events s.data_ items
events_of-says (batch_set_cas items expected) s =
    says-unless_fault s.data_ (check_sets items expected s.data_) (set_events items s.data_)
      (says-set_events s.data_ items)
events_of-says (batch_delete keys) s = says-batch_delete_events s.data_ keys
events_of-says (batch_delete_cas keys expected) s =
    says-unless_fault s.data_ (check_deletes keys expected s.data_)
      (cas_delete_events [] keys s.data_) (says-cas_delete_events s.data_ [] keys)

-- The events that a command sends, read in their order, turn the value of a key before the command
-- into the one after it. A deletion of the key is told of once if the key had an entry before and
-- has none after, and else not at all. The event of a write says the value that its key had before
-- the command.
pub apply-told :
    (k : String) (c : Command) (s : Store)
    → (value_of (find k (apply c s).data_) ≡ replay k (events_of c s) (value_of (find k s.data_)))
      × (deletions k (events_of c s) ≡ gone (find k s.data_) (find k (apply c s).data_))
      × (says_old_values s.data_ (events_of c s) ≡ true)
apply-told k c s = (apply-values k c s, apply-deletions k c s, events_of-says c s)
