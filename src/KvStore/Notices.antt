-- ===== src/KvStore/Notices.antt =====
-- The events that the operations of internal/store/kv.go send to the watchers, with what they say of
-- the values.
pub mod Replay
pub mod Told
use konsul.Prelude.{
  true, false, Bool, ℕ, ◌+◌, ◌&&◌, ◌||◌, String, Option, none, some, List, [], ◌∷◌, ◌++◌, ◌≡◌, refl,
  ap, ◌∙◌, arith, str_eq, eq_iff, is_some, if◌then◌else◌,
}
use konsul.Prelude.Dict.{Dict, find, find-put, find-erase}
use konsul.Prelude.Names.{has}
use konsul.Watch.{Event, EventType}
use konsul.KvStore.{
  KvEntry, Store, CasFault, Command, set, set_with_flags, set_cas, delete, delete_cas, batch_set,
  batch_set_cas, batch_delete, batch_delete_cas, check_set, check_delete, check_sets, check_deletes,
  unless, written, kept_flags, set_local, set_with_flags_local, set_cas_local, delete_local,
  delete_cas_local, batch_set_local, batch_delete_local, batch_set_cas_local,
  batch_delete_cas_local, apply, next_index, new_indices,
}

abbrev pub value_of : Option KvEntry → Option String
value_of none = none
value_of (some e) = some e.value

abbrev pub old_value_of : Option KvEntry → String
old_value_of none = ""
old_value_of (some e) = e.value

abbrev pub set_event : String → String → Option KvEntry → Event
set_event key value old = record {
  type_ = EventType.set;
  key = key;
  value = value;
  old_value = old_value_of old;
}

abbrev pub delete_events : String → Option KvEntry → List Event
delete_events key none = []
delete_events key (some old) =
    record { type_ = EventType.delete; key = key; value = ""; old_value = old.value } ∷ []

-- The items of a batch, with the entries that were there before it.
unfoldable pub set_events : List (String × String) → Dict KvEntry → List Event
unfolding find
set_events [] d = []
set_events ((key, value) ∷ items) d = set_event key value (find key d) ∷ set_events items d

-- The keys of a batch, each once.
unfoldable pub batch_delete_events : List String → Dict KvEntry → List Event
unfolding find has
batch_delete_events [] d = []
batch_delete_events (key ∷ keys) d =
    (if has key keys then [] else delete_events key (find key d)) ++ batch_delete_events keys d

-- `BatchDeleteCASLocal` reads the entry of a key that is listed again after its deletion.
abbrev pub last_delete_events : List String → String → Option KvEntry → List Event
last_delete_events seen key old =
    if has key seen
    then record { type_ = EventType.delete; key = key; value = ""; old_value = "" } ∷ []
    else delete_events key old

unfoldable pub cas_delete_events : List String → List String → Dict KvEntry → List Event
unfolding find has
cas_delete_events seen [] d = []
cas_delete_events seen (key ∷ keys) d =
    (if has key keys then [] else last_delete_events seen key (find key d))
    ++ cas_delete_events (key ∷ seen) keys d

-- Events are sent where there is no fault.
abbrev pub unless_fault : Option CasFault → List Event → List Event
unless_fault none events = events
unless_fault (some f) events = []

unfoldable pub events_of : Command → Store → List Event
unfolding find check_sets check_deletes set_events batch_delete_events cas_delete_events
events_of (set key value) s = set_event key value (find key s.data_) ∷ []
events_of (set_with_flags key value flags) s = set_event key value (find key s.data_) ∷ []
events_of (set_cas key value expected) s =
    unless_fault (check_set key expected (find key s.data_))
      (set_event key value (find key s.data_) ∷ [])
events_of (delete key) s = delete_events key (find key s.data_)
events_of (delete_cas key expected) s =
    unless_fault (check_delete key expected (find key s.data_))
      (delete_events key (find key s.data_))
events_of (batch_set items) s = set_events items s.data_
events_of (batch_set_cas items expected) s =
    unless_fault (check_sets items expected s.data_) (set_events items s.data_)
events_of (batch_delete keys) s = batch_delete_events keys s.data_
events_of (batch_delete_cas keys expected) s =
    unless_fault (check_deletes keys expected s.data_) (cas_delete_events [] keys s.data_)

abbrev pub is_deletion : Event → Bool
is_deletion e = elim e.type_ [ EventType.set ↦ false | EventType.delete ↦ true ]

-- What a reader of the events takes for the value of a key.
abbrev pub told_value : Event → Option String
told_value e = elim e.type_ [ EventType.set ↦ some e.value | EventType.delete ↦ none ]

unfoldable pub replay : String → List Event → Option String → Option String
replay k [] o = o
replay k (e ∷ es) o = replay k es (if str_eq e.key k then told_value e else o)

-- How many events tell of the deletion of a key.
unfoldable pub deletions : String → List Event → ℕ
deletions k [] = 0
deletions k (e ∷ es) = (if str_eq e.key k && is_deletion e then 1 else 0) + deletions k es

-- Whether each event of a write says the value that its key had.
unfoldable pub says_old_values : Dict KvEntry → List Event → Bool
unfolding find
says_old_values d [] = true
says_old_values d (e ∷ es) =
    (is_deletion e || str_eq e.old_value (old_value_of (find e.key d))) && says_old_values d es
