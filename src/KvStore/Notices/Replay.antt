-- ===== src/KvStore/Notices/Replay.antt =====
-- The events of internal/store/kv.go against the values that they tell of.
use konsul.Prelude.{
  true, ◌&&◌, ◌||◌, String, Option, none, some, List, [], ◌∷◌, ◌++◌, ◌≡◌, refl, ap, ◌∙◌, arith,
  str_eq, eq_iff, is_some, if◌then◌else◌,
}
use konsul.Prelude.Dict.{Dict, find, find-put, find-erase}
use konsul.Prelude.Names.{has}
use konsul.Watch.{Event}
use konsul.KvStore.{
  KvEntry, Store, CasFault, Command, set, set_with_flags, set_cas, delete, delete_cas, batch_set,
  batch_set_cas, batch_delete, batch_delete_cas, check_set, check_delete, check_sets, check_deletes,
  unless, written, kept_flags, set_local, set_with_flags_local, set_cas_local, delete_local,
  delete_cas_local, batch_set_local, batch_delete_local, batch_set_cas_local,
  batch_delete_cas_local, apply, next_index, new_indices,
}
use konsul.KvStore.Notices.{
  value_of, set_event, delete_events, set_events, batch_delete_events, last_delete_events,
  cas_delete_events, unless_fault, events_of, replay,
}

set_local-find :
    (key value k : String) (s : Store)
    → value_of (find k (set_local key value s).data_)
      ≡ (if str_eq key k then some value else value_of (find k s.data_))
unfolding set_local
set_local-find key value k s =
    ground (arith, find-put key (written key value (kept_flags (find key s.data_)) s) k s.data_)

batch_set_local-replay :
    (k : String) (items : List (String × String)) (s : Store) (d : Dict KvEntry)
    → value_of (find k (batch_set_local items s).data_)
      ≡ replay k (set_events items d) (value_of (find k s.data_))
unfolding batch_set_local replay set_events
batch_set_local-replay k [] s d = refl
batch_set_local-replay k ((key, value) ∷ items) s d =
    batch_set_local-replay k items (set_local key value s) d
    ∙ ap (replay k (set_events items d)) (set_local-find key value k s)

pub delete_local-find :
    (key k : String) (s : Store)
    → find k (delete_local key s).data_ ≡ (if str_eq key k then none else find k s.data_)
unfolding delete_local
delete_local-find key k s = find-erase key k s.data_

pub batch_delete_local-find :
    (k : String) (keys : List String) (s : Store)
    → find k (batch_delete_local keys s).data_ ≡ (if has k keys then none else find k s.data_)
unfolding batch_delete_local has
batch_delete_local-find k [] s = refl
batch_delete_local-find k (key ∷ keys) s =
    ground (arith, batch_delete_local-find k keys (delete_local key s), delete_local-find key k s)

replay-append :
    (k : String) (es fs : List Event) (o : Option String)
    → replay k (es ++ fs) o ≡ replay k fs (replay k es o)
unfolding replay
replay-append k [] fs o = refl
replay-append k (e ∷ es) fs o = replay-append k es fs _

replay-delete_events :
    (k key : String) (old : Option KvEntry) (o : Option String)
    → replay k (delete_events key old) o ≡ (if str_eq key k && is_some old then none else o)
unfolding replay
replay-delete_events k key none o = ground arith
replay-delete_events k key (some e) o = ground arith

batch_delete_events-replay :
    (k : String) (keys : List String) (d : Dict KvEntry) (o : Option String)
    → replay k (batch_delete_events keys d) o
      ≡ (if has k keys && is_some (find k d) then none else o)
unfolding replay batch_delete_events has
batch_delete_events-replay k [] d o = refl
batch_delete_events-replay k (key ∷ keys) d o =
    let first = if has key keys then [] else delete_events key (find key d) in
    ground (
      arith,
      eq_iff key k,
      replay-append k first (batch_delete_events keys d) o,
      batch_delete_events-replay k keys d (replay k first o),
      replay-delete_events k key (find key d) o,
    )

replay-last_delete_events :
    (k key : String) (seen : List String) (old : Option KvEntry) (o : Option String)
    → replay k (last_delete_events seen key old) o
      ≡ (if str_eq key k && (has key seen || is_some old) then none else o)
unfolding replay
replay-last_delete_events k key seen none o = ground arith
replay-last_delete_events k key seen (some e) o = ground arith

-- The keys of a batch that are there.
cas_delete_events-replay :
    (k : String) (seen keys : List String) (d : Dict KvEntry) (o : Option String)
    → is_some (find k d) ≡ true
    → replay k (cas_delete_events seen keys d) o ≡ (if has k keys then none else o)
unfolding replay cas_delete_events has
cas_delete_events-replay k seen [] d o there = refl
cas_delete_events-replay k seen (key ∷ keys) d o there =
    let first = if has key keys then [] else last_delete_events seen key (find key d) in
    ground (
      arith,
      eq_iff key k,
      there,
      replay-append k first (cas_delete_events (key ∷ seen) keys d) o,
      cas_delete_events-replay k (key ∷ seen) keys d (replay k first o) there,
      replay-last_delete_events k key seen (find key d) o,
    )

-- A key that no entry has stays without a value.
cas_delete_events-absent :
    (k : String) (seen keys : List String) (d : Dict KvEntry)
    → replay k (cas_delete_events seen keys d) none ≡ none
unfolding replay cas_delete_events has
cas_delete_events-absent k seen [] d = refl
cas_delete_events-absent k seen (key ∷ keys) d =
    let first = if has key keys then [] else last_delete_events seen key (find key d) in
    ground (
      arith,
      replay-append k first (cas_delete_events (key ∷ seen) keys d) none,
      cas_delete_events-absent k (key ∷ seen) keys d,
      replay-last_delete_events k key seen (find key d) none,
    )

unless-replay {ℓ} :
    {A : Type ℓ} (k : String) (f : Option CasFault) (answer : A) (changed s : Store)
    (es : List Event)
    → value_of (find k changed.data_) ≡ replay k es (value_of (find k s.data_))
    → value_of (find k (unless f answer changed s).1.data_)
      ≡ replay k (unless_fault f es) (value_of (find k s.data_))
unfolding replay
unless-replay k none answer changed s es h = h
unless-replay k (some f) answer changed s es h = refl

batch_delete-replay :
    (k : String) (keys : List String) (s : Store)
    → value_of (find k (batch_delete_local keys s).data_)
      ≡ replay k (batch_delete_events keys s.data_) (value_of (find k s.data_))
batch_delete-replay k keys s = ground (
  arith,
  batch_delete_local-find k keys s,
  batch_delete_events-replay k keys s.data_ (value_of (find k s.data_)),
)

cas_delete-replay :
    (k : String) (keys : List String) (s : Store) (o : Option KvEntry)
    → find k s.data_ ≡ o
    → value_of (find k (batch_delete_local keys s).data_)
      ≡ replay k (cas_delete_events [] keys s.data_) (value_of o)
cas_delete-replay k keys s none h =
    ground (arith, h, batch_delete_local-find k keys s, cas_delete_events-absent k [] keys s.data_)
cas_delete-replay k keys s (some e) h = ground (
  arith,
  h,
  batch_delete_local-find k keys s,
  cas_delete_events-replay k [] keys s.data_ (some e.value),
)

delete-replay :
    (k key : String) (s : Store)
    → value_of (find k (delete_local key s).data_)
      ≡ replay k (delete_events key (find key s.data_)) (value_of (find k s.data_))
delete-replay k key s = ground (
  arith,
  delete_local-find key k s,
  eq_iff key k,
  replay-delete_events k key (find key s.data_) (value_of (find k s.data_)),
)

-- The events of a command, read in their order, give the values after it.
pub apply-values :
    (k : String) (c : Command) (s : Store)
    → value_of (find k (apply c s).data_) ≡ replay k (events_of c s) (value_of (find k s.data_))
unfolding apply events_of set_with_flags_local set_cas_local delete_cas_local batch_set_cas_local
    batch_delete_cas_local replay
apply-values k (set key value) s = set_local-find key value k s
apply-values k (set_with_flags key value flags) s =
    ground (arith, find-put key (written key value flags s) k s.data_)
apply-values k (set_cas key value expected) s =
    unless-replay k (check_set key expected (find key s.data_)) (next_index s.global_index)
      (set_local key value s) s (set_event key value (find key s.data_) ∷ [])
      (set_local-find key value k s)
apply-values k (delete key) s = delete-replay k key s
apply-values k (delete_cas key expected) s =
    unless-replay {A = Unit {0}} k (check_delete key expected (find key s.data_)) tt
      (delete_local key s) s (delete_events key (find key s.data_)) (delete-replay k key s)
apply-values k (batch_set items) s = batch_set_local-replay k items s s.data_
apply-values k (batch_set_cas items expected) s =
    unless-replay k (check_sets items expected s.data_) (new_indices items s)
      (batch_set_local items s) s (set_events items s.data_)
      (batch_set_local-replay k items s s.data_)
apply-values k (batch_delete keys) s = batch_delete-replay k keys s
apply-values k (batch_delete_cas keys expected) s =
    unless-replay {A = Unit {0}} k (check_deletes keys expected s.data_) tt
      (batch_delete_local keys s) s (cas_delete_events [] keys s.data_)
      (cas_delete-replay k keys s (find k s.data_) refl)
