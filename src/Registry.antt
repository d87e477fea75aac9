-- ===== src/Registry.antt =====
-- internal/store/service.go and service_index.go: the service registry as the replicas apply
-- committed commands to it, with the two indices that the queries use, and the removal of services
-- that have expired. A Go map is walked in any order: where the code does so, the entries come as
-- a list. `now` is what `time.Now()` gives.
pub mod Validate
pub mod Index
pub mod Agrees
pub mod Restore
pub mod Commands
pub mod Query
pub mod Cleanup
pub mod Fresh
pub mod Swap
pub mod Lease
use konsul.Prelude.{
  ◌⊎◌, inl, inr, ℕ, zero, suc, ◌+◌, Bool, true, false, not, String, Option, none, some, List, [],
  ◌∷◌, ◌++◌, ◌==◌, ltb, leb, map, if◌then◌else◌,
}
use konsul.Prelude.Dict.{Dict, find, put, erase}
use konsul.Prelude.Names.{insert, without, remove_first}
use konsul.Prelude.Keys.{keys}
use konsul.KvStore.{next_index}
use Validate.{Service, Invalid, validate_service}

pub record Entry : Type 0 where
  pub service : Service
  pub expires_at : ℕ
  pub modify_index : ℕ
  pub create_index : ℕ

-- Tag to names; metadata key to value to names.
abbrev pub TagIndex : Type 0
TagIndex = Dict (List String)

abbrev pub MetaIndex : Type 0
MetaIndex = Dict (Dict (List String))

pub record Registry : Type 0 where
  pub data_ : Dict Entry
  pub tag_index : TagIndex
  pub meta_index : MetaIndex
  pub global_index : ℕ
  pub ttl : ℕ

-- `NewServiceStoreWithTTL`.
abbrev pub new_registry : ℕ → Registry
new_registry ttl = record {
  data_ = [];
  tag_index = [];
  meta_index = [];
  global_index = 0;
  ttl = ttl;
}

abbrev pub or_empty {ℓ} : {A : Type ℓ} → Option (List A) → List A
or_empty none = []
or_empty (some xs) = xs

-- An entry of a map that is deleted where its list is empty.
abbrev pub put_unless_empty {ℓ} : {A : Type ℓ} → String → List A → Dict (List A) → Dict (List A)
put_unless_empty k [] d = erase k d
put_unless_empty k (x ∷ xs) d = put k (x ∷ xs) d

unfoldable pub add_to_tag_index : String → List String → TagIndex → TagIndex
unfolding find put
add_to_tag_index name [] idx = idx
add_to_tag_index name (tag ∷ tags) idx =
    add_to_tag_index name tags (put tag (insert name (or_empty (find tag idx))) idx)

abbrev pub leave_tag : String → String → Option (List String) → TagIndex → TagIndex
leave_tag name tag none idx = idx
leave_tag name tag (some names) idx = put_unless_empty tag (without name names) idx

unfoldable pub remove_from_tag_index : String → List String → TagIndex → TagIndex
unfolding find
remove_from_tag_index name [] idx = idx
remove_from_tag_index name (tag ∷ tags) idx =
    remove_from_tag_index name tags (leave_tag name tag (find tag idx) idx)

abbrev pub join_value : String → String → Dict (List String) → Dict (List String)
join_value name value values = put value (or_empty (find value values) ++ name ∷ []) values

unfoldable pub add_to_meta_index : String → Dict String → MetaIndex → MetaIndex
unfolding find put
add_to_meta_index name [] idx = idx
add_to_meta_index name ((key, value) ∷ meta) idx =
    add_to_meta_index name meta (put key (join_value name value (or_empty (find key idx))) idx)

abbrev pub leave_value :
    String → String → Option (List String) → Dict (List String) → Dict (List String)
leave_value name value none values = values
leave_value name value (some names) values = put_unless_empty value (remove_first name names) values

abbrev pub leave_key :
    String → String → String → Option (Dict (List String)) → MetaIndex → MetaIndex
leave_key name key value none idx = idx
leave_key name key value (some values) idx =
    put_unless_empty key (leave_value name value (find value values) values) idx

unfoldable pub remove_from_meta_index : String → Dict String → MetaIndex → MetaIndex
unfolding find remove_first
remove_from_meta_index name [] idx = idx
remove_from_meta_index name ((key, value) ∷ meta) idx =
    remove_from_meta_index name meta (leave_key name key value (find key idx) idx)

-- Both indices without a service that there was.
abbrev pub leave_indices : String → Option Entry → Registry → Registry
leave_indices name none s = s
leave_indices name (some old) s = record s {
  tag_index = remove_from_tag_index name old.service.tags s.tag_index;
  meta_index = remove_from_meta_index name old.service.meta s.meta_index;
}

abbrev pub created : Option Entry → ℕ → ℕ
created none new_index = new_index
created (some old) new_index = old.create_index

-- The entry is stored and added to both indices.
abbrev pub join_indices : String → Entry → Registry → Registry
join_indices name e s = record s {
  data_ = put name e s.data_;
  tag_index = add_to_tag_index name e.service.tags s.tag_index;
  meta_index = add_to_meta_index name e.service.meta s.meta_index;
}

-- What follows the validation.
unfoldable pub store_service : ℕ → Service → Registry → Registry
unfolding find put add_to_tag_index add_to_meta_index remove_from_tag_index remove_from_meta_index
store_service now service s =
    join_indices service.name
      (record {
        service = service;
        expires_at = now + s.ttl;
        modify_index = next_index s.global_index;
        create_index = created (find service.name s.data_) (next_index s.global_index);
      })
      (record (leave_indices service.name (find service.name s.data_) s) {
        global_index = next_index s.global_index;
      })

abbrev pub unless_invalid : Option Invalid → Registry → Registry → Option Invalid × Registry
unless_invalid none changed s = (none, changed)
unless_invalid (some f) changed s = (some f, s)

unfoldable pub register_local : ℕ → Service → Registry → Option Invalid × Registry
unfolding store_service
register_local now service s =
    unless_invalid (validate_service service) (store_service now service s) s

unfoldable pub deregister_local : String → Registry → Registry
unfolding find erase remove_from_tag_index remove_from_meta_index
deregister_local name s =
    let left = leave_indices name (find name s.data_) s in
    record left { data_ = erase name s.data_ }

-- Why a compare-and-swap fails; the expected and the current index.
pub data Refusal : Type 0 where
  invalid : Invalid → Refusal
  conflict : ℕ → ℕ → Refusal
  not_found : Refusal

abbrev pub check_register : ℕ → Option Entry → Option Refusal
check_register expected none = if expected == 0 then none else some not_found
check_register expected (some old) =
    if expected == 0
    then some (conflict 0 old.modify_index)
    else if old.modify_index == expected
    then none
    else some (conflict expected old.modify_index)

abbrev pub check_deregister : ℕ → Option Entry → Option Refusal
check_deregister expected none = some not_found
check_deregister expected (some old) =
    if old.modify_index == expected then none else some (conflict expected old.modify_index)

abbrev pub refused : Option Invalid → Option Refusal → Option Refusal
refused (some f) c = some (invalid f)
refused none c = c

abbrev pub unless_refused {ℓ} :
    {A : Type ℓ} → Option Refusal → A → Registry → Registry → (Refusal ⊎ A) × Registry
unless_refused none answer changed s = (inr answer, changed)
unless_refused (some f) answer changed s = (inl f, s)

unfoldable pub register_cas_local : ℕ → Service → ℕ → Registry → (Refusal ⊎ ℕ) × Registry
unfolding store_service
register_cas_local now service expected s =
    unless_refused
      (refused (validate_service service) (check_register expected (find service.name s.data_)))
      (next_index s.global_index) (store_service now service s) s

unfoldable pub deregister_cas_local : String → ℕ → Registry → (Refusal ⊎ Unit {0}) × Registry
unfolding deregister_local
deregister_cas_local name expected s =
    unless_refused (check_deregister expected (find name s.data_)) tt (deregister_local name s) s

abbrev pub extended : ℕ → Registry → Option Entry → String → Bool × Registry
extended now s none name = (false, s)
extended now s (some e) name =
    (true, record s { data_ = put name (record e { expires_at = now + s.ttl }) s.data_ })

unfoldable pub heartbeat_local : ℕ → String → Registry → Bool × Registry
unfolding find put
heartbeat_local now name s = extended now s (find name s.data_) name

-- `ExpiresAt.Before(now)`.
abbrev pub is_over : ℕ → Option Entry → Bool
is_over now none = false
is_over now (some e) = ltb e.expires_at now

abbrev pub cleanup_one : Bool → String → ℕ × Registry → ℕ × Registry
cleanup_one true name (count, s) = (suc count, deregister_local name s)
cleanup_one false name r = r

-- `CleanupExpired`, over the names of the map in some order, with the number of removals.
unfoldable pub cleanup_names : ℕ → List String → ℕ × Registry → ℕ × Registry
unfolding deregister_local
cleanup_names now [] r = r
cleanup_names now (name ∷ names) r =
    cleanup_names now names (cleanup_one (is_over now (find name r.1.data_)) name r)

unfoldable pub cleanup_expired : ℕ → Registry → ℕ × Registry
unfolding keys cleanup_names
cleanup_expired now s = cleanup_names now (keys s.data_) (0, s)

abbrev pub restored : String → Option Entry → Registry → Registry
restored name none s = s
restored name (some e) s = record (join_indices name e s) {
  global_index = if ltb s.global_index e.modify_index then e.modify_index else s.global_index;
}

unfoldable pub restore_names : List String → Dict Entry → Registry → Registry
unfolding find put add_to_tag_index add_to_meta_index
restore_names [] snapshot s = s
restore_names (name ∷ names) snapshot s =
    restore_names names snapshot (restored name (find name snapshot) s)

-- `RestoreFromSnapshot`, over the names of the snapshot in some order.
unfoldable pub restore_from_snapshot : Dict Entry → Registry → Registry
unfolding keys restore_names
restore_from_snapshot snapshot s = restore_names (keys snapshot) snapshot (new_registry s.ttl)

-- `Get`: a service is found up to the moment at which it expires.
abbrev pub still_there : ℕ → Option Entry → Option Service
still_there now none = none
still_there now (some e) = if ltb e.expires_at now then none else some e.service

unfoldable pub get : ℕ → String → Registry → Option Service
unfolding find
get now name s = still_there now (find name s.data_)
