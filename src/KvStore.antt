-- ===== src/KvStore.antt =====
-- internal/store/kv.go: the key-value store as the replicas apply committed commands to it, with
-- the indices that compare-and-swap uses. A Go map is walked in any order: where the code does
-- so, the pairs come as a list in that order. What the watchers are told is in the module Notices.
pub mod Index
pub mod Swap
pub mod Notices
use konsul.Prelude.{
  ◌⊎◌, inl, inr, ℕ, zero, suc, ◌+◌, ◌%◌, ◌^◌, Bool, not, String, Option, none, some, List, [], ◌∷◌,
  ◌==◌, leb, length, if◌then◌else◌,
}
use konsul.Prelude.Dict.{Dict, find, put, erase}

pub record KvEntry : Type 0 where
  pub value : String
  pub modify_index : ℕ
  pub create_index : ℕ
  pub flags : ℕ

pub record Store : Type 0 where
  pub data_ : Dict KvEntry
  pub global_index : ℕ

abbrev pub empty : Store
empty = record { data_ = []; global_index = 0 }

-- `CASConflictError` and `NotFoundError`, for keys.
pub data CasFault : Type 0 where
  conflict : String → ℕ → ℕ → CasFault
  not_found : String → CasFault

-- `atomic.AddUint64(&kv.globalIndex, 1)`.
abbrev pub next_index : ℕ → ℕ
next_index n = suc n % 2 ^ 64

abbrev pub created : Option KvEntry → ℕ → ℕ
created none new_index = new_index
created (some old) new_index = old.create_index

abbrev pub kept_flags : Option KvEntry → ℕ
kept_flags none = 0
kept_flags (some old) = old.flags

-- The new entry of a key, with the flags that are given.
abbrev pub written : String → String → ℕ → Store → KvEntry
written key value flags s = record {
  value = value;
  modify_index = next_index s.global_index;
  create_index = created (find key s.data_) (next_index s.global_index);
  flags = flags;
}

abbrev pub write : String → String → ℕ → Store → Store
write key value flags s = record {
  data_ = put key (written key value flags s) s.data_;
  global_index = next_index s.global_index;
}

unfoldable pub set_local : String → String → Store → Store
unfolding find put
set_local key value s = write key value (kept_flags (find key s.data_)) s

unfoldable pub set_with_flags_local : String → String → ℕ → Store → Store
unfolding find put
set_with_flags_local key value flags s = write key value flags s

-- The condition of a write: an expected index of 0 wants that there is no entry.
abbrev pub check_set : String → ℕ → Option KvEntry → Option CasFault
check_set key expected none = if expected == 0 then none else some (not_found key)
check_set key expected (some old) =
    if expected == 0
    then some (conflict key 0 old.modify_index)
    else if old.modify_index == expected
    then none
    else some (conflict key expected old.modify_index)

-- The condition of a deletion.
abbrev pub check_delete : String → ℕ → Option KvEntry → Option CasFault
check_delete key expected none = some (not_found key)
check_delete key expected (some old) =
    if old.modify_index == expected then none else some (conflict key expected old.modify_index)

-- A change that is made, with an answer, unless there is a fault.
abbrev pub unless {ℓ} : {A : Type ℓ} → Option CasFault → A → Store → Store → (CasFault ⊎ A) × Store
unless none answer changed s = (inr answer, changed)
unless (some f) answer changed s = (inl f, s)

unfoldable pub set_cas_local : String → String → ℕ → Store → (CasFault ⊎ ℕ) × Store
unfolding set_local
set_cas_local key value expected s =
    unless (check_set key expected (find key s.data_)) (next_index s.global_index)
      (set_local key value s) s

unfoldable pub delete_local : String → Store → Store
unfolding erase
delete_local key s = record s { data_ = erase key s.data_ }

unfoldable pub delete_cas_local : String → ℕ → Store → (CasFault ⊎ Unit {0}) × Store
unfolding delete_local
delete_cas_local key expected s =
    unless (check_delete key expected (find key s.data_)) tt (delete_local key s) s

unfoldable pub batch_set_local : List (String × String) → Store → Store
unfolding set_local
batch_set_local [] s = s
batch_set_local ((key, value) ∷ items) s = batch_set_local items (set_local key value s)

-- The indices that a batch of writes gives.
unfoldable pub new_indices : List (String × String) → Store → Dict ℕ
unfolding set_local put
new_indices [] s = []
new_indices ((key, value) ∷ items) s =
    put key (next_index s.global_index) (new_indices items (set_local key value s))

unfoldable pub batch_delete_local : List String → Store → Store
unfolding delete_local
batch_delete_local [] s = s
batch_delete_local (key ∷ keys) s = batch_delete_local keys (delete_local key s)

-- `expectedIndices[key]`, which is 0 where the map has no such key.
abbrev pub expected_of : Option ℕ → ℕ
expected_of none = 0
expected_of (some n) = n

abbrev pub first_fault : Option CasFault → Option CasFault → Option CasFault
first_fault none later = later
first_fault (some f) later = some f

-- The first pass over the items of a batch.
unfoldable pub check_sets : List (String × String) → Dict ℕ → Dict KvEntry → Option CasFault
unfolding find
check_sets [] expected d = none
check_sets ((key, value) ∷ items) expected d =
    first_fault (check_set key (expected_of (find key expected)) (find key d))
      (check_sets items expected d)

unfoldable pub check_deletes : List String → Dict ℕ → Dict KvEntry → Option CasFault
unfolding find
check_deletes [] expected d = none
check_deletes (key ∷ keys) expected d =
    first_fault (check_delete key (expected_of (find key expected)) (find key d))
      (check_deletes keys expected d)

unfoldable pub batch_set_cas_local :
    List (String × String) → Dict ℕ → Store → (CasFault ⊎ Dict ℕ) × Store
unfolding check_sets batch_set_local new_indices
batch_set_cas_local items expected s =
    unless (check_sets items expected s.data_) (new_indices items s) (batch_set_local items s) s

unfoldable pub batch_delete_cas_local : List String → Dict ℕ → Store → (CasFault ⊎ Unit {0}) × Store
unfolding check_deletes batch_delete_local
batch_delete_cas_local keys expected s =
    unless (check_deletes keys expected s.data_) tt (batch_delete_local keys s) s

abbrev pub max_index : Dict KvEntry → ℕ
max_index [] = 0
max_index ((key, e) ∷ d) =
    let rest = max_index d in if leb e.modify_index rest then rest else e.modify_index

-- `GetAllData` with `RestoreFromSnapshot` on what it gave.
unfoldable pub restore_from_snapshot : Dict KvEntry → Store → Store
restore_from_snapshot snapshot s = record { data_ = snapshot; global_index = max_index snapshot }

-- The commands of the log.
pub data Command : Type 0 where
  set : String → String → Command
  set_with_flags : String → String → ℕ → Command
  set_cas : String → String → ℕ → Command
  delete : String → Command
  delete_cas : String → ℕ → Command
  batch_set : List (String × String) → Command
  batch_set_cas : List (String × String) → Dict ℕ → Command
  batch_delete : List String → Command
  batch_delete_cas : List String → Dict ℕ → Command

unfoldable pub apply : Command → Store → Store
unfolding set_cas_local delete_cas_local
apply (set key value) s = set_local key value s
apply (set_with_flags key value flags) s = set_with_flags_local key value flags s
apply (set_cas key value expected) s = (set_cas_local key value expected s).1
apply (delete key) s = delete_local key s
apply (delete_cas key expected) s = (delete_cas_local key expected s).1
apply (batch_set items) s = batch_set_local items s
apply (batch_set_cas items expected) s = (batch_set_cas_local items expected s).1
apply (batch_delete keys) s = batch_delete_local keys s
apply (batch_delete_cas keys expected) s = (batch_delete_cas_local keys expected s).1

unfoldable pub apply_all : List Command → Store → Store
unfolding apply
apply_all [] s = s
apply_all (c ∷ cs) s = apply_all cs (apply c s)
