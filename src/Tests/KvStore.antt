-- ===== src/Tests/KvStore.antt =====
-- Compare-and-swap on concrete stores.
use konsul.Prelude.{◌≡◌, ◌↔◌, refl, arith, true, some, List, [], ◌∷◌}
use konsul.Prelude.Dict.{find}
use konsul.KvStore.{
  KvEntry, Store, Command, set, delete, batch_delete, empty, apply, set_local, set_cas_local,
  delete_local, restore_from_snapshot, apply_all,
}
use konsul.KvStore.Notices.{value_of, events_of, replay, deletions, says_old_values}
use konsul.KvStore.Notices.Told.{gone, apply-told}
use konsul.KvStore.Swap.{succeeds, swap_read-find, restore-swap}

abbrev first_commands : List Command
first_commands = set "a" "1" ∷ set "b" "2" ∷ []

abbrev later_commands : List Command
later_commands = delete "a" ∷ set "a" "3" ∷ []

abbrev entry_of_b : KvEntry
entry_of_b = record { value = "2"; modify_index = 2; create_index = 2; flags = 0 }

swap_read-find_example :
    (succeeds
        (set_cas_local "b" "4" 2 (apply_all later_commands (apply_all first_commands empty))).0
      ≡ true)
    ↔ (find "b" (apply_all later_commands (apply_all first_commands empty)).data_ ≡ some entry_of_b)
unfolding apply_all set_local find
swap_read-find_example =
    swap_read-find first_commands later_commands "b" "4" entry_of_b (omega arith) refl

-- The entry that is written next to "b" is gone again when the snapshot is taken.
abbrev before_restore : Store
before_restore = apply_all first_commands empty

abbrev set_again : Store
set_again =
    let deleted = delete_local "c" (set_local "c" "3" before_restore) in
    set_local "c" "4" (restore_from_snapshot deleted.data_ deleted)

restore-swap_example :
    (e f : KvEntry) × (find "c" (set_local "c" "3" before_restore).data_ ≡ some e)
    × (find "c" set_again.data_ ≡ some f)
    × (e.value ≡ "3")
    × (f.value ≡ "4")
    × (f.modify_index ≡ e.modify_index)
    × (succeeds (set_cas_local "c" "5" e.modify_index set_again).0 ≡ true)
unfolding apply_all set_local delete_local find
restore-swap_example = restore-swap "c" "3" "4" "5" before_restore (omega arith) refl

abbrev batch : Command
batch = batch_delete ("a" ∷ "c" ∷ "a" ∷ [])

apply-told_example :
    (value_of (find "a" (apply batch before_restore).data_)
      ≡ replay "a" (events_of batch before_restore) (value_of (find "a" before_restore.data_)))
    × (deletions "a" (events_of batch before_restore)
        ≡ gone (find "a" before_restore.data_) (find "a" (apply batch before_restore).data_))
    × (says_old_values before_restore.data_ (events_of batch before_restore) ≡ true)
apply-told_example = apply-told "a" batch before_restore
