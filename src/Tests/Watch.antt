-- ===== src/Tests/Watch.antt =====
-- Watchers on concrete changes.
use konsul.Prelude.{Bool, true, false, ◌≡◌, refl, String, List, [], ◌∷◌}
use konsul.Prelude.Dict.{find, put}
use konsul.Watch.{
  Event, set, Manager, new_manager, notify, ManagerCall, adds, removes, receives, notifies, run,
}
use konsul.Watch.Delivery.{told, notify-told}
use konsul.Watch.Kept.{IsKept}
use konsul.Watch.Reached.{reached-IsKept}

abbrev no_match : String → String → Bool
no_match pattern key = false

abbrev may_read : List String → String → Bool
may_read [] key = false
may_read (p ∷ ps) key = true

abbrev change : Event
change = record { type_ = set; key = "app/a"; value = "1"; old_value = "" }

abbrev some_calls : List ManagerCall
some_calls =
    adds "w1" "app/**" ("reader" ∷ []) "alice"
    ∷ adds "w2" "app/a" [] "bob"
    ∷ notifies change
    ∷ receives "w1"
    ∷ adds "w3" "app/a" ("reader" ∷ []) "alice"
    ∷ removes "w2"
    ∷ []

abbrev reached : Manager
reached = run no_match may_read some_calls (new_manager 1 2)

reached-IsKept_example : IsKept reached
unfolding run find put
reached-IsKept_example = reached-IsKept no_match may_read 1 2 some_calls refl

notify-told_example :
    find "w1" (notify no_match may_read change reached).watchers
    ≡ told no_match may_read reached.buffer_size change (find "w1" reached.watchers)
unfolding run find put
notify-told_example =
    notify-told no_match may_read change reached "w1"
      (reached-IsKept no_match may_read 1 2 some_calls refl).indexed
