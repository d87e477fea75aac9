-- ===== src/Http/Storage.antt =====
-- `window.localStorage`: the keys and texts of the page's origin.
use konsul.Prelude.{
  Bool, true, false, ◌≡◌, String, Option, none, some, List, [], ◌∷◌, arith, str_eq, eq_iff,
  if◌then◌else◌,
}

abbrev pub Storage : Type 0
Storage = List (String × String)

unfoldable pub get_item : String → Storage → Option String
get_item k [] = none
get_item k ((j, v) ∷ s) = if str_eq j k then some v else get_item k s

unfoldable pub remove_item : String → Storage → Storage
remove_item k [] = []
remove_item k ((j, v) ∷ s) =
    let rest = remove_item k s in if str_eq j k then rest else (j, v) ∷ rest

unfoldable pub set_item : String → String → Storage → Storage
unfolding remove_item
set_item k v s = (k, v) ∷ remove_item k s

pub get-remove :
    (k j : String) (s : Storage)
    → get_item j (remove_item k s) ≡ (if str_eq k j then none else get_item j s)
unfolding get_item remove_item
get-remove k j [] = ground arith
get-remove k j ((i, v) ∷ s) = ground (arith, get-remove k j s, eq_iff i k, eq_iff i j, eq_iff k j)

pub get-set :
    (k v j : String) (s : Storage)
    → get_item j (set_item k v s) ≡ (if str_eq k j then some v else get_item j s)
unfolding get_item set_item
get-set k v j s = ground (arith, get-remove k j s)

pub ruleset storage_laws = (get-remove, get-set)

-- Whether something is stored under a key.
abbrev pub is_present : Option String → Bool
is_present none = false
is_present (some v) = true

abbrev pub has : String → Storage → Bool
has k s = is_present (get_item k s)

-- The laws at two keys that differ, and at one key.
pub get-set_self : (k v : String) (s : Storage) → get_item k (set_item k v s) ≡ some v
get-set_self k v s = ground (arith, get-set k v k s, eq_iff k k)

pub get-remove_self : (k : String) (s : Storage) → get_item k (remove_item k s) ≡ none
get-remove_self k s = ground (arith, get-remove k k s, eq_iff k k)

pub get-set_ne :
    (k v j : String) (s : Storage) → str_eq k j ≡ false → get_item j (set_item k v s) ≡ get_item j s
get-set_ne k v j s h = ground (arith, get-set k v j s)

pub get-remove_ne :
    (k j : String) (s : Storage) → str_eq k j ≡ false → get_item j (remove_item k s) ≡ get_item j s
get-remove_ne k j s h = ground (arith, get-remove k j s)
