-- ===== src/Registry/Index.antt =====
-- What the two indices of internal/store/service_index.go hold after a service joins or leaves.
use konsul.Prelude.{
  ℕ, ◌+◌, ◌-◌, Bool, not, ◌&&◌, ◌||◌, String, Option, none, some, List, [], ◌∷◌, ◌++◌, ◌≡◌, refl,
  arith, str_eq, eq_iff, if◌then◌else◌,
}
use konsul.Prelude.Dict.{Dict, find, put, find-put, find-erase}
use konsul.Prelude.Names.{
  has, insert, without, has-insert, has-without, count, remove_first, count-append,
  count-remove_first,
}
use konsul.Registry.{
  TagIndex, MetaIndex, or_empty, put_unless_empty, leave_tag, leave_value, leave_key, join_value,
  add_to_tag_index, remove_from_tag_index, add_to_meta_index, remove_from_meta_index,
}

-- A list that is stored unless it is empty is read back.
pub stored {ℓ} :
    {A : Type ℓ} (k j : String) (xs : List A) (d : Dict (List A))
    → or_empty (find j (put_unless_empty k xs d)) ≡ (if str_eq k j then xs else or_empty (find j d))
stored k j [] d = ground (arith, find-erase k j d)
stored k j (x ∷ xs) d = ground (arith, find-put k (x ∷ xs) j d)

-- Whether the index has the name under the tag.
abbrev pub tagged : String → String → TagIndex → Bool
tagged tag name idx = has name (or_empty (find tag idx))

tagged-put :
    (tag t name n : String) (idx : TagIndex)
    → tagged t n (put tag (insert name (or_empty (find tag idx))) idx)
      ≡ ((str_eq name n && str_eq tag t) || tagged t n idx)
tagged-put tag t name n idx = ground (
  arith,
  find-put tag (insert name (or_empty (find tag idx))) t idx,
  eq_iff tag t,
  has-insert n name (or_empty (find tag idx)),
)

tagged-leave_tag :
    (tag t name n : String) (idx : TagIndex) (o : Option (List String))
    → find tag idx ≡ o
    → tagged t n (leave_tag name tag o idx)
      ≡ (not (str_eq name n && str_eq tag t) && tagged t n idx)
unfolding has
tagged-leave_tag tag t name n idx none h = ground (arith, eq_iff tag t)
tagged-leave_tag tag t name n idx (some names) h =
    ground (arith, eq_iff tag t, stored tag t (without name names) idx, has-without n name names)

pub tagged-add_to_tag_index :
    (t n name : String) (tags : List String) (idx : TagIndex)
    → tagged t n (add_to_tag_index name tags idx)
      ≡ ((str_eq name n && has t tags) || tagged t n idx)
unfolding add_to_tag_index has
tagged-add_to_tag_index t n name [] idx = ground arith
tagged-add_to_tag_index t n name (tag ∷ tags) idx = ground (
  arith,
  tagged-add_to_tag_index t n name tags (put tag (insert name (or_empty (find tag idx))) idx),
  tagged-put tag t name n idx,
)

pub tagged-remove_from_tag_index :
    (t n name : String) (tags : List String) (idx : TagIndex)
    → tagged t n (remove_from_tag_index name tags idx)
      ≡ (not (str_eq name n && has t tags) && tagged t n idx)
unfolding remove_from_tag_index has
tagged-remove_from_tag_index t n name [] idx = ground arith
tagged-remove_from_tag_index t n name (tag ∷ tags) idx = ground (
  arith,
  tagged-remove_from_tag_index t n name tags (leave_tag name tag (find tag idx) idx),
  tagged-leave_tag tag t name n idx (find tag idx) refl,
)

-- How often the index has the name under the key and the value.
abbrev pub listed : String → String → String → MetaIndex → ℕ
listed key value name idx = count name (or_empty (find value (or_empty (find key idx))))

abbrev pub times : String → String → Dict String → ℕ
times key value [] = 0
times key value ((k, v) ∷ meta) =
    (if str_eq k key && str_eq v value then 1 else 0) + times key value meta

join_value-count :
    (v value name n : String) (values : Dict (List String))
    → count n (or_empty (find value (join_value name v values)))
      ≡ count n (or_empty (find value values)) + (if str_eq name n && str_eq v value then 1 else 0)
unfolding count
join_value-count v value name n values = ground (
  arith,
  find-put v (or_empty (find v values) ++ name ∷ []) value values,
  eq_iff v value,
  count-append n (or_empty (find v values)) (name ∷ []),
)

leave_value-count :
    (v value name n : String) (values : Dict (List String)) (o : Option (List String))
    → find v values ≡ o
    → count n (or_empty (find value (leave_value name v o values)))
      ≡ count n (or_empty (find value values)) - (if str_eq name n && str_eq v value then 1 else 0)
unfolding count
leave_value-count v value name n values none h = ground (arith, eq_iff v value)
leave_value-count v value name n values (some names) h = ground (
  arith,
  stored v value (remove_first name names) values,
  eq_iff v value,
  count-remove_first n name names,
)

leave_key-listed :
    (k v key value name n : String) (idx : MetaIndex) (o : Option (Dict (List String)))
    → find k idx ≡ o
    → listed key value n (leave_key name k v o idx)
      ≡ listed key value n idx
        - (if str_eq name n && (str_eq k key && str_eq v value) then 1 else 0)
unfolding count find
leave_key-listed k v key value name n idx none h = ground (arith, eq_iff k key)
leave_key-listed k v key value name n idx (some values) h = ground (
  arith,
  stored k key (leave_value name v (find v values) values) idx,
  eq_iff k key,
  leave_value-count v value name n values (find v values) refl,
)

join-listed :
    (k v key value name n : String) (idx : MetaIndex)
    → listed key value n (put k (join_value name v (or_empty (find k idx))) idx)
      ≡ listed key value n idx
        + (if str_eq name n && (str_eq k key && str_eq v value) then 1 else 0)
join-listed k v key value name n idx = ground (
  arith,
  find-put k (join_value name v (or_empty (find k idx))) key idx,
  eq_iff k key,
  join_value-count v value name n (or_empty (find k idx)),
)

pub listed-add_to_meta_index :
    (key value n name : String) (meta : Dict String) (idx : MetaIndex)
    → listed key value n (add_to_meta_index name meta idx)
      ≡ listed key value n idx + (if str_eq name n then times key value meta else 0)
unfolding add_to_meta_index
listed-add_to_meta_index key value n name [] idx = ground arith
listed-add_to_meta_index key value n name ((k, v) ∷ meta) idx = ground (
  arith,
  listed-add_to_meta_index key value n name meta
      (put k (join_value name v (or_empty (find k idx))) idx),
  join-listed k v key value name n idx,
)

pub listed-remove_from_meta_index :
    (key value n name : String) (meta : Dict String) (idx : MetaIndex)
    → listed key value n (remove_from_meta_index name meta idx)
      ≡ listed key value n idx - (if str_eq name n then times key value meta else 0)
unfolding remove_from_meta_index
listed-remove_from_meta_index key value n name [] idx = ground arith
listed-remove_from_meta_index key value n name ((k, v) ∷ meta) idx = ground (
  arith,
  listed-remove_from_meta_index key value n name meta (leave_key name k v (find k idx) idx),
  leave_key-listed k v key value name n idx (find k idx) refl,
)
