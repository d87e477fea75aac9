-- ===== src/Prelude/Keys.antt =====
-- The keys of a map, which differ from each other.
use mathlib.Core.Path.{◌≡◌, refl}
use mathlib.Core.Bool.{Bool, true, false, ◌&&◌, not}
use mathlib.Core.Option.{none, some}
use mathlib.Core.List.{List, [], ◌∷◌}
use Prim.Native.String.{String}
use native.Mathlib.Omega.{arith}
use text.Mathlib.Text.{◌==◌ as str_eq}
use text.Mathlib.TextEquality.{eq_iff}
use konsul.Prelude.Dict.{Dict, find, put, erase}
use konsul.Prelude.Names.{has}

unfoldable pub differ : List String → Bool
unfolding has
differ [] = true
differ (n ∷ ns) = not (has n ns) && differ ns

module _ {ℓ} {A : Type ℓ} where
  unfoldable pub keys : Dict A → List String
  keys [] = []
  keys ((k, v) ∷ d) = k ∷ keys d

  abbrev pub distinct : Dict A → Bool
  distinct d = differ (keys d)

  has-erase :
      (k j : String) (d : Dict A) → has j (keys (erase k d)) ≡ (not (str_eq k j) && has j (keys d))
  unfolding has keys erase
  has-erase k j [] = ground arith
  has-erase k j ((i, v) ∷ d) = ground (arith, has-erase k j d, eq_iff i k, eq_iff i j, eq_iff k j)

  pub distinct-erase : (k : String) (d : Dict A) → distinct d ≡ true → distinct (erase k d) ≡ true
  unfolding has keys differ erase
  distinct-erase k [] h = refl
  distinct-erase k ((i, v) ∷ d) h = ground (arith, distinct-erase k d, has-erase k i d, eq_iff i k)

  pub distinct-put :
      (k : String) (v : A) (d : Dict A) → distinct d ≡ true → distinct (put k v d) ≡ true
  unfolding has keys differ put
  distinct-put k v d h = ground (arith, distinct-erase k d h, has-erase k k d, eq_iff k k)

  -- A map has a value exactly for its keys.
  pub find-has :
      (k : String) (d : Dict A) → has k (keys d) ≡ elim (find k d) [ none ↦ false | some v ↦ true ]
  unfolding has keys find
  find-has k [] = refl
  find-has k ((i, v) ∷ d) = ground (arith, find-has k d, eq_iff i k)
