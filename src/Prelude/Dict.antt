-- ===== src/Prelude/Dict.antt =====
-- Maps from texts, Go's `map[string]T`: entries with different keys.
use mathlib.Core.Path.{◌≡◌}
use mathlib.Core.Option.{Option, none, some}
use mathlib.Core.List.{List, [], ◌∷◌}
use Prim.Native.String.{String}
use native.Mathlib.Omega.{arith}
use text.Mathlib.Text.{◌==◌ as str_eq}
use text.Mathlib.TextEquality.{eq_iff}
use konsul.Prelude.Tests.{if◌then◌else◌}
use konsul.Prelude.Lists.{All}

abbrev pub Dict {ℓ} : Type ℓ → Type ℓ
Dict A = List (String × A)

module _ {ℓ} {A : Type ℓ} where
  unfoldable pub find : String → Dict A → Option A
  find k [] = none
  find k ((j, v) ∷ d) = if str_eq j k then some v else find k d

  unfoldable pub erase : String → Dict A → Dict A
  erase k [] = []
  erase k ((j, v) ∷ d) = let rest = erase k d in if str_eq j k then rest else (j, v) ∷ rest

  unfoldable pub put : String → A → Dict A → Dict A
  unfolding erase
  put k v d = (k, v) ∷ erase k d

  pub find-erase :
      (k j : String) (d : Dict A) → find j (erase k d) ≡ (if str_eq k j then none else find j d)
  unfolding find erase
  find-erase k j [] = ground arith
  find-erase k j ((i, v) ∷ d) = ground (arith, find-erase k j d, eq_iff i k, eq_iff i j, eq_iff k j)

  pub find-put :
      (k : String) (v : A) (j : String) (d : Dict A)
      → find j (put k v d) ≡ (if str_eq k j then some v else find j d)
  unfolding find put
  find-put k v j d = ground (arith, find-erase k j d)

  -- A fact about all entries survives an erasure.
  pub All-erase {κ} :
      (P : String × A → Type κ) (k : String) (d : Dict A) → All P d → All P (erase k d)
  unfolding erase
  All-erase P k [] h = tt
  All-erase P k ((j, v) ∷ d) h = ground (arith, All-erase P k d h.1)

pub ruleset dict_laws = (find-erase, find-put)
