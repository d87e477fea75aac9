-- ===== src/Prelude/Names.antt =====
-- Collections of names: as sets, as sorted lists, and with the number of times that each stands
-- there.
use Prim.Native.Nat.{ℕ, zero, suc, ◌+◌, ◌-◌, Ordering}
use Prim.Native.String.{String, compare}
use mathlib.Core.Path.{◌≡◌, refl}
use mathlib.Core.Bool.{Bool, true, false, ◌&&◌, ◌||◌, not}
use mathlib.Core.List.{List, [], ◌∷◌, ◌++◌}
use native.Mathlib.Omega.{arith}
use text.Mathlib.Text.{◌==◌ as str_eq}
use text.Mathlib.TextEquality.{eq_iff}
use text.Mathlib.TextPositions.{compare_refl}
use konsul.Prelude.Tests.{if◌then◌else◌}
use konsul.Prelude.Lists.{keep}

unfoldable pub has : String → List String → Bool
has n [] = false
has n (m ∷ ns) = str_eq m n || has n ns

abbrev pub insert : String → List String → List String
insert n ns = if has n ns then ns else n ∷ ns

abbrev pub without : String → List String → List String
without n ns = keep (λ m. not (str_eq m n)) ns

pub has-insert : (n m : String) (ns : List String) → has n (insert m ns) ≡ (str_eq m n || has n ns)
unfolding has
has-insert n m ns = ground (arith, eq_iff m n)

pub has-without :
    (n m : String) (ns : List String) → has n (without m ns) ≡ (not (str_eq m n) && has n ns)
unfolding has
has-without n m [] = ground arith
has-without n m (k ∷ ns) = ground (arith, has-without n m ns, eq_iff k m, eq_iff k n, eq_iff m n)

pub has-append : (n : String) (ms ns : List String) → has n (ms ++ ns) ≡ (has n ms || has n ns)
unfolding has
has-append n [] ns = refl
has-append n (m ∷ ms) ns = ground (arith, has-append n ms ns)

-- `sort.Strings`: by code points, which is the order of the bytes of UTF-8.
abbrev pub before : String → String → Bool
before m n = elim (compare m n) [ Ordering.gt ↦ false | _ ↦ true ]

pub before_refl : (m n : String) → str_eq m n ≡ true → before m n ≡ true
before_refl m n h = rw ((eq_iff m n).0 h) (rw (before, compare_refl n) refl)

sort_into : String → List String → List String
sort_into n [] = n ∷ []
sort_into n (m ∷ ms) = let rest = sort_into n ms in if before n m then n ∷ m ∷ ms else m ∷ rest

unfoldable pub sort : List String → List String
unfolding sort_into
sort [] = []
sort (n ∷ ns) = sort_into n (sort ns)

has-sort_into :
    (n m : String) (ms : List String) → has n (sort_into m ms) ≡ (str_eq m n || has n ms)
unfolding has sort_into
has-sort_into n m [] = ground arith
has-sort_into n m (k ∷ ms) = ground (arith, has-sort_into n m ms)

pub has-sort : (n : String) (ns : List String) → has n (sort ns) ≡ has n ns
unfolding has sort
has-sort n [] = refl
has-sort n (m ∷ ns) = ground (arith, has-sort_into n m (sort ns), has-sort n ns)

-- How often a name occurs, and a list without its first occurrence.
unfoldable pub count : String → List String → ℕ
count n [] = 0
count n (m ∷ ns) = (if str_eq m n then 1 else 0) + count n ns

unfoldable pub remove_first : String → List String → List String
remove_first n [] = []
remove_first n (m ∷ ns) = let rest = remove_first n ns in if str_eq m n then ns else m ∷ rest

pub count-append : (n : String) (ms ns : List String) → count n (ms ++ ns) ≡ count n ms + count n ns
unfolding count
count-append n [] ns = ground arith
count-append n (m ∷ ms) ns = ground (arith, count-append n ms ns)

pub count-remove_first :
    (n m : String) (ns : List String)
    → count n (remove_first m ns) ≡ count n ns - (if str_eq m n then 1 else 0)
unfolding count remove_first
count-remove_first n m [] = ground arith
count-remove_first n m (k ∷ ns) =
    ground (arith, count-remove_first n m ns, eq_iff k m, eq_iff k n, eq_iff m n)

-- A name is in a list exactly if it occurs there.
pub has-count :
    (n : String) (ns : List String)
    → has n ns ≡ not (elim (count n ns) [ zero ↦ true | suc k ↦ false ])
unfolding has count
has-count n [] = refl
has-count n (m ∷ ns) = ground (arith, has-count n ns)
