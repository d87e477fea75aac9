-- ===== src/Acl/Regexp.antt =====
-- The regular expressions of Go's standard library, as far as `Compile` in internal/acl/types.go
-- writes them: characters, `[^/]*` and `.*` between the two anchors.
pub mod Reading
pub mod Fits
use Prim.Native.Char.{Char, code}
use Prim.Native.String.{[], ◌∷◌}
use konsul.Prelude.{
  ℕ, zero, suc, Bool, true, false, not, ◌&&◌, ◌||◌, String, Option, none, some, List, ◌==◌,
  if◌then◌else◌,
}
use konsul.Prelude.Text.{nonempty, starts_with}
use konsul.Acl.Replace.{elem, is_special}
use konsul.Acl.Glob.{untreated}

-- A character, or any number of characters other than one, which is given by its code.
pub data Item : Type 0 where
  literal : Char → Item
  run_without : ℕ → Item

-- The characters that stand for more than themselves.
abbrev pub is_meta : ℕ → Bool
is_meta n = is_special n || n == b'*' || elem n untreated

-- One character, or a backslash with a sign after it.
abbrev pub head_literal : String → Option (Item × ℕ)
head_literal [] = none
head_literal (c ∷ []) = if is_meta (code c) then none else some (literal c, 0)
head_literal (c ∷ d ∷ s) =
    if code c == 92
    then (if is_special (code d) then some (literal d, 1) else none)
    else if is_meta (code c)
    then none
    else some (literal c, 0)

-- The first item, with the number of characters that it takes after its first.
unfoldable pub head_item : String → Option (Item × ℕ)
unfolding starts_with
head_item s =
    if starts_with s "[^/]*"
    then some (run_without 47, 4)
    else if starts_with s ".*"
    then some (run_without 10, 1)
    else head_literal s

abbrev pub put_item : Item → Option (List Item) → Option (List Item)
put_item i none = none
put_item i (some is) = some (List.◌∷◌ i is)

-- The items up to the anchor at the end, once the next `n` characters are passed over.
unfoldable pub read_from : ℕ → String → Option (List Item)
unfolding head_item
read_from n [] = none
read_from (suc n) (c ∷ s) = read_from n s
read_from zero (c ∷ s) =
    if code c == 36 && not (nonempty s)
    then some List.[]
    else elim (head_item (c ∷ s)) [ none ↦ none | some (i, n) ↦ put_item i (read_from n s) ]

-- A run, and then what follows it.
unfoldable pub run : ℕ → (String → Bool) → String → Bool
run n rest [] = rest []
run n rest (c ∷ s) = rest (c ∷ s) || (not (code c == n) && run n rest s)

abbrev pub one : Char → (String → Bool) → String → Bool
one c rest [] = false
one c rest (d ∷ s) = code d == code c && rest s

unfoldable pub match_items : List Item → String → Bool
unfolding run
match_items List.[] s = not (nonempty s)
match_items (List.◌∷◌ (literal c) is) s = one c (match_items is) s
match_items (List.◌∷◌ (run_without n) is) s = run n (match_items is) s

-- The items of an expression that is anchored at both ends.
abbrev pub read : String → Option (List Item)
read [] = none
read (c ∷ s) = if code c == 94 then read_from 0 s else none
