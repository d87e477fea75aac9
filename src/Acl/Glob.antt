-- ===== src/Acl/Glob.antt =====
-- internal/acl/types.go, the text that `KVRule.Compile` makes of a pattern: the pattern as pieces,
-- and what each piece becomes.
pub mod Avoids
pub mod Text
pub mod Anchors
use Prim.Native.Char.{Char, code}
use Prim.Native.String.{[], ◌∷◌}
use konsul.Prelude.{
  ℕ, Bool, true, false, not, ◌&&◌, ◌≡◌, All, and_parts, of_not, if_rule, String, List, ◌==◌,
  if◌then◌else◌,
}
use konsul.Prelude.Text.{◌<>◌}
use konsul.Acl.Replace.{elem, escape}

-- A star, two stars, or any other character.
pub data Piece : Type 0 where
  star double_star : Piece
  only : Char → Piece

abbrev pub is_star : Char → Bool
is_star c = code c == b'*'

-- Whether a star waits for a second one after the next character.
abbrev pub waits : Bool → Char → Bool
waits pending c = is_star c && not pending

-- The pieces that the next character completes; `pending` tells whether a star waits.
abbrev pub emit : Bool → Char → List Piece → List Piece
emit true c ps = if is_star c then List.◌∷◌ double_star ps else List.◌∷◌ star (List.◌∷◌ (only c) ps)
emit false c ps = if is_star c then ps else List.◌∷◌ (only c) ps

unfoldable pub pieces_from : Bool → String → List Piece
pieces_from true [] = List.◌∷◌ star List.[]
pieces_from false [] = List.[]
pieces_from pending (c ∷ s) = emit pending c (pieces_from (waits pending c) s)

abbrev pub pieces : String → List Piece
pieces s = pieces_from false s

-- What a piece becomes in the regular expression.
abbrev pub render : Piece → String
render star = "[^/]*"
render double_star = ".*"
render (only c) = escape c

unfoldable pub write : (Piece → String) → List Piece → String
write f List.[] = []
write f (List.◌∷◌ p ps) = f p <> write f ps

-- The characters that `Compile` does not treat, though they mean something in a regular
-- expression: `^`, `$`, `|` and the backslash; and with them the sign `§` of its own mark.
abbrev pub untreated : List ℕ
untreated = List.◌∷◌ 94 (List.◌∷◌ 36 (List.◌∷◌ 124 (List.◌∷◌ 92 List.[])))

abbrev pub reserved : List ℕ
reserved = List.◌∷◌ 167 untreated

-- Whether none of them occurs.
abbrev pub is_plain : String → Bool
is_plain [] = true
is_plain (c ∷ s) = not (elem (code c) reserved) && is_plain s

abbrev pub IsPlain : Piece → Type 0
IsPlain (only c) = (is_star c ≡ false) × (elem (code c) reserved ≡ false)
IsPlain _ = Unit

-- The pieces of a text without reserved characters.
pub pieces_from-IsPlain :
    (pending : Bool) (s : String) → is_plain s ≡ true → All IsPlain (pieces_from pending s)
unfolding pieces_from
pieces_from-IsPlain true [] h = (tt, tt)
pieces_from-IsPlain false [] h = tt
pieces_from-IsPlain true (c ∷ s) h =
    let (first, rest) = and_parts (not (elem (code c) reserved)) (is_plain s) h in
    if_rule (All IsPlain) (is_star c) _ _ (λ e. (tt, pieces_from-IsPlain (waits true c) s rest))
      (λ e. (tt, ((e, of_not _ first), pieces_from-IsPlain (waits true c) s rest)))
pieces_from-IsPlain false (c ∷ s) h =
    let (first, rest) = and_parts (not (elem (code c) reserved)) (is_plain s) h in
    if_rule (All IsPlain) (is_star c) _ _ (λ e. pieces_from-IsPlain (waits false c) s rest)
      (λ e. ((e, of_not _ first), pieces_from-IsPlain (waits false c) s rest))
