-- ===== src/Acl/Regexp/Reading.antt =====
-- How the expressions that `Compile` in internal/acl/types.go writes are read.
use Prim.Native.Char.{Char, code}
use Prim.Native.String.{[], ◌∷◌}
use text.Mathlib.TextLemmas.{cons-append, nil-append, append_assoc}
use mathlib.Core.Bool.{false≢true}
use konsul.Prelude.{
  Bool, true, false, String, Option, some, List, All, map, ◌||◌, ◌≡◌, refl, sym, ap, ◌∙◌, ◌==◌,
}
use konsul.Prelude.Text.{◌<>◌, starts_with}
use konsul.Acl.Pattern.{size, kv_pattern}
use konsul.Acl.Replace.{
  append_laws, starts_with-append, escape, escaped, is_special, specials, elem, elem_ne,
}
use konsul.Acl.Glob.{
  Piece, star, double_star, only, is_star, IsPlain, is_plain, untreated, reserved, pieces,
  pieces_from-IsPlain, render, write,
}
use konsul.Acl.Glob.Anchors.{kv_pattern-write}
use konsul.Acl.Regexp.{Item, literal, run_without, is_meta, put_item, read_from, read}

-- What a piece of a pattern is as an item of an expression.
abbrev pub item : Piece → Item
item star = run_without 47
item double_star = run_without 10
item (only c) = literal c

read_skip : (t s : String) → read_from (size t) (t <> s) ≡ read_from 0 s
unfolding read_from
read_skip [] s = simp append_laws
read_skip (c ∷ t) s = simp append_laws (read_skip t s)

split_star : (s : String) → "[^/]*" <> s ≡ "[" ∷ ("^/]*" <> s)
split_star s = cons-append "[" "^/]*" s

split_dot : (s : String) → ".*" <> s ≡ "." ∷ ("*" <> s)
split_dot s = cons-append "." "*" s

read_star : (s : String) → read_from 0 ("[^/]*" <> s) ≡ put_item (run_without 47) (read_from 0 s)
unfolding read_from
read_star s =
    let found : starts_with ("[" ∷ ("^/]*" <> s)) "[^/]*" ≡ true =
      rw (split_star s) at (starts_with-append "[^/]*" s) in
    rw (split_star s) (rw found (ap (put_item (run_without 47)) (read_skip "^/]*" s)))

read_dot : (s : String) → read_from 0 (".*" <> s) ≡ put_item (run_without 10) (read_from 0 s)
unfolding read_from
read_dot s =
    let found : starts_with ("." ∷ ("*" <> s)) ".*" ≡ true =
      rw (split_dot s) at (starts_with-append ".*" s) in
    rw (split_dot s) (rw found (ap (put_item (run_without 10)) (read_skip "*" s)))

or_last : (a b : Bool) → a || b ≡ false → b ≡ false
or_last true b h = absurd (false≢true (sym h))
or_last false b h = h

plain-is_meta :
    (c : Char)
    → is_special (code c) ≡ false
    → is_star c ≡ false
    → elem (code c) reserved ≡ false
    → is_meta (code c) ≡ false
plain-is_meta c h k p = rw (h, k) (or_last (code c == 167) (elem (code c) untreated) p)

read_plain :
    (c : Char) (s : String)
    → is_special (code c) ≡ false
    → is_star c ≡ false
    → elem (code c) reserved ≡ false
    → read_from 0 (c ∷ s) ≡ put_item (literal c) (read_from 0 s)
unfolding read_from
read_plain c [] h k p =
    rw
      (
        plain-is_meta c h k p,
        elem_ne (code c) 36 reserved p refl,
        elem_ne (code c) 91 specials h refl,
        elem_ne (code c) 46 specials h refl,
      )
      refl
read_plain c (d ∷ s) h k p =
    rw
      (
        plain-is_meta c h k p,
        elem_ne (code c) 36 reserved p refl,
        elem_ne (code c) 91 specials h refl,
        elem_ne (code c) 46 specials h refl,
        elem_ne (code c) 92 reserved p refl,
      )
      refl

read_pair :
    (c : Char) (s : String)
    → is_special (code c) ≡ true
    → read_from 0 ("\\" ∷ c ∷ s) ≡ put_item (literal c) (read_from 0 s)
unfolding read_from
read_pair c s h = rw h refl

append_one : (c : Char) (s : String) → (c ∷ []) <> s ≡ c ∷ s
append_one c s = simp append_laws

append_two : (c d : Char) (s : String) → (c ∷ d ∷ []) <> s ≡ c ∷ d ∷ s
append_two c d s = simp append_laws

read_escaped :
    (t : Bool) (c : Char) (s : String)
    → is_special (code c) ≡ t
    → is_star c ≡ false
    → elem (code c) reserved ≡ false
    → read_from 0 (escaped t c <> s) ≡ put_item (literal c) (read_from 0 s)
read_escaped true c s h k p = ap (read_from 0) (append_two "\\" c s) ∙ read_pair c s h
read_escaped false c s h k p = ap (read_from 0) (append_one c s) ∙ read_plain c s h k p

read_write :
    (ps : List Piece) → All IsPlain ps → read_from 0 (write render ps <> "$") ≡ some (map item ps)
unfolding write read_from
read_write List.[] h = refl
read_write (List.◌∷◌ star ps) h =
    ap (read_from 0) (append_assoc "[^/]*" (write render ps) "$")
    ∙ read_star (write render ps <> "$")
    ∙ ap (put_item (run_without 47)) (read_write ps (h.1))
read_write (List.◌∷◌ double_star ps) h =
    ap (read_from 0) (append_assoc ".*" (write render ps) "$")
    ∙ read_dot (write render ps <> "$")
    ∙ ap (put_item (run_without 10)) (read_write ps (h.1))
read_write (List.◌∷◌ (only c) ps) ((no_star, p), h) =
    ap (read_from 0) (append_assoc (escape c) (write render ps) "$")
    ∙ read_escaped (is_special (code c)) c (write render ps <> "$") refl no_star p
    ∙ ap (put_item (literal c)) (read_write ps h)

read_anchored :
    (s : String) (is : Option (List Item))
    → read_from 0 (s <> "$") ≡ is
    → read (("^" <> s) <> "$") ≡ is
read_anchored s is h =
    let split : ("^" <> s) <> "$" ≡ "^" ∷ (s <> "$") =
      append_assoc "^" s "$"
      ∙ cons-append "^" [] (s <> "$")
      ∙ ap (λ x. "^" ∷ x) (nil-append (s <> "$")) in
    rw split h

-- The expression that `Compile` makes of a pattern without the reserved characters is read as the
-- items of the pattern's pieces.
pub read-kv_pattern :
    (path : String) → is_plain path ≡ true → read (kv_pattern path) ≡ some (map item (pieces path))
read-kv_pattern path h =
    ap read (kv_pattern-write path h)
    ∙ read_anchored (write render (pieces path)) _
        (read_write (pieces path) (pieces_from-IsPlain false path h))
