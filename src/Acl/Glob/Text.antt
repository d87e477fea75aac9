-- ===== src/Acl/Glob/Text.antt =====
-- The replacements of `KVRule.Compile` in internal/acl/types.go, piece by piece.
use Prim.Native.Char.{Char, code}
use Prim.Native.String.{[], ◌∷◌}
use text.Mathlib.TextLemmas.{nil-append, cons-append, append_assoc}
use konsul.Prelude.{
  Bool, true, false, String, List, ◌≡◌, All, not, and_parts, of_not, refl, sym, ap, ◌∙◌, ◌==◌, inl,
  inr, Bool-cases,
}
use konsul.Prelude.Text.{◌<>◌, starts_with}
use konsul.Acl.Glob.Avoids.{avoids, avoids-escaped}
use konsul.Acl.Pattern.{replace_from, replace_all, escape_all}
use konsul.Acl.Replace.{
  elem_ne, escape_all-spread, codes_path, backslash, escape, escaped, is_special, spread,
  append_laws, replace_all_found, replace_all_kept, replace_all-spread, spread-append, swap,
}
use konsul.Acl.Glob.{
  Piece, star, double_star, only, is_star, IsPlain, reserved, is_plain, pieces_from-IsPlain,
  pieces_from, pieces, render, write,
}

abbrev pub mark : String
mark = "§DOUBLESTAR§"

-- The pieces after two stars are marked.
abbrev marked : Piece → String
marked star = "*"
marked double_star = mark
marked (only c) = escape c

-- The first replacement, of two stars by the mark.
abbrev pub mark_all : String → String
mark_all s = replace_all "**" mark s

mark_all_plain : (c : Char) (s : String) → is_star c ≡ false → mark_all (c ∷ s) ≡ c ∷ mark_all s
unfolding starts_with
mark_all_plain c s h = replace_all_kept "**" mark c s (rw h refl)

mark_all-escaped :
    (t : Bool) (c : Char) (s : String)
    → is_star c ≡ false
    → mark_all (escaped t c <> s) ≡ escaped t c <> mark_all s
mark_all-escaped true c s h =
    simp append_laws
      (mark_all_plain backslash (c ∷ s) refl ∙ ap (λ x. backslash ∷ x) (mark_all_plain c s h))
mark_all-escaped false c s h = simp append_laws (mark_all_plain c s h)

-- Two stars are found; a star before another character is kept.
mark_all_stars : (s : String) → mark_all ("*" <> "*" <> s) ≡ mark <> mark_all s
mark_all_stars s = ap mark_all (sym (append_assoc "*" "*" s)) ∙ replace_all_found "*" "*" mark s

star-append : (s : String) → "*" <> s ≡ "*" ∷ s
star-append s = cons-append "*" [] s ∙ ap (λ x. "*" ∷ x) (nil-append s)

mark_all_star : (s : String) → starts_with s "*" ≡ false → mark_all ("*" <> s) ≡ "*" <> mark_all s
unfolding starts_with
mark_all_star s h =
    rw (star-append s, star-append (mark_all s)) (replace_all_kept "**" mark "*" s h)

starts_plain :
    (t : Bool) (c : Char) (s : String)
    → is_star c ≡ false
    → starts_with (escaped t c <> s) "*" ≡ false
unfolding starts_with
starts_plain true c s h = simp append_laws
starts_plain false c s h = simp append_laws (rw h refl)

escape_star : (c : Char) → is_star c ≡ true → escape c ≡ "*"
escape_star c h = rw (codes_path c "*" h) refl

abbrev hold : Bool → String
hold true = "*"
hold false = ""

unheld : (s t : String) → mark_all (hold false <> s) ≡ t → mark_all s ≡ t
unheld s t h = rw (nil-append s) at h

mark_all-escape :
    (c : Char) (s t : String)
    → is_star c ≡ false
    → mark_all s ≡ t
    → mark_all (escape c <> s) ≡ escape c <> t
mark_all-escape c s t e h = mark_all-escaped (is_special (code c)) c s e ∙ ap (λ x. escape c <> x) h

mark_all-write :
    (pending : Bool) (s : String)
    → mark_all (hold pending <> spread escape s) ≡ write marked (pieces_from pending s)
unfolding spread write pieces_from replace_all replace_from
mark_all-write true [] = refl
mark_all-write false [] = refl
mark_all-write true (c ∷ s) =
    let next = unheld (spread escape s) _ (mark_all-write false s) in
    elim (Bool-cases (is_star c)) [
      | inl e ↦
          rw (e, escape_star c e) (mark_all_stars (spread escape s) ∙ ap (λ x. mark <> x) next)
      | inr e ↦ rw e (
          mark_all_star (escape c <> spread escape s)
            (starts_plain (is_special (code c)) c (spread escape s) e)
          ∙ ap (λ x. "*" <> x) (mark_all-escape c (spread escape s) _ e next))
    ]
mark_all-write false (c ∷ s) =
    let next = unheld (spread escape s) _ (mark_all-write false s) in
    elim (Bool-cases (is_star c)) [
      | inl e ↦ rw (e, escape_star c e, nil-append ("*" <> spread escape s)) (mark_all-write true s)
      | inr e ↦
          rw (e, nil-append (escape c <> spread escape s))
            (mark_all-escape c (spread escape s) _ e next)
    ]

-- The second replacement, of one star, and the third, of the mark.
abbrev pub star_all : String → String
star_all s = replace_all "*" "[^/]*" s

abbrev pub unmark_all : String → String
unmark_all s = replace_all mark ".*" s

star_all-append : (s t : String) → star_all (s <> t) ≡ star_all s <> star_all t
star_all-append s t =
    rw
      (
        replace_all-spread "*" "[^/]*" (s <> t),
        replace_all-spread "*" "[^/]*" s,
        replace_all-spread "*" "[^/]*" t,
      )
      (spread-append (swap "*" "[^/]*") s t)

unmark_all-append : (s t : String) → avoids 167 s ≡ true → unmark_all (s <> t) ≡ s <> unmark_all t
unfolding starts_with
unmark_all-append [] t h = simp append_laws
unmark_all-append (c ∷ s) t h =
    let (first, rest) = and_parts (not (code c == 167)) (avoids 167 s) h in
    simp append_laws (
      replace_all_kept mark ".*" c (s <> t) (rw (of_not (code c == 167) first) refl)
      ∙ ap (λ x. c ∷ x) (unmark_all-append s t rest))

unmark_all-mark : (s : String) → unmark_all (mark <> s) ≡ ".*" <> unmark_all s
unmark_all-mark s = replace_all_found "§" "DOUBLESTAR§" ".*" s

star_all-escaped : (t : Bool) (c : Char) → is_star c ≡ false → star_all (escaped t c) ≡ escaped t c
unfolding replace_all replace_from starts_with
star_all-escaped true c h = rw h refl
star_all-escaped false c h = rw h refl

unmark_all-write :
    (ps : List Piece) → All IsPlain ps → unmark_all (star_all (write marked ps)) ≡ write render ps
unfolding write replace_all replace_from
unmark_all-write List.[] h = refl
unmark_all-write (List.◌∷◌ star ps) h =
    ap unmark_all (star_all-append "*" (write marked ps))
    ∙ unmark_all-append "[^/]*" (star_all (write marked ps)) refl
    ∙ ap (λ x. "[^/]*" <> x) (unmark_all-write ps (h.1))
unmark_all-write (List.◌∷◌ double_star ps) h =
    ap unmark_all (star_all-append mark (write marked ps))
    ∙ unmark_all-mark (star_all (write marked ps))
    ∙ ap (λ x. ".*" <> x) (unmark_all-write ps (h.1))
unmark_all-write (List.◌∷◌ (only c) ps) ((no_star, p), h) =
    ap unmark_all (star_all-append (escape c) (write marked ps))
    ∙ ap (λ x. unmark_all (x <> star_all (write marked ps)))
        (star_all-escaped (is_special (code c)) c no_star)
    ∙ unmark_all-append (escape c) (star_all (write marked ps))
        (avoids-escaped 167 (is_special (code c)) c refl (elem_ne (code c) 167 reserved p refl))
    ∙ ap (λ x. escape c <> x) (unmark_all-write ps h)

-- The three replacements after the escapes write every piece of a pattern without reserved
-- characters as its part of a regular expression.
pub replaced-write :
    (path : String)
    → is_plain path ≡ true
    → unmark_all (star_all (mark_all (escape_all path))) ≡ write render (pieces path)
replaced-write path h =
    ap (λ x. unmark_all (star_all (mark_all x))) (escape_all-spread path)
    ∙ ap (λ x. unmark_all (star_all x)) (unheld (spread escape path) _ (mark_all-write false path))
    ∙ unmark_all-write (pieces path) (pieces_from-IsPlain false path h)
