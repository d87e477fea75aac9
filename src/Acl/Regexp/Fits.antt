-- ===== src/Acl/Regexp/Fits.antt =====
-- Which keys the pattern of a rule of internal/acl stands for, and that its compiled expression
-- matches these keys.
use Prim.Native.Char.{Char, code}
use Prim.Native.String.{[], ◌∷◌}
use text.Mathlib.TextLemmas.{cons-append, nil-append}
use mathlib.Core.Bool.{false≢true}
use konsul.Prelude.{
  ℕ, Bool, true, false, not, ◌&&◌, ◌||◌, String, Option, some, List, map, ◌≡◌, ◌↔◌, refl, sym, ap,
  ◌∙◌, ◌==◌, arith, inl, inr, Bool-cases, and_parts,
}
use konsul.Prelude.Text.{◌<>◌}
use konsul.Acl.Replace.{codes_path}
use konsul.Acl.Glob.{Piece, star, double_star, only, is_plain, pieces}
use konsul.Acl.Glob.Avoids.{avoids}
use konsul.Acl.Regexp.{Item, run, one, match_items, read}
use konsul.Acl.Regexp.Reading.{item, read-kv_pattern}
use konsul.Acl.{KvRule, matches, compiled}

-- A star stands for a text without a slash, two stars for a text without a line break, and every
-- other character for itself.
pub data Fits : List Piece → String → Type 0 where
  nothing : Fits List.[] []
  same : {ps : List Piece} {s : String} (c : Char) → Fits ps s → Fits (List.◌∷◌ (only c) ps) (c ∷ s)
  one_level :
      {ps : List Piece} {s : String} (t : String)
      → avoids 47 t ≡ true
      → Fits ps s
      → Fits (List.◌∷◌ star ps) (t <> s)
  all_levels :
      {ps : List Piece} {s : String} (t : String)
      → avoids 10 t ≡ true
      → Fits ps s
      → Fits (List.◌∷◌ double_star ps) (t <> s)

-- A run takes any text that avoids its character.
run_over :
    (n : ℕ) (rest : String → Bool) (t s : String)
    → avoids n t ≡ true
    → rest s ≡ true
    → run n rest (t <> s) ≡ true
unfolding run
run_over n rest [] [] h k = k
run_over n rest [] (c ∷ s) h k = rw (nil-append (c ∷ s), k) refl
run_over n rest (c ∷ t) s h k =
    let (first, later) = and_parts (not (code c == n)) (avoids n t) h in
    rw (cons-append c t s) (
      or_true (rest (c ∷ (t <> s))) (not (code c == n) && run n rest (t <> s))
        (rw first (run_over n rest t s later k)))
  where
    or_true : (a b : Bool) → b ≡ true → a || b ≡ true
    or_true true b e = refl
    or_true false b e = e

-- What a run takes, and what is left.
pub record Split (n : ℕ) (rest : String → Bool) (s : String) : Type 0 where
  pub taken : String
  pub left : String
  pub whole : taken <> left ≡ s
  pub free : avoids n taken ≡ true
  pub goes_on : rest left ≡ true

run-Split : (n : ℕ) (rest : String → Bool) (s : String) → run n rest s ≡ true → Split n rest s
unfolding run
run-Split n rest [] h = record { taken = []; left = []; whole = refl; free = refl; goes_on = h }
run-Split n rest (c ∷ s) h = elim (Bool-cases (rest (c ∷ s))) [
  | inl e ↦ record {
    taken = [];
    left = c ∷ s;
    whole = nil-append (c ∷ s);
    free = refl;
    goes_on = e;
  }
  | inr e ↦
      let (first, later) = and_parts (not (code c == n)) (run n rest s) (rw e at h) in
      let more = run-Split n rest s later in
      record {
        taken = c ∷ more.taken;
        left = more.left;
        whole = cons-append c more.taken more.left ∙ ap (λ x. c ∷ x) more.whole;
        free = rw first more.free;
        goes_on = more.goes_on;
      }
]

code_refl : (c : Char) → code c == code c ≡ true
code_refl c = ground arith

Fits-match_items : {ps : List Piece} {s : String} → Fits ps s → match_items (map item ps) s ≡ true
unfolding match_items
Fits-match_items nothing = refl
Fits-match_items (same c f) = rw (code_refl c) (Fits-match_items f)
Fits-match_items (one_level {ps} {s} t h f) =
    run_over 47 (match_items (map item ps)) t s h (Fits-match_items f)
Fits-match_items (all_levels {ps} {s} t h f) =
    run_over 10 (match_items (map item ps)) t s h (Fits-match_items f)

one-Fits :
    (c : Char) (ps : List Piece) (s : String)
    → one c (match_items (map item ps)) s ≡ true
    → ((t : String) → match_items (map item ps) t ≡ true → Fits ps t)
    → Fits (List.◌∷◌ (only c) ps) s
one-Fits c ps [] h k = absurd (false≢true h)
one-Fits c ps (d ∷ s) h k =
    let (first, later) = and_parts (code d == code c) (match_items (map item ps) s) h in
    rw (codes_path d c first) (same c (k s later))

match_items-Fits : (ps : List Piece) (s : String) → match_items (map item ps) s ≡ true → Fits ps s
unfolding match_items
match_items-Fits List.[] [] h = nothing
match_items-Fits List.[] (c ∷ s) h = absurd (false≢true h)
match_items-Fits (List.◌∷◌ (only c) ps) s h = one-Fits c ps s h (match_items-Fits ps)
match_items-Fits (List.◌∷◌ star ps) s h =
    let cut = run-Split 47 (match_items (map item ps)) s h in
    rw (cut.whole) at (one_level cut.taken cut.free (match_items-Fits ps cut.left cut.goes_on))
match_items-Fits (List.◌∷◌ double_star ps) s h =
    let cut = run-Split 10 (match_items (map item ps)) s h in
    rw (cut.whole) at (all_levels cut.taken cut.free (match_items-Fits ps cut.left cut.goes_on))

-- When the regular expressions are read as their documentation says, a rule whose pattern has none
-- of the characters `^`, `$`, `|`, `§` and the backslash matches exactly the keys that its pattern
-- stands for: a star takes a text without a slash, two stars a text without a line break, and every
-- other character itself.
pub matches-Fits :
    (regexp : String → Option (String → Bool)) (r : KvRule) (text : String)
    (documented : (source : String) (is : List Item)
      → read source ≡ some is
      → (t : String) → compiled (regexp source) t ≡ match_items is t)
    → is_plain r.path ≡ true
    → (matches regexp r text ≡ true) ↔ Fits (pieces r.path) text
unfolding matches
matches-Fits regexp r text documented h =
    let said = documented _ _ (read-kv_pattern r.path h) text in
    (λ e. match_items-Fits (pieces r.path) text (sym said ∙ e), λ f. said ∙ Fits-match_items f)
