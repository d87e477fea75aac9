-- ===== src/Acl/Replace.antt =====
-- Laws of `strings.ReplaceAll`, and the nine replacements of the two `Compile` methods in
-- internal/acl/types.go as one pass over the text.
use Prim.Native.Char.{Char, code}
use Prim.Native.String.{[], ◌∷◌}
use text.Mathlib.TextEquality.{Char-path}
use text.Mathlib.TextLemmas.{append-nil, nil-append, cons-append, append_assoc}
use mathlib.Core.Bool.{false≢true}
use konsul.Prelude.{
  ℕ, zero, Bool, true, false, ◌||◌, String, List, ◌≡◌, refl, sym, ap, ◌∙◌, arith, ◌==◌,
  if◌then◌else◌, Bool-cases, inl, inr,
}
use konsul.Prelude.Text.{◌<>◌, starts_with}
use konsul.Acl.Pattern.{size, replace_from, replace_all, escape_all}

pub ruleset append_laws = (nil-append, cons-append)

-- Every character becomes a text.
unfoldable pub spread : (Char → String) → String → String
spread f [] = []
spread f (c ∷ s) = f c <> spread f s

pub spread-append :
    (f : Char → String) (s t : String) → spread f (s <> t) ≡ spread f s <> spread f t
unfolding spread
spread-append f [] t = simp append_laws
spread-append f (c ∷ s) t =
    simp append_laws (
      ap (λ x. f c <> x) (spread-append f s t) ∙ sym (append_assoc (f c) (spread f s) (spread f t)))

pub spread-spread :
    (f g : Char → String) (s : String) → spread f (spread g s) ≡ spread (λ c. spread f (g c)) s
unfolding spread
spread-spread f g [] = refl
spread-spread f g (c ∷ s) =
    spread-append f (g c) (spread g s) ∙ ap (λ x. spread f (g c) <> x) (spread-spread f g s)

-- One character for a text, all others as they are.
abbrev pub swap : Char → String → Char → String
swap d new c = if code c == code d then new else c ∷ []

pub replace_all-spread :
    (d : Char) (new s : String) → replace_all (d ∷ []) new s ≡ spread (swap d new) s
unfolding replace_all replace_from spread starts_with
replace_all-spread d new [] = refl
replace_all-spread d new (c ∷ s) = elim (Bool-cases (code c == code d)) [
  | inl h ↦ rw h (ap (λ x. new <> x) (replace_all-spread d new s))
  | inr h ↦ rw h (simp append_laws (ap (λ x. c ∷ x) (replace_all-spread d new s)))
]

-- The characters of the found text are passed over.
pub replace_from_skip :
    (old new t s : String) → replace_from old new (size t) (t <> s) ≡ replace_from old new zero s
unfolding replace_from
replace_from_skip old new [] s = simp append_laws
replace_from_skip old new (c ∷ t) s = simp append_laws (replace_from_skip old new t s)

pub starts_with-append : (t s : String) → starts_with (t <> s) t ≡ true
unfolding starts_with
starts_with-append [] s = refl
starts_with-append (c ∷ t) s = simp append_laws (ground (arith, starts_with-append t s))

-- A text that is found is replaced.
pub replace_all_found :
    (c : Char) (t new s : String)
    → replace_all (c ∷ t) new ((c ∷ t) <> s) ≡ new <> replace_all (c ∷ t) new s
unfolding replace_all replace_from starts_with
replace_all_found c t new s =
    let found : starts_with (c ∷ (t <> s)) (c ∷ t) ≡ true =
      rw (cons-append c t s) at (starts_with-append (c ∷ t) s) in
    rw (cons-append c t s) (rw (found, replace_from_skip (c ∷ t) new t s) refl)

pub replace_all_kept :
    (old new : String) (c : Char) (s : String)
    → starts_with (c ∷ s) old ≡ false
    → replace_all old new (c ∷ s) ≡ c ∷ replace_all old new s
unfolding replace_all replace_from
replace_all_kept old new c s h = rw h refl

-- A backslash before the characters of a list of codes.
abbrev pub elem : ℕ → List ℕ → Bool
elem n List.[] = false
elem n (List.◌∷◌ m ms) = n == m || elem n ms

abbrev pub backslash : Char
backslash = "\\"

abbrev pub escaped : Bool → Char → String
escaped true c = backslash ∷ c ∷ []
escaped false c = c ∷ []

-- A number that is not in the list is none of its numbers.
pub elem_ne : (n m : ℕ) (ms : List ℕ) → elem n ms ≡ false → elem m ms ≡ true → n == m ≡ false
elem_ne n m ms h k = elim (Bool-cases (n == m)) [
  | inl e ↦ absurd (false≢true (sym h ∙ ap (λ x. elem x ms) (same e) ∙ k))
  | inr e ↦ e
]
  where
    same : n == m ≡ true → n ≡ m
    same e = ground arith

spread_ext : (f g : Char → String) (s : String) → ((c : Char) → f c ≡ g c) → spread f s ≡ spread g s
unfolding spread
spread_ext f g [] h = refl
spread_ext f g (c ∷ s) h = rw (h c) (ap (λ x. g c <> x) (spread_ext f g s h))

pub codes_path : (c d : Char) → code c == code d ≡ true → c ≡ d
codes_path c d h = Char-path c d (ground arith)

spread_one : (f : Char → String) (c : Char) → spread f (c ∷ []) ≡ f c
unfolding spread
spread_one f c = append-nil (f c)

-- What the replacement of `d` makes of one character that is escaped already or not.
escape_char :
    (t : Bool) (c d : Char)
    → code backslash == code d ≡ false
    → (code c == code d ≡ true → t ≡ false)
    → spread (swap d (backslash ∷ d ∷ [])) (escaped t c) ≡ escaped (code c == code d || t) c
unfolding spread
escape_char false c d k h = append-nil _ ∙ elim (Bool-cases (code c == code d)) [
  | inl e ↦ rw e (ap (λ x. backslash ∷ x ∷ []) (sym (codes_path c d e)))
  | inr e ↦ rw e refl
]
escape_char true c d k h = elim (Bool-cases (code c == code d)) [
  | inl e ↦ absurd (false≢true (sym (h e)))
  | inr e ↦
      rw (k, e)
        (ap (λ x. backslash ∷ [] <> x) (append-nil (c ∷ []))
          ∙ cons-append backslash [] (c ∷ [])
          ∙ ap (λ x. backslash ∷ x) (nil-append (c ∷ [])))
]

elem_same :
    (seen : List ℕ) (c d : Char)
    → elem (code d) seen ≡ false
    → code c == code d ≡ true
    → elem (code c) seen ≡ false
elem_same seen c d h e = rw (sym (codes_path c d e)) at h

-- The replacement of one more character.
escape_next :
    (seen : List ℕ) (d : Char) (s text : String)
    → text ≡ spread (λ c. escaped (elem (code c) seen) c) s
    → elem (code d) seen ≡ false
    → code backslash == code d ≡ false
    → replace_all (d ∷ []) (backslash ∷ d ∷ []) text
      ≡ spread (λ c. escaped (elem (code c) (List.◌∷◌ (code d) seen)) c) s
escape_next seen d s text e h k =
    ap (replace_all (d ∷ []) (backslash ∷ d ∷ [])) e
    ∙ replace_all-spread d (backslash ∷ d ∷ []) _
    ∙ spread-spread _ _ s
    ∙ spread_ext _ _ s (λ c. escape_char (elem (code c) seen) c d k (elem_same seen c d h))

unescaped : (s : String) → s ≡ spread (λ c. c ∷ []) s
unfolding spread
unescaped [] = refl
unescaped (c ∷ s) = simp append_laws (ap (λ x. c ∷ x) (unescaped s))

-- The codes of `}`, `{`, `)`, `(`, `]`, `[`, `?`, `+` and `.`.
abbrev pub specials : List ℕ
specials = List.◌∷◌ 125 (
    List.◌∷◌ 123 (
      List.◌∷◌ 41 (
        List.◌∷◌ 40 (List.◌∷◌ 93 (List.◌∷◌ 91 (List.◌∷◌ 63 (List.◌∷◌ 43 (List.◌∷◌ 46 List.[]))))))))

abbrev pub is_special : ℕ → Bool
is_special n = elem n specials

abbrev pub escape : Char → String
escape c = escaped (is_special (code c)) c

-- The nine replacements are one pass that puts a backslash before each of the nine characters.
pub escape_all-spread : (s : String) → escape_all s ≡ spread escape s
unfolding escape_all
escape_all-spread s =
    escape_next
      (List.◌∷◌ 123 (
        List.◌∷◌ 41 (
          List.◌∷◌ 40
            (List.◌∷◌ 93 (List.◌∷◌ 91 (List.◌∷◌ 63 (List.◌∷◌ 43 (List.◌∷◌ 46 List.[]))))))))
      "}" s _
      (escape_next
        (List.◌∷◌ 41 (
          List.◌∷◌ 40
            (List.◌∷◌ 93 (List.◌∷◌ 91 (List.◌∷◌ 63 (List.◌∷◌ 43 (List.◌∷◌ 46 List.[])))))))
        "{" s _
        (escape_next
          (List.◌∷◌ 40
            (List.◌∷◌ 93 (List.◌∷◌ 91 (List.◌∷◌ 63 (List.◌∷◌ 43 (List.◌∷◌ 46 List.[]))))))
          ")" s _
          (escape_next (List.◌∷◌ 93 (List.◌∷◌ 91 (List.◌∷◌ 63 (List.◌∷◌ 43 (List.◌∷◌ 46 List.[])))))
            "(" s _
            (escape_next (List.◌∷◌ 91 (List.◌∷◌ 63 (List.◌∷◌ 43 (List.◌∷◌ 46 List.[])))) "]" s _
              (escape_next (List.◌∷◌ 63 (List.◌∷◌ 43 (List.◌∷◌ 46 List.[]))) "[" s _
                (escape_next (List.◌∷◌ 43 (List.◌∷◌ 46 List.[])) "?" s _
                  (escape_next (List.◌∷◌ 46 List.[]) "+" s _
                    (escape_next List.[] "." s _ (unescaped s) refl refl) refl refl)
                  refl refl)
                refl refl)
              refl refl)
            refl refl)
          refl refl)
        refl refl)
      refl refl
