-- ===== src/Acl/Glob/Avoids.antt =====
-- Texts in which a character does not occur, and what that means for a suffix.
use Prim.Native.Char.{Char, code}
use Prim.Native.String.{[], ◌∷◌}
use text.Mathlib.TextLemmas.{head-eq_of_cons-eq}
use mathlib.Core.Bool.{false≢true}
use konsul.Prelude.{
  ℕ, Bool, true, false, not, ◌&&◌, String, ◌≡◌, refl, sym, ap, ◌∙◌, ◌==◌, str_eq, eq_iff, inl, inr,
  Bool-cases, and_parts,
}
use konsul.Prelude.Text.{◌<>◌}
use konsul.Acl.Pattern.{ends_with}
use konsul.Acl.Replace.{append_laws, escaped, backslash}

-- No character of the text has this code.
abbrev pub avoids : ℕ → String → Bool
avoids n [] = true
avoids n (c ∷ s) = not (code c == n) && avoids n s

pub avoids-append :
    (n : ℕ) (s t : String) → avoids n s ≡ true → avoids n t ≡ true → avoids n (s <> t) ≡ true
avoids-append n [] t h k = simp append_laws k
avoids-append n (c ∷ s) t h k =
    let (first, rest) = and_parts (not (code c == n)) (avoids n s) h in
    simp append_laws (rw first (avoids-append n s t rest k))

pub avoids-escaped :
    (n : ℕ) (t : Bool) (c : Char)
    → code backslash == n ≡ false
    → code c == n ≡ false
    → avoids n (escaped t c) ≡ true
avoids-escaped n true c b h = rw (b, h) refl
avoids-escaped n false c b h = rw h refl

-- A text without a dollar sign does not end in one.
pub ends_with-avoids : (s : String) → avoids 36 s ≡ true → ends_with s "$" ≡ false
unfolding ends_with
ends_with-avoids [] h = refl
ends_with-avoids (c ∷ s) h =
    let (first, rest) = and_parts (not (code c == 36)) (avoids 36 s) h in
    rw (differs first, ends_with-avoids s rest) refl
  where
    differs : not (code c == 36) ≡ true → str_eq (c ∷ s) "$" ≡ false
    differs first = elim (Bool-cases (str_eq (c ∷ s) "$")) [
      | inr e ↦ e
      | inl e ↦
          let same : c ≡ "$" = head-eq_of_cons-eq {ys = ""} ((eq_iff (c ∷ s) "$").0 e) in
          absurd (false≢true (ap (λ x. not (code x == 36)) (sym same) ∙ first))
    ]
