-- ===== src/Prelude/Text/Laws.antt =====
-- Laws of the string methods `trim` and `split`.
use Prim.Native.Char.{Char, code}
use Prim.Native.Nat.{ℕ}
use Prim.Native.String.{String, [], ◌∷◌}
use mathlib.Core.Path.{◌≡◌, refl, ◌∙◌, ap}
use mathlib.Core.Bool.{false}
use mathlib.Core.List.{List}
use konsul.Prelude.Tests.{◌==◌, if_rule}
use konsul.Prelude.Lists.{All}
use konsul.Prelude.Text.{is_space, trim_start, trim_end, trim, keep_char, push_first, split}

-- The text begins with no white space.
abbrev StartsPlain : String → Type 0
StartsPlain [] = Unit
StartsPlain (c ∷ s) = is_space (code c) ≡ false

trim_start-StartsPlain : (s : String) → StartsPlain (trim_start s)
unfolding trim_start
trim_start-StartsPlain [] = tt
trim_start-StartsPlain (c ∷ s) =
    if_rule StartsPlain (is_space (code c)) (trim_start s) (c ∷ s) (λ e. trim_start-StartsPlain s)
      (λ e. e)

keep_char-StartsPlain :
    (c : Char) (s : String) → is_space (code c) ≡ false → StartsPlain (keep_char c s)
keep_char-StartsPlain c [] h =
    if_rule StartsPlain (is_space (code c)) [] (c ∷ []) (λ e. tt) (λ e. e)
keep_char-StartsPlain c (d ∷ s) h = h

trim_end-StartsPlain : (s : String) → StartsPlain s → StartsPlain (trim_end s)
unfolding trim_end
trim_end-StartsPlain [] h = tt
trim_end-StartsPlain (c ∷ s) h = keep_char-StartsPlain c (trim_end s) h

trim_start_of_StartsPlain : (s : String) → StartsPlain s → trim_start s ≡ s
unfolding trim_start
trim_start_of_StartsPlain [] h = refl
trim_start_of_StartsPlain (c ∷ s) h =
    if_rule (λ x. x ≡ c ∷ s) (is_space (code c)) (trim_start s) (c ∷ s) (λ e. cc) (λ e. refl)

trim_end-keep_char :
    (c : Char) (s : String) → trim_end s ≡ s → trim_end (keep_char c s) ≡ keep_char c s
unfolding trim_end
trim_end-keep_char c [] h =
    if_rule (λ x. x ≡ keep_char c [] → trim_end x ≡ x) (is_space (code c)) [] (c ∷ []) (λ e q. refl)
      (λ e q. rw e refl) refl
trim_end-keep_char c (d ∷ s) h = ap (keep_char c) h

trim_end_idem : (s : String) → trim_end (trim_end s) ≡ trim_end s
unfolding trim_end
trim_end_idem [] = refl
trim_end_idem (c ∷ s) = trim_end-keep_char c (trim_end s) (trim_end_idem s)

-- Trimming a second time changes nothing.
pub trim_idem : (s : String) → trim (trim s) ≡ trim s
unfolding trim
trim_idem s =
    ap trim_end
      (trim_start_of_StartsPlain _ (trim_end-StartsPlain (trim_start s) (trim_start-StartsPlain s)))
    ∙ trim_end_idem (trim_start s)

-- The text does not have this character.
abbrev pub Lacks : ℕ → String → Type 0
Lacks n [] = Unit
Lacks n (c ∷ s) = ((code c == n) ≡ false) × Lacks n s

trim_start-Lacks : (n : ℕ) (s : String) → Lacks n s → Lacks n (trim_start s)
unfolding trim_start
trim_start-Lacks n [] h = tt
trim_start-Lacks n (c ∷ s) h =
    if_rule (Lacks n) (is_space (code c)) (trim_start s) (c ∷ s) (λ e. trim_start-Lacks n s h.1)
      (λ e. h)

keep_char-Lacks :
    (n : ℕ) (c : Char) (s : String) → (code c == n) ≡ false → Lacks n s → Lacks n (keep_char c s)
keep_char-Lacks n c [] h k =
    if_rule (Lacks n) (is_space (code c)) [] (c ∷ []) (λ e. tt) (λ e. (h, tt))
keep_char-Lacks n c (d ∷ s) h k = (h, k)

trim_end-Lacks : (n : ℕ) (s : String) → Lacks n s → Lacks n (trim_end s)
unfolding trim_end
trim_end-Lacks n [] h = tt
trim_end-Lacks n (c ∷ s) h = keep_char-Lacks n c (trim_end s) h.0 (trim_end-Lacks n s h.1)

pub trim-Lacks : (n : ℕ) (s : String) → Lacks n s → Lacks n (trim s)
unfolding trim
trim-Lacks n s h = trim_end-Lacks n (trim_start s) (trim_start-Lacks n s h)

push_first-Lacks :
    (n : ℕ) (c : Char) (ps : List String)
    → (code c == n) ≡ false
    → All (Lacks n) ps
    → All (Lacks n) (push_first c ps)
push_first-Lacks n c List.[] h k = ((h, tt), tt)
push_first-Lacks n c (List.◌∷◌ p ps) h k = ((h, k.0), k.1)

-- No part of a split has the separator.
pub split-Lacks : (n : ℕ) (s : String) → All (Lacks n) (split n s)
unfolding split
split-Lacks n [] = (tt, tt)
split-Lacks n (c ∷ s) =
    if_rule (All (Lacks n)) (code c == n) (List.◌∷◌ [] (split n s)) (push_first c (split n s))
      (λ e. (tt, split-Lacks n s)) (λ e. push_first-Lacks n c (split n s) e (split-Lacks n s))
