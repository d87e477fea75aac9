-- ===== src/Acl/Pattern.antt =====
-- internal/acl/types.go, the two `Compile` methods: from the pattern of a rule to the source of a
-- regular expression.
use Prim.Native.String.{[], ◌∷◌}
use konsul.Prelude.{ℕ, zero, suc, Bool, ◌||◌, String, str_eq, if◌then◌else◌}
use konsul.Prelude.Text.{◌<>◌, starts_with}

-- `len(s)`, in characters.
abbrev pub size : String → ℕ
size [] = zero
size (c ∷ s) = suc (size s)

abbrev pub pred : ℕ → ℕ
pred zero = zero
pred (suc n) = n

-- The rest of a replacement, once the next `n` characters are passed over.
unfoldable pub replace_from : String → String → ℕ → String → String
unfolding starts_with
replace_from old new n [] = []
replace_from old new (suc n) (c ∷ s) = replace_from old new n s
replace_from old new zero (c ∷ s) =
    let found = new <> replace_from old new (pred (size old)) s in
    let kept = c ∷ replace_from old new zero s in if starts_with (c ∷ s) old then found else kept

-- `strings.ReplaceAll(s, old, new)`, for an `old` that is not empty.
unfoldable pub replace_all : String → String → String → String
unfolding replace_from
replace_all old new s = replace_from old new zero s

-- `strings.HasSuffix`.
unfoldable pub ends_with : String → String → Bool
ends_with [] t = str_eq [] t
ends_with (c ∷ s) t = str_eq (c ∷ s) t || ends_with s t

-- The nine replacements that put a backslash before a character.
unfoldable pub escape_all : String → String
unfolding replace_all
escape_all s = replace_all "}" "\\}" (
    replace_all "{" "\\{" (
      replace_all ")" "\\)" (
        replace_all "(" "\\(" (
          replace_all "]" "\\]" (
            replace_all "[" "\\["
              (replace_all "?" "\\?" (replace_all "+" "\\+" (replace_all "." "\\." s))))))))

unfoldable pub anchored : String → String
unfolding starts_with ends_with
anchored p =
    let q = if starts_with p "^" then p else "^" <> p in if ends_with q "$" then q else q <> "$"

-- `KVRule.Compile`.
unfoldable pub kv_pattern : String → String
unfolding escape_all anchored replace_all
kv_pattern path = anchored (
    replace_all "§DOUBLESTAR§" ".*"
      (replace_all "*" "[^/]*" (replace_all "**" "§DOUBLESTAR§" (escape_all path))))

-- `ServiceRule.Compile`.
unfoldable pub service_pattern : String → String
unfolding escape_all anchored replace_all
service_pattern name = anchored (replace_all "*" ".*" (escape_all name))
