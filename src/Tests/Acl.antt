-- ===== src/Tests/Acl.antt =====
-- Patterns and decisions.
use konsul.Prelude.{
  ◌≡◌, ◌↔◌, refl, none, Bool, true, false, String, Option, some, List, [], ◌∷◌, ◌++◌, All,
}
use konsul.Prelude.Dict.{find}
use konsul.Acl.Pattern.{kv_pattern, service_pattern}
use konsul.Acl.{kv, Policy, Resource, Evaluator, evaluate, applicable}
use konsul.Acl.{KvRule, matches, compiled}
use konsul.Acl.Glob.{pieces}
use konsul.Acl.Regexp.{Item, match_items, read, read_from}
use konsul.Acl.Regexp.Fits.{Fits, matches-Fits}
use konsul.Acl.Access.{Granted, rules_of, evaluate-Granted}
use konsul.Acl.Decision.{described, evaluate-described, evaluate-append}
use konsul.Acl.Policies.{Change, add, load, delete, change_all, IsKept, change_all-IsKept}

kv_pattern_of_stars : kv_pattern "app/**/v1.*" ≡ "^app/.*/v1\\.[^/]*$"
unfolding kv_pattern
kv_pattern_of_stars = refl

service_pattern_of_star : service_pattern "web-*" ≡ "^web-.*$"
unfolding service_pattern
service_pattern_of_star = refl

-- A regular expression that matches everything.
abbrev anything : String → Option (String → Bool)
anything pattern = some (λ text. true)

abbrev policy : String → List String → Policy
policy name capabilities = record {
  name = name;
  description = "";
  kv_rules = record { path = "app/**"; capabilities = capabilities } ∷ [];
  service_rules = [];
  health_rules = [];
  backup_rules = [];
  admin_rules = [];
}

abbrev both : Evaluator
both = ("reader", policy "reader" ("read" ∷ [])) ∷ ("blocked", policy "blocked" ("deny" ∷ [])) ∷ []

abbrev key : Resource
key = record { type_ = kv; path = "app/a" }

-- The first policy that is named decides.
reader_first : evaluate anything both ("reader" ∷ "blocked" ∷ []) key "read" ≡ true
unfolding evaluate find
reader_first = refl

blocked_first : evaluate anything both ("blocked" ∷ "reader" ∷ []) key "read" ≡ false
unfolding evaluate find
blocked_first = refl

evaluate-described_example :
    evaluate anything both ("reader" ∷ []) key "read"
    ≡ described anything (applicable ("reader" ∷ []) both) kv "app/a" "read"
evaluate-described_example = evaluate-described anything both ("reader" ∷ []) key "read"

evaluate-append_example :
    evaluate anything both (("reader" ∷ []) ++ ("blocked" ∷ [])) key "read" ≡ true
unfolding evaluate find
evaluate-append_example =
    evaluate-append anything both ("reader" ∷ []) ("blocked" ∷ []) key "read" refl

abbrev some_changes : List Change
some_changes = add (policy "" []) ∷ load (policy "a" [] ∷ policy "b" [] ∷ []) ∷ delete "a" ∷ []

change_all-IsKept_example : All (IsKept anything) (change_all anything some_changes [])
change_all-IsKept_example = change_all-IsKept anything some_changes [] tt

-- Regular expressions that are read as documented, and that match nothing else.
abbrev by_items : Option (List Item) → Option (String → Bool)
by_items none = none
by_items (some is) = some (match_items is)

abbrev reader : String → Option (String → Bool)
reader source = by_items (read source)

abbrev below_app : KvRule
below_app = record { path = "app/*.x"; capabilities = "read" ∷ [] }

reader_is_documented :
    (source : String) (is : List Item)
    → read source ≡ some is
    → (t : String) → compiled (reader source) t ≡ match_items is t
reader_is_documented source is e t = rw e refl

matches-Fits_example :
    (matches reader below_app "app/a.x" ≡ true) ↔ Fits (pieces "app/*.x") "app/a.x"
matches-Fits_example = matches-Fits reader below_app "app/a.x" reader_is_documented refl

matches_one_level :
    (matches reader below_app "app/a.x" ≡ true) × (matches reader below_app "app/a/b.x" ≡ false)
unfolding matches kv_pattern match_items read_from
matches_one_level = (refl, refl)

abbrev keeper : Evaluator
keeper = ("reader", policy "reader" ("read" ∷ [])) ∷ []

evaluate-Granted_example :
    (evaluate reader keeper ("reader" ∷ []) (record { type_ = kv; path = "app/a" }) "read" ≡ true)
    ↔ Granted "app/a" "read" (rules_of (applicable ("reader" ∷ []) keeper))
unfolding applicable find
evaluate-Granted_example =
    evaluate-Granted reader reader_is_documented "app/a" "read" keeper ("reader" ∷ []) (refl, tt)
