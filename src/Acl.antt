-- ===== src/Acl.antt =====
-- internal/acl, the access control lists of the server: policies, the evaluator that keeps them, and
-- its decisions. `regexp` is Go's regular expressions: `regexp.MustCompile` with `MatchString`,
-- `none` where the former panics. The locks make each operation one step.
pub mod Pattern
pub mod Replace
pub mod Glob
pub mod Regexp
pub mod Decision
pub mod Policies
pub mod Access
use konsul.Prelude.{
  all, is_some, Bool, true, false, not, ◌&&◌, ◌||◌, String, Option, none, some, List, [], ◌∷◌, ◌++◌,
  str_eq, any, map, length, ℕ, if◌then◌else◌,
}
use konsul.Prelude.Dict.{Dict, find, put, erase}
use Pattern.{kv_pattern, service_pattern}
use konsul.Prelude.Text.{◌<>◌, nonempty, starts_with}

-- `type Capability string`.
abbrev pub Capability : Type 0
Capability = String

-- `type ResourceType string`, with its five constants.
pub data ResourceType : Type 0 where
  kv service health backup admin : ResourceType
  other : String → ResourceType

pub record KvRule : Type 0 where
  pub path : String
  pub capabilities : List Capability

pub record ServiceRule : Type 0 where
  pub name : String
  pub capabilities : List Capability

-- `HealthRule`, `BackupRule` and `AdminRule` have this one field.
pub record PlainRule : Type 0 where
  pub capabilities : List Capability

pub record Policy : Type 0 where
  pub name : String
  pub description : String
  pub kv_rules : List KvRule
  pub service_rules : List ServiceRule
  pub health_rules : List PlainRule
  pub backup_rules : List PlainRule
  pub admin_rules : List PlainRule

pub record Resource : Type 0 where
  pub type_ : ResourceType
  pub path : String

pub data Fault : Type 0 where
  invalid_policy policy_exists policy_not_found : Fault
  panic : Fault

-- The five `HasCapability` methods, on the list of capabilities.
unfoldable pub has_capability : Capability → List Capability → Bool
has_capability c cs = any (λ d. str_eq d c) cs

-- What the five loops differ in: the rules of a policy, and how a rule applies.
pub record View {ℓ} (R : Type ℓ) : Type ℓ where
  pub rules : Policy → List R
  pub applies : R → Bool
  pub capabilities : R → List Capability

module _ {ℓ} {R : Type ℓ} (v : View R) (c : Capability) where
  -- The inner loop over the rules of a policy: the value that it returns, if it does.
  unfoldable pub verdict : List R → Option Bool
  unfolding has_capability
  verdict [] = none
  verdict (r ∷ rs) =
      let rest = verdict rs in
      if v.applies r
      then if has_capability "deny" (v.capabilities r)
        then some false
        else if has_capability c (v.capabilities r)
        then some true
        else rest
      else rest

  abbrev pub or_continue : Option Bool → Bool → Bool
  or_continue none rest = rest
  or_continue (some b) rest = b

  -- The outer loop over the policies, and the denial at its end.
  unfoldable pub scan : List Policy → Bool
  unfolding verdict
  scan [] = false
  scan (p ∷ ps) = or_continue (verdict (v.rules p)) (scan ps)

abbrev pub Evaluator : Type 0
Evaluator = Dict Policy

-- The policies of the names that exist, in the order of the names.
unfoldable pub applicable : List String → Evaluator → List Policy
applicable [] e = []
applicable (n ∷ ns) e = elim (find n e) [ none ↦ applicable ns e | some p ↦ p ∷ applicable ns e ]

abbrev pub compiled : Option (String → Bool) → String → Bool
compiled none text = false
compiled (some match_string) text = match_string text

module _ (regexp : String → Option (String → Bool)) where
  -- `Matches`, of a rule whose pattern compiles.
  unfoldable pub matches : KvRule → String → Bool
  unfolding kv_pattern
  matches r path = compiled (regexp (kv_pattern r.path)) path

  pub service_matches : ServiceRule → String → Bool
  unfolding service_pattern
  service_matches r name = compiled (regexp (service_pattern r.name)) name

  pub kv_view : String → View KvRule
  unfolding matches
  kv_view path = record {
    rules = λ p. p.kv_rules;
    applies = λ r. matches r path;
    capabilities = λ r. r.capabilities;
  }

  pub service_view : String → View ServiceRule
  unfolding service_matches
  service_view name = record {
    rules = λ p. p.service_rules;
    applies = λ r. service_matches r name;
    capabilities = λ r. r.capabilities;
  }

  abbrev pub plain_view : (Policy → List PlainRule) → View PlainRule
  plain_view rules = record {
    rules = rules;
    applies = λ r. true;
    capabilities = λ r. r.capabilities;
  }

  -- The `switch` on the type of the resource, with `evaluateKV` and its like.
  unfoldable pub decide : List Policy → ResourceType → String → Capability → Bool
  unfolding scan kv_view service_view
  decide ps kv path c = scan (kv_view path) c ps
  decide ps service path c = scan (service_view path) c ps
  decide ps health path c = scan (plain_view (λ p. p.health_rules)) c ps
  decide ps backup path c = scan (plain_view (λ p. p.backup_rules)) c ps
  decide ps admin path c = scan (plain_view (λ p. p.admin_rules)) c ps
  decide ps (other t) path c = false

  abbrev pub is_empty {ℓ} : {A : Type ℓ} → List A → Bool
  is_empty [] = true
  is_empty (x ∷ xs) = false

  unfoldable pub evaluate : Evaluator → List String → Resource → Capability → Bool
  unfolding decide applicable
  evaluate e names r c =
      if is_empty names
      then false
      else if is_empty (applicable names e)
      then false
      else decide (applicable names e) r.type_ r.path c

  -- `Compile` panics where the pattern is no regular expression.
  abbrev pub compiles : String → Bool
  compiles pattern = is_some (regexp pattern)

  unfoldable pub validate : Policy → Option Fault
  validate p =
      if not (nonempty p.name)
      then some invalid_policy
      else if all (λ (r : KvRule). compiles (kv_pattern r.path)) p.kv_rules
          && all (λ (r : ServiceRule). compiles (service_pattern r.name)) p.service_rules
      then none
      else some panic

  abbrev pub Outcome : Type 0
  Outcome = Option Fault × Evaluator

  add_valid : Policy → Option Fault → Option Policy → Evaluator → Outcome
  add_valid p (some f) old e = (some f, e)
  add_valid p none (some q) e = (some policy_exists, e)
  add_valid p none none e = (none, put p.name p e)

  unfoldable pub add_policy : Policy → Evaluator → Outcome
  unfolding validate add_valid
  add_policy p e = add_valid p (validate p) (find p.name e) e

  update_valid : Policy → Option Fault → Option Policy → Evaluator → Outcome
  update_valid p (some f) old e = (some f, e)
  update_valid p none none e = (some policy_not_found, e)
  update_valid p none (some q) e = (none, put p.name p e)

  unfoldable pub update_policy : Policy → Evaluator → Outcome
  unfolding validate update_valid
  update_policy p e = update_valid p (validate p) (find p.name e) e

  delete_found : String → Option Policy → Evaluator → Outcome
  delete_found name none e = (some policy_not_found, e)
  delete_found name (some p) e = (none, erase name e)

  unfoldable pub delete_policy : String → Evaluator → Outcome
  unfolding delete_found
  delete_policy name e = delete_found name (find name e) e

  -- What is loaded before a policy that is not valid stays.
  unfoldable pub load_policies : List Policy → Evaluator → Outcome
  unfolding validate
  load_policies [] e = (none, e)
  load_policies (p ∷ ps) e = elim (validate p) [
    | some f ↦ (some f, e)
    | none ↦ load_policies ps (put p.name p e)
  ]

-- `GetPolicy`, with its error as `none`; `ListPolicies` and `Count`.
abbrev pub get_policy : String → Evaluator → Option Policy
get_policy = find

unfoldable pub list_policies : Evaluator → List String
list_policies [] = []
list_policies ((n, p) ∷ e) = n ∷ list_policies e

abbrev pub policy_count : Evaluator → ℕ
policy_count e = length e
