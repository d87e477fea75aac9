-- ===== src/Acl/Access.antt =====
-- internal/acl from a stored policy to a decision about a key: the evaluator, the matching of its
-- rules and the meaning of their patterns together.
use mathlib.Core.Bool.{false≢true}
use konsul.Prelude.{
  Bool, true, false, not, String, Option, some, List, [], ◌∷◌, ◌++◌, All, ◌≡◌, ◌↔◌, refl, sym, ap,
  ◌∙◌, inl, inr, Bool-cases,
}
use konsul.Acl.{
  Capability, kv, KvRule, Policy, Evaluator, has_capability, applicable, kv_view, matches, compiled,
  evaluate,
}
use konsul.Acl.Decision.{first_counting, grants, all_rules, evaluate-described}
use konsul.Acl.Glob.{is_plain, pieces}
use konsul.Acl.Regexp.{Item, match_items, read}
use konsul.Acl.Regexp.Fits.{Fits, matches-Fits}

-- The first rule that fits the key and lists the capability or "deny" lists no "deny".
pub data Granted (path : String) (c : Capability) : List KvRule → Type 0 where
  here :
      {r : KvRule} {rs : List KvRule}
      → Fits (pieces r.path) path
      → has_capability "deny" r.capabilities ≡ false
      → has_capability c r.capabilities ≡ true
      → Granted path c (r ∷ rs)
  later :
      {r : KvRule} {rs : List KvRule}
      → (Fits (pieces r.path) path
          → (has_capability "deny" r.capabilities ≡ false)
            × (has_capability c r.capabilities ≡ false))
      → Granted path c rs
      → Granted path c (r ∷ rs)

abbrev pub rules_of : List Policy → List KvRule
rules_of [] = []
rules_of (p ∷ ps) = p.kv_rules ++ rules_of ps

abbrev pub HasPlainPattern : KvRule → Type 0
HasPlainPattern r = is_plain r.path ≡ true

module _ (regexp : String → Option (String → Bool))
    (documented : (source : String) (is : List Item)
      → read source ≡ some is
      → (t : String) → compiled (regexp source) t ≡ match_items is t)
    (path : String) (c : Capability) where
  granted :
      (rs : List KvRule)
      → All HasPlainPattern rs
      → grants (kv_view regexp path) c (first_counting (kv_view regexp path) c rs) ≡ true
      → Granted path c rs
  unfolding kv_view
  granted [] plain h = absurd (false≢true h)
  granted (r ∷ rs) (p, plain) h =
      let fits = matches-Fits regexp r path documented p in
      elim (Bool-cases (matches regexp r path)) [
        | inr e ↦ later (λ f. absurd (false≢true (sym e ∙ fits.1 f))) (granted rs plain (rw e at h))
        | inl e ↦ elim (Bool-cases (has_capability "deny" r.capabilities)) [
          | inl d ↦ absurd (false≢true (sym (ap not d) ∙ (rw (e, d) at h)))
          | inr d ↦ elim (Bool-cases (has_capability c r.capabilities)) [
            | inl k ↦ here (fits.0 e) d k
            | inr k ↦ later (λ f. (d, k)) (granted rs plain (rw (e, d, k) at h))
          ]
        ]
      ]

  grants_it :
      (rs : List KvRule)
      → All HasPlainPattern rs
      → Granted path c rs
      → grants (kv_view regexp path) c (first_counting (kv_view regexp path) c rs) ≡ true
  unfolding kv_view
  grants_it [] plain g = elim g [ ]
  grants_it (r ∷ rs) (p, plain) (here f d k) =
      rw ((matches-Fits regexp r path documented p).1 f, d, k) (ap not d)
  grants_it (r ∷ rs) (p, plain) (later g rest) = elim (Bool-cases (matches regexp r path)) [
    | inr e ↦ rw e (grants_it rs plain rest)
    | inl e ↦
        let (d, k) = g ((matches-Fits regexp r path documented p).0 e) in
        rw (e, d, k) (grants_it rs plain rest)
  ]

  rules_lem : (ps : List Policy) → all_rules (kv_view regexp path) c ps ≡ rules_of ps
  unfolding kv_view
  rules_lem [] = refl
  rules_lem (p ∷ ps) = ap (λ rs. p.kv_rules ++ rs) (rules_lem ps)

  -- When the regular expressions are read as documented and the patterns of the named policies have
  -- none of the characters `^`, `$`, `|`, `§` and the backslash, an access to a key is granted
  -- exactly if, of all rules for keys in the order of the names, the first one whose pattern
  -- stands for the key and that lists the capability or "deny" lists no "deny".
  pub evaluate-Granted :
      (e : Evaluator) (names : List String)
      → All HasPlainPattern (rules_of (applicable names e))
      → (evaluate regexp e names (record { type_ = kv; path = path }) c ≡ true)
        ↔ Granted path c (rules_of (applicable names e))
  evaluate-Granted e names plain =
      let rs = rules_of (applicable names e) in
      let said =
        evaluate-described regexp e names (record { type_ = kv; path = path }) c
        ∙ ap
            (λ rules. grants (kv_view regexp path) c (first_counting (kv_view regexp path) c rules))
            (rules_lem (applicable names e)) in
      (λ h. granted rs plain (sym said ∙ h), λ g. said ∙ grants_it rs plain g)
