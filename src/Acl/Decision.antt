-- ===== src/Acl/Decision.antt =====
-- The decisions of internal/acl/evaluator.go against a description by the first rule that counts.
use konsul.Prelude.{
  Bool, true, false, not, ◌&&◌, ◌||◌, String, Option, none, some, List, [], ◌∷◌, ◌++◌, ◌≡◌, refl,
  sym, ap, ◌∙◌, arith, inl, inr, Option-cases, if◌then◌else◌,
}
use konsul.Prelude.Dict.{find}
use konsul.Acl.{
  Capability, ResourceType, kv, service, health, backup, admin, other, Policy, Resource, Evaluator,
  has_capability, verdict, or_continue, scan, applicable, View, kv_view, service_view, plain_view,
  decide, is_empty, evaluate,
}

module _ {ℓ} {R : Type ℓ} (v : View R) (c : Capability) where
  -- A rule applies, and lists the capability or "deny".
  abbrev pub counts : R → Bool
  counts r =
      v.applies r
      && (has_capability "deny" (v.capabilities r) || has_capability c (v.capabilities r))

  abbrev pub first_counting : List R → Option R
  first_counting [] = none
  first_counting (r ∷ rs) = let rest = first_counting rs in if counts r then some r else rest

  abbrev pub grants : Option R → Bool
  grants none = false
  grants (some r) = not (has_capability "deny" (v.capabilities r))

  abbrev pub all_rules : List Policy → List R
  all_rules [] = []
  all_rules (p ∷ ps) = v.rules p ++ all_rules ps

  -- The decision by the first rule that counts.
  abbrev pub by_first : List Policy → Bool
  by_first ps = grants (first_counting (all_rules ps))

  -- The rules of a policy, in front of a scan that goes on with others.
  verdict-first :
      (rs qs : List R) (rest : Bool)
      → rest ≡ grants (first_counting qs)
      → or_continue v c (verdict v c rs) rest ≡ grants (first_counting (rs ++ qs))
  unfolding verdict
  verdict-first [] qs rest h = h
  verdict-first (r ∷ rs) qs rest h = ground (arith, verdict-first rs qs rest h)

  scan-first : (ps : List Policy) → scan v c ps ≡ by_first ps
  unfolding scan
  scan-first [] = refl
  scan-first (p ∷ ps) = verdict-first (v.rules p) (all_rules ps) (scan v c ps) (scan-first ps)

  scan-append : (ps qs : List Policy) → scan v c ps ≡ true → scan v c (ps ++ qs) ≡ true
  unfolding scan
  scan-append [] qs h = cc
  scan-append (p ∷ ps) qs h = elim (Option-cases (verdict v c (v.rules p))) [
    | inl e ↦ rw e (scan-append ps qs (rw e at h))
    | inr (b, e) ↦ rw e (rw e at h)
  ]

applicable-append :
    (ns ms : List String) (e : Evaluator)
    → applicable (ns ++ ms) e ≡ applicable ns e ++ applicable ms e
unfolding applicable
applicable-append [] ms e = refl
applicable-append (n ∷ ns) ms e = elim (Option-cases (find n e)) [
  | inl h ↦ rw (h, applicable) (applicable-append ns ms e)
  | inr (p, h) ↦ rw (h, applicable) (ap (λ l. p ∷ l) (applicable-append ns ms e))
]

module _ (regexp : String → Option (String → Bool)) where
  abbrev pub described : List Policy → ResourceType → String → Capability → Bool
  described ps kv path c = by_first (kv_view regexp path) c ps
  described ps service path c = by_first (service_view regexp path) c ps
  described ps health path c = by_first (plain_view regexp (λ p. p.health_rules)) c ps
  described ps backup path c = by_first (plain_view regexp (λ p. p.backup_rules)) c ps
  described ps admin path c = by_first (plain_view regexp (λ p. p.admin_rules)) c ps
  described ps (other t) path c = false

  decide-described :
      (ps : List Policy) (t : ResourceType) (path : String) (c : Capability)
      → decide regexp ps t path c ≡ described ps t path c
  unfolding decide
  decide-described ps kv path c = scan-first (kv_view regexp path) c ps
  decide-described ps service path c = scan-first (service_view regexp path) c ps
  decide-described ps health path c = scan-first (plain_view regexp (λ p. p.health_rules)) c ps
  decide-described ps backup path c = scan-first (plain_view regexp (λ p. p.backup_rules)) c ps
  decide-described ps admin path c = scan-first (plain_view regexp (λ p. p.admin_rules)) c ps
  decide-described ps (other t) path c = refl

  decide_nothing :
      (t : ResourceType) (path : String) (c : Capability) → decide regexp [] t path c ≡ false
  unfolding decide scan
  decide_nothing kv path c = refl
  decide_nothing service path c = refl
  decide_nothing health path c = refl
  decide_nothing backup path c = refl
  decide_nothing admin path c = refl
  decide_nothing (other t) path c = refl

  -- The two tests for empty lists change nothing.
  evaluate-decide :
      (e : Evaluator) (names : List String) (r : Resource) (c : Capability)
      → evaluate regexp e names r c ≡ decide regexp (applicable names e) r.type_ r.path c
  unfolding evaluate applicable
  evaluate-decide e names r c = by_names names (applicable names e) refl
    where
      by_names :
          (ns : List String) (ps : List Policy)
          → applicable ns e ≡ ps
          → (if is_empty regexp ns
              then false
              else if is_empty regexp ps
              then false
              else decide regexp ps r.type_ r.path c)
            ≡ decide regexp ps r.type_ r.path c
      by_names ns [] h = ground (arith, decide_nothing r.type_ r.path c)
      by_names [] (p ∷ ps) h = cc
      by_names (n ∷ ns) (p ∷ ps) h = refl

  -- The decision is that of the first rule that counts: of all rules of the policies that are named
  -- and exist, in the order of the names, the first that matches and lists the capability or
  -- "deny" grants the access unless it lists "deny"; where there is none, the access is denied.
  pub evaluate-described :
      (e : Evaluator) (names : List String) (r : Resource) (c : Capability)
      → evaluate regexp e names r c ≡ described (applicable names e) r.type_ r.path c
  evaluate-described e names r c =
      evaluate-decide e names r c ∙ decide-described (applicable names e) r.type_ r.path c

  decide-append :
      (ps qs : List Policy) (t : ResourceType) (path : String) (c : Capability)
      → decide regexp ps t path c ≡ true
      → decide regexp (ps ++ qs) t path c ≡ true
  unfolding decide
  decide-append ps qs kv path c h = scan-append (kv_view regexp path) c ps qs h
  decide-append ps qs service path c h = scan-append (service_view regexp path) c ps qs h
  decide-append ps qs health path c h =
      scan-append (plain_view regexp (λ p. p.health_rules)) c ps qs h
  decide-append ps qs backup path c h =
      scan-append (plain_view regexp (λ p. p.backup_rules)) c ps qs h
  decide-append ps qs admin path c h =
      scan-append (plain_view regexp (λ p. p.admin_rules)) c ps qs h
  decide-append ps qs (other t) path c h = cc

  -- An access that some policies grant stays granted when more policies are named after them,
  -- whatever these say, also if they deny it.
  pub evaluate-append :
      (e : Evaluator) (names more : List String) (r : Resource) (c : Capability)
      → evaluate regexp e names r c ≡ true
      → evaluate regexp e (names ++ more) r c ≡ true
  evaluate-append e names more r c h =
      rw (evaluate-decide e (names ++ more) r c, applicable-append names more e)
        (decide-append (applicable names e) (applicable more e) r.type_ r.path c
          (sym (evaluate-decide e names r c) ∙ h))
