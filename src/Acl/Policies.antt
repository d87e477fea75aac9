-- ===== src/Acl/Policies.antt =====
-- The policies that the evaluator of internal/acl/evaluator.go keeps.
use konsul.Prelude.{
  Bool, String, Option, none, some, List, [], ◌∷◌, ◌≡◌, refl, All, inl, inr, Option-cases,
}
use konsul.Prelude.Dict.{find, put, All-erase}
use konsul.Acl.{
  Policy, Fault, Evaluator, validate, Outcome, add_valid, add_policy, update_valid, update_policy,
  delete_found, delete_policy, load_policies,
}

-- The methods that change the evaluator, with their arguments.
pub data Change : Type 0 where
  add update : Policy → Change
  delete : String → Change
  load : List Policy → Change

module _ (regexp : String → Option (String → Bool)) where
  unfoldable pub change : Change → Evaluator → Outcome regexp
  change (add p) e = add_policy regexp p e
  change (update p) e = update_policy regexp p e
  change (delete n) e = delete_policy regexp n e
  change (load ps) e = load_policies regexp ps e

  unfoldable pub change_all : List Change → Evaluator → Evaluator
  change_all [] e = e
  change_all (c ∷ cs) e = change_all cs (change c e).1

  -- A policy is kept under its own name, and is valid.
  abbrev pub IsKept : String × Policy → Type 0
  IsKept entry = (entry.0 ≡ entry.1.name) × (validate regexp entry.1 ≡ none)

  put-IsKept :
      (p : Policy) (e : Evaluator)
      → validate regexp p ≡ none
      → All IsKept e
      → All IsKept (put p.name p e)
  unfolding put
  put-IsKept p e v h = ((refl, v), All-erase IsKept p.name e h)

  add-IsKept :
      (p : Policy) (f : Option Fault) (old : Option Policy) (e : Evaluator)
      → validate regexp p ≡ f
      → All IsKept e
      → All IsKept (add_valid regexp p f old e).1
  unfolding add_valid
  add-IsKept p (some f) old e v h = h
  add-IsKept p none (some q) e v h = h
  add-IsKept p none none e v h = put-IsKept p e v h

  update-IsKept :
      (p : Policy) (f : Option Fault) (old : Option Policy) (e : Evaluator)
      → validate regexp p ≡ f
      → All IsKept e
      → All IsKept (update_valid regexp p f old e).1
  unfolding update_valid
  update-IsKept p (some f) old e v h = h
  update-IsKept p none none e v h = h
  update-IsKept p none (some q) e v h = put-IsKept p e v h

  delete-IsKept :
      (n : String) (old : Option Policy) (e : Evaluator)
      → All IsKept e
      → All IsKept (delete_found regexp n old e).1
  unfolding delete_found
  delete-IsKept n none e h = h
  delete-IsKept n (some p) e h = All-erase IsKept n e h

  load-IsKept :
      (ps : List Policy) (e : Evaluator) → All IsKept e → All IsKept (load_policies regexp ps e).1
  unfolding load_policies
  load-IsKept [] e h = h
  load-IsKept (p ∷ ps) e h = elim (Option-cases (validate regexp p)) [
    | inl v ↦ rw (v, load_policies) (load-IsKept ps (put p.name p e) (put-IsKept p e v h))
    | inr (f, v) ↦ rw (v, load_policies) h
  ]

  change-IsKept : (c : Change) (e : Evaluator) → All IsKept e → All IsKept (change c e).1
  unfolding change add_policy update_policy delete_policy
  change-IsKept (add p) e h = add-IsKept p (validate regexp p) (find p.name e) e refl h
  change-IsKept (update p) e h = update-IsKept p (validate regexp p) (find p.name e) e refl h
  change-IsKept (delete n) e h = delete-IsKept n (find n e) e h
  change-IsKept (load ps) e h = load-IsKept ps e h

  -- After any run of additions, updates, deletions and loads, whether they fail or not, each policy
  -- is kept under its own name, has a name that is not empty, and all its patterns compile: so no
  -- decision meets a pattern that does not.
  pub change_all-IsKept :
      (cs : List Change) (e : Evaluator) → All IsKept e → All IsKept (change_all cs e)
  unfolding change_all
  change_all-IsKept [] e h = h
  change_all-IsKept (c ∷ cs) e h = change_all-IsKept cs (change c e).1 (change-IsKept c e h)
