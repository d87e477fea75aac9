-- ===== src/Pages/KeyValues/Search.antt =====
-- The list of web/admin/src/pages/KVStore.tsx under a search.
use konsul.Prelude.{
  Bool, true, String, List, [], ◌∷◌, ◌≡◌, ap, ◌∙◌, ◌⊎◌, ◌↔◌, inl, inr, keep, if_rule,
}
use konsul.Prelude.Text.{includes}
use konsul.Pages.KeyValues.{KvPair, filtered}

module _ {A : Type 0} where
  -- An element stands in a list.
  abbrev pub In : A → List A → Type 0
  In x [] = ⊥
  In x (y ∷ ys) = (x ≡ y) ⊎ In x ys

  keep-In : (p : A → Bool) (x : A) (xs : List A) → In x (keep p xs) → In x xs × (p x ≡ true)
  keep-In p x [] h = elim h [ ]
  keep-In p x (y ∷ ys) h =
      if_rule (λ l. In x l → In x (y ∷ ys) × (p x ≡ true)) (p y) (y ∷ keep p ys) (keep p ys)
        (λ e i. elim i [
          | inl same ↦ (inl same, ap p same ∙ e)
          | inr later ↦ let (i', h') = keep-In p x ys later in (inr i', h')
        ])
        (λ e i. let (i', h') = keep-In p x ys i in (inr i', h')) h

  In-keep : (p : A → Bool) (x : A) (xs : List A) → In x xs → p x ≡ true → In x (keep p xs)
  In-keep p x [] i h = i
  In-keep p x (y ∷ ys) (inl same) h =
      if_rule (In x) (p y) (y ∷ keep p ys) (keep p ys) (λ e. inl same) (λ e. cc)
  In-keep p x (y ∷ ys) (inr later) h =
      if_rule (In x) (p y) (y ∷ keep p ys) (keep p ys) (λ e. inr (In-keep p x ys later h))
        (λ e. In-keep p x ys later h)

-- A search shows exactly the pairs of the list whose key has the text that is searched for, both in
-- lower case.
pub filtered_lem :
    (lower : String → String) (term : String) (pairs : List KvPair) (kv : KvPair)
    → In kv (filtered lower term pairs)
      ↔ (In kv pairs × (includes (lower kv.key) (lower term) ≡ true))
unfolding filtered
filtered_lem lower term pairs kv = (
  keep-In (λ (x : KvPair). includes (lower x.key) (lower term)) kv pairs,
  λ h. In-keep (λ (x : KvPair). includes (lower x.key) (lower term)) kv pairs h.0 h.1,
)
