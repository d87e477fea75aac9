-- ===== src/Registry/Query/Answers.antt =====
-- What the queries of internal/store/service_query.go answer, by the entries of the registry.
use konsul.Prelude.{
  ℕ, Bool, true, ◌&&◌, String, Option, none, some, List, [], ◌∷◌, ◌++◌, ◌≡◌, refl, ap, ◌∙◌, arith,
  map, keep, ltb, str_eq, eq_iff, is_some, if◌then◌else◌,
}
use konsul.Prelude.Dict.{Dict, find}
use konsul.Prelude.Names.{has, sort, has-sort}
use konsul.Prelude.Keys.{keys, differ, distinct, find-has}
use konsul.Registry.{Entry, Registry, or_empty}
use konsul.Registry.Validate.{Service}
use konsul.Registry.Agrees.{Agrees, has_tag, is_named}
use konsul.Registry.Query.{
  offered, list_entries, intersect, offer_names, services_of, query_by_tags,
}

-- The service of a name in an answer.
unfoldable pub named : String → List Service → Option Service
named n [] = none
named n (v ∷ vs) = if str_eq v.name n then some v else named n vs

-- An entry's service, unless it has expired.
abbrev pub live : ℕ → Option Entry → Option Service
live now none = none
live now (some e) = if ltb now e.expires_at then some e.service else none

abbrev pub has_tags : List String → Option Entry → Bool
has_tags [] o = true
has_tags (tag ∷ tags) o = has_tag tag o && has_tags tags o

named-offered :
    (now : ℕ) (n name : String) (o : Option Entry) (vs : List Service)
    → is_named name o ≡ true
    → named n (offered now o ++ vs)
      ≡ (if str_eq name n && is_some (live now o) then live now o else named n vs)
unfolding named
named-offered now n name none vs h = ground arith
named-offered now n name (some e) vs h = ground (arith, h, eq_iff e.service.name name)

module _ (now : ℕ) (s : Registry) (a : Agrees s) where
  named-offer_names :
      (n : String) (names : List String)
      → named n (offer_names now s.data_ names)
        ≡ (if has n names then live now (find n s.data_) else none)
  unfolding named has offer_names
  named-offer_names n [] = refl
  named-offer_names n (name ∷ names) = ground (
    arith,
    named-offer_names n names,
    eq_iff name n,
    named-offered now n name (find name s.data_) (offer_names now s.data_ names) (a.by_name name),
  )

  pub named-services_of :
      (n : String) (names : List String)
      → named n (services_of now s names)
        ≡ (if has n names then live now (find n s.data_) else none)
  named-services_of n names =
      named-offer_names n (sort names)
      ∙ ap (λ (b : Bool). if b then live now (find n s.data_) else none) (has-sort n names)

-- Whether all the sets are there and have the name.
abbrev pub in_all : String → List (Option (List String)) → Bool
in_all n [] = true
in_all n (o ∷ sets) = has n (or_empty o) && in_all n sets

has-keep :
    (n : String) (set names : List String)
    → has n (keep (λ name. has name set) names) ≡ (has n names && has n set)
unfolding has
has-keep n set [] = refl
has-keep n set (name ∷ names) = ground (arith, has-keep n set names, eq_iff name n)

pub has-intersect :
    (n : String) (sets : List (Option (List String))) (names : List String)
    → has n (intersect sets names) ≡ (has n names && in_all n sets)
unfolding has intersect
has-intersect n [] names = ground arith
has-intersect n (none ∷ sets) names = ground arith
has-intersect n (some set ∷ sets) names =
    ground (arith, has-intersect n sets (keep (λ name. has name set) names), has-keep n set names)

pub in_all-tags :
    (n : String) (tags : List String) (s : Registry)
    → Agrees s
    → in_all n (map (λ t. find t s.tag_index) tags) ≡ has_tags tags (find n s.data_)
in_all-tags n [] s a = refl
in_all-tags n (tag ∷ tags) s a = ground (arith, in_all-tags n tags s a, a.by_tag tag n)

pub named-list_entries :
    (now : ℕ) (n : String) (d : Dict Entry)
    → distinct d ≡ true
    → ((m : String) → is_named m (find m d) ≡ true)
    → named n (list_entries now d) ≡ live now (find n d)
unfolding named list_entries find keys differ has
named-list_entries now n [] differ_ names = refl
named-list_entries now n ((k, e) ∷ d) differ_ names =
    let rest =
      named-list_entries now n d (ground (arith, differ_))
        (λ m. ground (arith, differ_, names m, find-has m d, eq_iff k m)) in
    ground (
      arith,
      rest,
      differ_,
      find-has k d,
      eq_iff k n,
      names k,
      eq_iff k k,
      named-offered now n k (some e) (list_entries now d),
    )

-- The answer to a query by tags has, under each name, the service that the registry has under that
-- name, if it has all the tags and has not expired, and nothing otherwise; with no tags, it is the
-- list of all. The indices of the registry agree with its entries.
pub query_by_tags-live :
    (now : ℕ) (n : String) (tags : List String) (s : Registry)
    → Agrees s
    → named n (query_by_tags now tags s)
      ≡ (if has_tags tags (find n s.data_) then live now (find n s.data_) else none)
unfolding query_by_tags
query_by_tags-live now n [] s a = named-list_entries now n s.data_ a.differ a.by_name
query_by_tags-live now n (tag ∷ tags) s a = ground (
  arith,
  a.by_tag tag n,
  in_all-tags n tags s a,
  has-intersect n (map (λ t. find t s.tag_index) tags) (or_empty (find tag s.tag_index)),
  named-services_of now s a n
      (intersect (map (λ t. find t s.tag_index) tags) (or_empty (find tag s.tag_index))),
)
