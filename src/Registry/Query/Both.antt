-- ===== src/Registry/Query/Both.antt =====
-- What the query by tags and metadata of internal/store/service_query.go answers.
use konsul.Prelude.{
  ℕ, Bool, true, ◌&&◌, String, none, some, List, [], ◌∷◌, ◌≡◌, refl, ap, ◌∙◌, arith, map, keep,
  str_eq, eq_iff, is_some, if◌then◌else◌,
}
use konsul.Prelude.Dict.{Dict, find}
use konsul.Prelude.Names.{has, before_refl}
use konsul.Prelude.Keys.{distinct}
use konsul.Registry.{Registry}
use konsul.Registry.Validate.{Service}
use konsul.Registry.Agrees.{Agrees}
use konsul.Registry.Query.{
  query_by_tags, query_by_metadata, name_of, sort_service, sort_services, in_both,
  query_by_tags_and_metadata,
}
use konsul.Registry.Query.Answers.{named, live, has_tags, query_by_tags-live}
use konsul.Registry.Query.Filters.{has_pairs, query_by_metadata-live}

named-sort_service :
    (n : String) (v : Service) (ws : List Service)
    → named n (sort_service v ws) ≡ (if str_eq v.name n then some v else named n ws)
unfolding named sort_service
named-sort_service n v [] = refl
named-sort_service n v (w ∷ ws) = ground (
  arith,
  named-sort_service n v ws,
  before_refl v.name w.name,
  eq_iff v.name w.name,
  eq_iff v.name n,
  eq_iff w.name n,
)

named-sort_services : (n : String) (vs : List Service) → named n (sort_services vs) ≡ named n vs
unfolding named sort_services
named-sort_services n [] = refl
named-sort_services n (v ∷ vs) =
    ground (arith, named-sort_service n v (sort_services vs), named-sort_services n vs)

has-names : (n : String) (vs : List Service) → has n (map name_of vs) ≡ is_some (named n vs)
unfolding has named
has-names n [] = refl
has-names n (v ∷ vs) = ground (arith, has-names n vs)

named-keep :
    (n : String) (names : List String) (vs : List Service)
    → named n (keep (λ w. has (name_of w) names) vs) ≡ (if has n names then named n vs else none)
unfolding named
named-keep n names [] = ground arith
named-keep n names (v ∷ vs) = ground (arith, named-keep n names vs, eq_iff v.name n)

named-in_both :
    (n : String) (vs metas : List Service)
    → named n (in_both vs metas) ≡ (if is_some (named n vs) then named n metas else none)
unfolding named
named-in_both n [] metas = refl
named-in_both n (v ∷ vs) metas =
    named-sort_services n (keep (λ w. has (name_of w) (map name_of (v ∷ vs))) metas)
    ∙ named-keep n (map name_of (v ∷ vs)) metas
    ∙ ap (λ (b : Bool). if b then named n metas else none) (has-names n (v ∷ vs))

-- A query by tags and metadata makes two queries, between which the registry can change. The answer
-- has, under each name, the service that the second registry has under that name, if it has all
-- the pairs and has not expired, and the first registry had a service of that name that had all
-- the tags and had not expired; and nothing otherwise. There is a tag and a filter, the keys of the
-- filters differ, and the indices of both registries agree with their entries.
pub query_by_tags_and_metadata-live :
    (now later : ℕ) (n tag key value : String) (tags : List String) (filters : Dict String)
    (s s' : Registry)
    → Agrees s
    → Agrees s'
    → distinct ((key, value) ∷ filters) ≡ true
    → named n (query_by_tags_and_metadata now s later s' (tag ∷ tags) ((key, value) ∷ filters)) ≡ (
        if (has_tags (tag ∷ tags) (find n s.data_) && is_some (live now (find n s.data_)))
          && has_pairs ((key, value) ∷ filters) (find n s'.data_)
        then live later (find n s'.data_)
        else none)
unfolding query_by_tags_and_metadata
query_by_tags_and_metadata-live now later n tag key value tags filters s s' a b d = ground (
  arith,
  named-in_both n (query_by_tags now (tag ∷ tags) s)
      (query_by_metadata later ((key, value) ∷ filters) s'),
  query_by_tags-live now n (tag ∷ tags) s a,
  query_by_metadata-live later n ((key, value) ∷ filters) s' b d,
)
