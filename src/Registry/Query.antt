-- ===== src/Registry/Query.antt =====
-- internal/store/service_query.go, with `List` of service.go: the services that have given tags and
-- metadata, by the two indices. A Go map is walked in the order of its list here.
pub mod Answers
pub mod Filters
pub mod Both
use konsul.Prelude.{
  ℕ, Bool, not, String, Option, none, some, List, [], ◌∷◌, ◌++◌, map, keep, ltb, str_eq,
  if◌then◌else◌,
}
use konsul.Prelude.Dict.{Dict, find}
use konsul.Prelude.Names.{has, insert, before, sort}
use konsul.Registry.{Entry, TagIndex, MetaIndex, Registry, or_empty}
use konsul.Registry.Validate.{Service}

-- `ExpiresAt.After(now)`: a service is offered up to, and not at, the moment at which it expires.
abbrev pub offered : ℕ → Option Entry → List Service
offered now none = []
offered now (some e) = if ltb now e.expires_at then e.service ∷ [] else []

unfoldable pub list_entries : ℕ → Dict Entry → List Service
list_entries now [] = []
list_entries now ((name, e) ∷ d) = offered now (some e) ++ list_entries now d

-- `List`.
abbrev pub list : ℕ → Registry → List Service
list now s = list_entries now s.data_

-- The candidates that are in each of the sets; none where a set is missing.
unfoldable pub intersect : List (Option (List String)) → List String → List String
unfolding has
intersect [] names = names
intersect (none ∷ sets) names = []
intersect (some set ∷ sets) names = intersect sets (keep (λ name. has name set) names)

-- The services of the candidates, in the order of their names.
unfoldable pub offer_names : ℕ → Dict Entry → List String → List Service
unfolding find
offer_names now d [] = []
offer_names now d (name ∷ names) = offered now (find name d) ++ offer_names now d names

abbrev pub services_of : ℕ → Registry → List String → List Service
services_of now s names = offer_names now s.data_ (sort names)

unfoldable pub query_by_tags : ℕ → List String → Registry → List Service
unfolding list_entries intersect offer_names sort find
query_by_tags now [] s = list now s
query_by_tags now (tag ∷ tags) s =
    services_of now s
      (intersect (map (λ t. find t s.tag_index) tags) (or_empty (find tag s.tag_index)))

-- The names under a key and a value of the metadata.
abbrev pub under_key : String → Option (Dict (List String)) → Option (List String)
under_key value none = none
under_key value (some values) = find value values

abbrev pub under : MetaIndex → String × String → Option (List String)
under idx (key, value) = under_key value (find key idx)

-- A set that is made of a list.
unfoldable pub set_of : List String → List String
unfolding has
set_of [] = []
set_of (name ∷ names) = insert name (set_of names)

unfoldable pub query_by_metadata : ℕ → Dict String → Registry → List Service
unfolding list_entries intersect offer_names sort find set_of
query_by_metadata now [] s = list now s
query_by_metadata now (first ∷ filters) s = services_of now s (
    intersect (map (under s.meta_index) (keep (λ filter. not (str_eq filter.0 first.0)) filters))
      (set_of (or_empty (under s.meta_index first))))

abbrev pub name_of : Service → String
name_of v = v.name

-- `sort.Slice` by the names.
unfoldable pub sort_service : Service → List Service → List Service
sort_service v [] = v ∷ []
sort_service v (w ∷ ws) =
    let rest = sort_service v ws in if before v.name w.name then v ∷ w ∷ ws else w ∷ rest

unfoldable pub sort_services : List Service → List Service
unfolding sort_service
sort_services [] = []
sort_services (v ∷ vs) = sort_service v (sort_services vs)

-- The services of the second answer that the first has too.
abbrev pub in_both : List Service → List Service → List Service
in_both [] metas = []
in_both (v ∷ vs) metas = sort_services (keep (λ w. has (name_of w) (map name_of (v ∷ vs))) metas)

-- Each of the two queries takes the lock for itself: the registry at the second, and the time,
-- are those of another moment.
unfoldable pub query_by_tags_and_metadata :
    ℕ → Registry → ℕ → Registry → List String → Dict String → List Service
unfolding query_by_tags query_by_metadata sort_services has
query_by_tags_and_metadata now s later s' [] [] = list now s
query_by_tags_and_metadata now s later s' (tag ∷ tags) [] = query_by_tags now (tag ∷ tags) s
query_by_tags_and_metadata now s later s' [] (filter ∷ filters) =
    query_by_metadata now (filter ∷ filters) s
query_by_tags_and_metadata now s later s' (tag ∷ tags) (filter ∷ filters) =
    in_both (query_by_tags now (tag ∷ tags) s) (query_by_metadata later (filter ∷ filters) s')
