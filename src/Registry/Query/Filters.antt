-- ===== src/Registry/Query/Filters.antt =====
-- What the queries of internal/store/service_query.go answer to filters on the metadata.
use konsul.Prelude.{
  ℕ, Bool, true, false, not, ◌&&◌, String, Option, none, some, List, [], ◌∷◌, ◌≡◌, refl, arith, map,
  keep, ltb, str_eq, if◌then◌else◌,
}
use konsul.Prelude.Dict.{Dict, find}
use konsul.Prelude.Names.{has, count, has-count, has-insert}
use konsul.Prelude.Keys.{keys, differ, distinct}
use konsul.Registry.{Entry, MetaIndex, Registry, or_empty}
use konsul.Registry.Agrees.{Agrees, meta_times}
use konsul.Registry.Index.{listed}
use konsul.Registry.Query.{intersect, under_key, under, set_of, query_by_metadata}
use konsul.Registry.Query.Answers.{
  named, live, in_all, has-intersect, named-services_of, named-list_entries,
}

-- Whether an entry has the pairs, each at least once.
abbrev pub has_pairs : Dict String → Option Entry → Bool
has_pairs [] o = true
has_pairs ((k, v) ∷ filters) o = ltb 0 (meta_times k v o) && has_pairs filters o

has-under :
    (n k v : String) (idx : MetaIndex) (o : Option (Dict (List String)))
    → find k idx ≡ o
    → has n (or_empty (under_key v o)) ≡ ltb 0 (listed k v n idx)
unfolding find has count
has-under n k v idx none h = ground (arith, h)
has-under n k v idx (some values) h = ground (arith, h, has-count n (or_empty (find v values)))

has-set_of : (n : String) (names : List String) → has n (set_of names) ≡ has n names
unfolding has set_of
has-set_of n [] = refl
has-set_of n (name ∷ names) = ground (arith, has-set_of n names, has-insert n name (set_of names))

-- Filters with other keys than the first are all kept.
keep-others :
    (key : String) (filters : Dict String)
    → has key (keys filters) ≡ false
    → keep (λ filter. not (str_eq filter.0 key)) filters ≡ filters
unfolding has keys
keep-others key [] h = refl
keep-others key ((k, v) ∷ filters) h = ground (arith, h, keep-others key filters)

in_all-pairs :
    (n : String) (filters : Dict String) (s : Registry)
    → Agrees s
    → in_all n (map (under s.meta_index) filters) ≡ has_pairs filters (find n s.data_)
in_all-pairs n [] s a = refl
in_all-pairs n ((k, v) ∷ filters) s a = ground (
  arith,
  in_all-pairs n filters s a,
  a.by_meta k v n,
  has-under n k v s.meta_index (find k s.meta_index) refl,
)

-- The answer to a query by metadata has, under each name, the service that the registry has under
-- that name, if it has all the pairs and has not expired, and nothing otherwise; the keys of the
-- filters differ, and the indices of the registry agree with its entries.
pub query_by_metadata-live :
    (now : ℕ) (n : String) (filters : Dict String) (s : Registry)
    → Agrees s
    → distinct filters ≡ true
    → named n (query_by_metadata now filters s)
      ≡ (if has_pairs filters (find n s.data_) then live now (find n s.data_) else none)
unfolding query_by_metadata keys differ
query_by_metadata-live now n [] s a d = named-list_entries now n s.data_ a.differ a.by_name
query_by_metadata-live now n ((k, v) ∷ filters) s a d =
    rw (keep-others k filters (ground (arith, d))) (
      ground (
        arith,
        a.by_meta k v n,
        in_all-pairs n filters s a,
        has-under n k v s.meta_index (find k s.meta_index) refl,
        has-set_of n (or_empty (under s.meta_index (k, v))),
        has-intersect n (map (under s.meta_index) filters)
            (set_of (or_empty (under s.meta_index (k, v)))),
        named-services_of now s a n (
            intersect (map (under s.meta_index) filters)
              (set_of (or_empty (under s.meta_index (k, v))))),
      ))
