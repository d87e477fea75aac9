-- ===== src/Registry/Agrees.antt =====
-- The two indices of the registry of internal/store/service.go against its services.
use konsul.Prelude.{
  ℕ, ◌+◌, Bool, true, false, not, ◌&&◌, String, Option, none, some, ◌≡◌, refl, arith, str_eq,
  eq_iff, eq_refl, if◌then◌else◌,
}
use konsul.Prelude.Dict.{find, find-put, find-erase}
use konsul.Prelude.Names.{has, count}
use konsul.Prelude.Keys.{keys, differ, distinct, distinct-put, distinct-erase}
use konsul.Registry.{
  Entry, Registry, new_registry, leave_indices, join_indices, store_service, deregister_local,
  extended, keys,
}
use konsul.Registry.Validate.{Service}
use konsul.Registry.Index.{
  tagged, tagged-add_to_tag_index, tagged-remove_from_tag_index, listed, times,
  listed-add_to_meta_index, listed-remove_from_meta_index,
}

-- What an entry that may be there says of a tag, of a metadata pair, and of its name.
abbrev pub has_tag : String → Option Entry → Bool
has_tag t none = false
has_tag t (some e) = has t e.service.tags

abbrev pub meta_times : String → String → Option Entry → ℕ
meta_times k v none = 0
meta_times k v (some e) = times k v e.service.meta

abbrev pub is_named : String → Option Entry → Bool
is_named n none = true
is_named n (some e) = str_eq e.service.name n

-- The tag index holds a name under a tag exactly if the service of that name has the tag; the
-- metadata index lists it under a key and a value as often as the service has that pair; and
-- each service stands under its own name, which no other entry has.
pub record Agrees (s : Registry) : Type 0 where
  pub by_tag : (t n : String) → tagged t n s.tag_index ≡ has_tag t (find n s.data_)
  pub by_meta : (k v n : String) → listed k v n s.meta_index ≡ meta_times k v (find n s.data_)
  pub by_name : (n : String) → is_named n (find n s.data_) ≡ true
  pub differ : distinct s.data_ ≡ true

pub new_registry-Agrees : (ttl : ℕ) → Agrees (new_registry ttl)
unfolding find has count keys differ
new_registry-Agrees ttl = record {
  by_tag = λ t n. refl;
  by_meta = λ k v n. refl;
  by_name = λ n. refl;
  differ = refl;
}

left-tagged :
    (name t n : String) (o : Option Entry) (s : Registry)
    → Agrees s
    → find name s.data_ ≡ o
    → tagged t n (leave_indices name o s).tag_index
      ≡ (not (str_eq name n) && has_tag t (find n s.data_))
left-tagged name t n none s a h = ground (arith, eq_iff name n, a.by_tag t n)
left-tagged name t n (some e) s a h = ground (
  arith,
  eq_iff name n,
  a.by_tag t n,
  tagged-remove_from_tag_index t n name e.service.tags s.tag_index,
)

left-listed :
    (name k v n : String) (o : Option Entry) (s : Registry)
    → Agrees s
    → find name s.data_ ≡ o
    → listed k v n (leave_indices name o s).meta_index
      ≡ (if str_eq name n then 0 else meta_times k v (find n s.data_))
left-listed name k v n none s a h = ground (arith, eq_iff name n, a.by_meta k v n)
left-listed name k v n (some e) s a h = ground (
  arith,
  eq_iff name n,
  a.by_meta k v n,
  listed-remove_from_meta_index k v n name e.service.meta s.meta_index,
)

pub join-Agrees :
    (name : String) (e : Entry) (s : Registry)
    → str_eq e.service.name name ≡ true
    → ((t n : String)
        → tagged t n s.tag_index ≡ (not (str_eq name n) && has_tag t (find n s.data_)))
    → ((k v n : String)
        → listed k v n s.meta_index
          ≡ (if str_eq name n then 0 else meta_times k v (find n s.data_)))
    → ((n : String) → is_named n (find n s.data_) ≡ true)
    → distinct s.data_ ≡ true
    → Agrees (join_indices name e s)
join-Agrees name e s named tags meta names d = record {
  by_tag = λ t n. ground (
    arith,
    tags t n,
    tagged-add_to_tag_index t n name e.service.tags s.tag_index,
    find-put name e n s.data_,
  );
  by_meta = λ k v n. ground (
    arith,
    meta k v n,
    listed-add_to_meta_index k v n name e.service.meta s.meta_index,
    find-put name e n s.data_,
  );
  by_name = λ n. ground (
    arith,
    names n,
    find-put name e n s.data_,
    eq_iff name n,
    eq_iff e.service.name n,
    eq_iff e.service.name name,
  );
  differ = distinct-put name e s.data_ d;
}

pub leave_indices-data :
    (name : String) (o : Option Entry) (s : Registry) → (leave_indices name o s).data_ ≡ s.data_
leave_indices-data name none s = refl
leave_indices-data name (some e) s = refl

pub store_service-Agrees :
    (now : ℕ) (service : Service) (s : Registry) → Agrees s → Agrees (store_service now service s)
unfolding store_service
store_service-Agrees now service s a =
    let data_ = leave_indices-data service.name (find service.name s.data_) s in
    join-Agrees service.name _ _ (eq_refl service.name)
      (λ t n. rw data_ (left-tagged service.name t n (find service.name s.data_) s a refl))
      (λ k v n. rw data_ (left-listed service.name k v n (find service.name s.data_) s a refl))
      (λ n. rw data_ (a.by_name n)) (rw data_ a.differ)

pub deregister_local-Agrees :
    (name : String) (s : Registry) → Agrees s → Agrees (deregister_local name s)
unfolding deregister_local
deregister_local-Agrees name s a = record {
  by_tag = λ t n.
      ground (arith, left-tagged name t n (find name s.data_) s a refl, find-erase name n s.data_);
  by_meta = λ k v n.
      ground
        (arith, left-listed name k v n (find name s.data_) s a refl, find-erase name n s.data_);
  by_name = λ n. ground (arith, a.by_name n, find-erase name n s.data_);
  differ = distinct-erase name s.data_ a.differ;
}

pub heartbeat_local-Agrees :
    (now : ℕ) (name : String) (s : Registry) (o : Option Entry)
    → find name s.data_ ≡ o
    → Agrees s
    → Agrees (extended now s o name).1
heartbeat_local-Agrees now name s none h a = a
heartbeat_local-Agrees now name s (some e) h a = record {
  by_tag = λ t n. ground (
    arith,
    a.by_tag t n,
    find-put name (record e { expires_at = now + s.ttl }) n s.data_,
    eq_iff name n,
  );
  by_meta = λ k v n. ground (
    arith,
    a.by_meta k v n,
    find-put name (record e { expires_at = now + s.ttl }) n s.data_,
    eq_iff name n,
  );
  by_name = λ n. ground (
    arith,
    a.by_name n,
    find-put name (record e { expires_at = now + s.ttl }) n s.data_,
    eq_iff name n,
  );
  differ = distinct-put name (record e { expires_at = now + s.ttl }) s.data_ a.differ;
}
