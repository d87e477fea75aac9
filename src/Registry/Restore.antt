-- ===== src/Registry/Restore.antt =====
-- internal/store/service.go, `RestoreFromSnapshot`: what a registry holds after it.
use konsul.Prelude.{
  true, ◌&&◌, String, Option, none, some, List, [], ◌∷◌, ◌≡◌, refl, sym, ap, ◌∙◌, arith, str_eq,
  eq_iff, eq_refl, is_some, if◌then◌else◌,
}
use konsul.Prelude.Dict.{Dict, find, find-put}
use konsul.Prelude.Names.{has}
use konsul.Prelude.Keys.{keys, differ, distinct, find-has}
use konsul.Registry.{Entry, Registry, new_registry, restored, restore_names, restore_from_snapshot}
use konsul.Registry.Index.{tagged, listed}
use konsul.Registry.Agrees.{Agrees, has_tag, meta_times, is_named, join-Agrees, new_registry-Agrees}

restored-find :
    (name n : String) (o : Option Entry) (s : Registry)
    → find n (restored name o s).data_ ≡ (if str_eq name n && is_some o then o else find n s.data_)
restored-find name n none s = ground arith
restored-find name n (some e) s = ground (arith, find-put name e n s.data_)

restored-Agrees :
    (name : String) (o : Option Entry) (s : Registry)
    → is_named name o ≡ true
    → find name s.data_ ≡ none
    → Agrees s
    → Agrees (restored name o s)
restored-Agrees name none s named fresh a = a
restored-Agrees name (some e) s named fresh a =
    let joined =
      join-Agrees name e s named (λ t n. ground (arith, eq_iff name n, a.by_tag t n))
        (λ k v n. ground (arith, eq_iff name n, a.by_meta k v n)) a.by_name a.differ in
    record {
      by_tag = joined.by_tag;
      by_meta = joined.by_meta;
      by_name = joined.by_name;
      differ = joined.differ;
    }

restore_names-Agrees :
    (names : List String) (snapshot : Dict Entry) (s : Registry)
    → differ names ≡ true
    → ((n : String) → is_named n (find n snapshot) ≡ true)
    → ((n : String) → has n names ≡ true → find n s.data_ ≡ none)
    → Agrees s
    → Agrees (restore_names names snapshot s)
unfolding differ has restore_names
restore_names-Agrees [] snapshot s d named fresh a = a
restore_names-Agrees (name ∷ names) snapshot s d named fresh a =
    restore_names-Agrees names snapshot (restored name (find name snapshot) s) (ground (arith, d))
      named
      (λ n h.
        ground (arith, d, h, fresh n, restored-find name n (find name snapshot) s, eq_iff name n))
      (restored-Agrees name (find name snapshot) s (named name)
        (ground (arith, fresh name, eq_refl name)) a)

restore_names-find :
    (names : List String) (snapshot : Dict Entry) (s : Registry) (n : String)
    → find n (restore_names names snapshot s).data_
      ≡ (if has n names && is_some (find n snapshot) then find n snapshot else find n s.data_)
unfolding has restore_names
restore_names-find [] snapshot s n = ground arith
restore_names-find (name ∷ names) snapshot s n = ground (
  arith,
  restore_names-find names snapshot (restored name (find name snapshot) s) n,
  restored-find name n (find name snapshot) s,
  eq_iff name n,
)

-- The restored registry has the entries of the snapshot.
pub restore_from_snapshot-find :
    (snapshot : Dict Entry) (s : Registry) (n : String)
    → find n (restore_from_snapshot snapshot s).data_ ≡ find n snapshot
unfolding restore_from_snapshot find
restore_from_snapshot-find snapshot s n =
    ground (
      arith,
      restore_names-find (keys snapshot) snapshot (new_registry s.ttl) n,
      find-has n snapshot,
    )

pub restore_from_snapshot-Agrees :
    (snapshot : Dict Entry) (s : Registry)
    → distinct snapshot ≡ true
    → ((n : String) → is_named n (find n snapshot) ≡ true)
    → Agrees (restore_from_snapshot snapshot s)
unfolding restore_from_snapshot find
restore_from_snapshot-Agrees snapshot s d named =
    restore_names-Agrees (keys snapshot) snapshot (new_registry s.ttl) d named (λ n h. refl)
      (new_registry-Agrees s.ttl)

-- A registry whose indices agree with its entries, and which restarts from its own snapshot, has the same entries, and the two indices hold
-- the same names as before.
restore_from_snapshot-indices :
    (s : Registry) (n t k v : String)
    → Agrees s
    → (find n (restore_from_snapshot s.data_ s).data_ ≡ find n s.data_)
      × (tagged t n (restore_from_snapshot s.data_ s).tag_index ≡ tagged t n s.tag_index)
      × (listed k v n (restore_from_snapshot s.data_ s).meta_index ≡ listed k v n s.meta_index)
restore_from_snapshot-indices s n t k v a =
    let same = restore_from_snapshot-find s.data_ s n in
    let new = restore_from_snapshot-Agrees s.data_ s a.differ a.by_name in
    (
      same,
      new.by_tag t n ∙ ap (has_tag t) same ∙ sym (a.by_tag t n),
      new.by_meta k v n ∙ ap (meta_times k v) same ∙ sym (a.by_meta k v n),
    )
