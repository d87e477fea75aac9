-- ===== src/Registry/Lease.antt =====
-- Heartbeats: how long the registry of internal/store/service.go keeps a service.
use mathlib.Core.Bool.{false≢true}
use konsul.Prelude.{
  inl, inr, ℕ, ◌+◌, String, Option, none, some, List, [], ◌∷◌, ◌≡◌, refl, sym, ap, ◌∙◌, arith, ltb,
  str_eq, eq_iff, eq_refl, is_some, if◌then◌else◌, Option-cases,
}
use konsul.Prelude.Dict.{Dict, find, find-put}
use konsul.Prelude.Keys.{keys}
use konsul.Registry.{
  Entry, Registry, new_registry, leave_indices, store_service, register_local, deregister_local,
  register_cas_local, deregister_cas_local, extended, heartbeat_local, is_over, cleanup_one,
  cleanup_names, cleanup_expired, restored, restore_names, restore_from_snapshot, get,
}
use konsul.Registry.Validate.{Service, validate_service}
use konsul.Registry.Restore.{restore_from_snapshot-find}
use konsul.Registry.Cleanup.{deregister_local-find, cleanup_expired-find}
use konsul.Registry.Fresh.{registered, store_service-find}
use konsul.Registry.Commands.{
  Command, register, deregister, heartbeat, register_cas, deregister_cas, cleanup, restore, apply,
  apply_all,
}

-- When a lease on a name ends after a command, if the command leaves the lease: a heartbeat renews
-- it, a registration or a deregistration of the name ends it, and so does a removal after its time.
abbrev pub lease : String → ℕ → ℕ → Command → Option ℕ
lease n ttl ends (register now v) = if str_eq v.name n then none else some ends
lease n ttl ends (deregister name) = if str_eq name n then none else some ends
lease n ttl ends (heartbeat now name) = if str_eq name n then some (now + ttl) else some ends
lease n ttl ends (register_cas now v expected) = if str_eq v.name n then none else some ends
lease n ttl ends (deregister_cas name expected) = if str_eq name n then none else some ends
lease n ttl ends (cleanup now) = if ltb ends now then none else some ends
lease n ttl ends restore = some ends

abbrev pub leases : String → ℕ → Option ℕ → List Command → Option ℕ
leases n ttl none cs = none
leases n ttl (some ends) [] = some ends
leases n ttl (some ends) (c ∷ cs) = leases n ttl (lease n ttl ends c) cs

-- The entry until another time.
abbrev pub until : Entry → Option ℕ → Option Entry
until e none = none
until e (some ends) = some (record e { expires_at = ends })

extended-find :
    (now : ℕ) (name n : String) (s : Registry) (o : Option Entry) (e : Entry)
    → find name s.data_ ≡ o
    → find n s.data_ ≡ some e
    → find n (extended now s o name).1.data_
      ≡ (if str_eq name n then some (record e { expires_at = now + s.ttl }) else some e)
extended-find now name n s none e h k = ground (arith, h, k, eq_iff name n)
extended-find now name n s (some old) e h k =
    ground (
      arith,
      h,
      k,
      eq_iff name n,
      find-put name (record old { expires_at = now + s.ttl }) n s.data_,
    )

apply-lease :
    (n : String) (c : Command) (s : Registry) (e : Entry) (ends : ℕ)
    → find n s.data_ ≡ some e
    → lease n s.ttl e.expires_at c ≡ some ends
    → find n (apply c s).data_ ≡ until e (some ends)
unfolding apply register_local register_cas_local deregister_cas_local heartbeat_local
apply-lease n (register now v) s e ends h l = ground (arith, h, l, store_service-find now v s n)
apply-lease n (deregister name) s e ends h l = ground (arith, h, l, deregister_local-find name n s)
apply-lease n (heartbeat now name) s e ends h l =
    ground (arith, l, extended-find now name n s (find name s.data_) e refl h)
apply-lease n (register_cas now v expected) s e ends h l =
    ground (arith, h, l, store_service-find now v s n)
apply-lease n (deregister_cas name expected) s e ends h l =
    ground (arith, h, l, deregister_local-find name n s)
apply-lease n (cleanup now) s e ends h l = ground (arith, h, l, cleanup_expired-find now n s)
apply-lease n restore s e ends h l = ground (arith, h, l, restore_from_snapshot-find s.data_ s n)

leave_indices-ttl :
    (name : String) (o : Option Entry) (s : Registry) → (leave_indices name o s).ttl ≡ s.ttl
leave_indices-ttl name none s = refl
leave_indices-ttl name (some e) s = refl

store_service-ttl : (now : ℕ) (v : Service) (s : Registry) → (store_service now v s).ttl ≡ s.ttl
unfolding store_service
store_service-ttl now v s = leave_indices-ttl v.name (find v.name s.data_) s

cleanup_names-ttl :
    (now : ℕ) (names : List String) (r : ℕ × Registry) → (cleanup_names now names r).1.ttl ≡ r.1.ttl
unfolding cleanup_names deregister_local
cleanup_names-ttl now [] r = refl
cleanup_names-ttl now (name ∷ names) r = ground (
  arith,
  cleanup_names-ttl now names (cleanup_one (is_over now (find name r.1.data_)) name r),
  leave_indices-ttl name (find name r.1.data_) r.1,
)

restore_names-ttl :
    (names : List String) (snapshot : Dict Entry) (s : Registry)
    → (restore_names names snapshot s).ttl ≡ s.ttl
unfolding restore_names
restore_names-ttl [] snapshot s = refl
restore_names-ttl (name ∷ names) snapshot s =
    ground (arith, restore_names-ttl names snapshot (restored name (find name snapshot) s))

apply-ttl : (c : Command) (s : Registry) → (apply c s).ttl ≡ s.ttl
unfolding apply register_local register_cas_local deregister_cas_local heartbeat_local
    cleanup_expired deregister_local restore_from_snapshot
apply-ttl (register now v) s = ground (arith, store_service-ttl now v s)
apply-ttl (deregister name) s = leave_indices-ttl name (find name s.data_) s
apply-ttl (heartbeat now name) s = ground arith
apply-ttl (register_cas now v expected) s = ground (arith, store_service-ttl now v s)
apply-ttl (deregister_cas name expected) s =
    ground (arith, leave_indices-ttl name (find name s.data_) s)
apply-ttl (cleanup now) s = cleanup_names-ttl now (keys s.data_) (0, s)
apply-ttl restore s = restore_names-ttl (keys s.data_) s.data_ (new_registry s.ttl)

apply_all-leases :
    (n : String) (cs : List Command) (s : Registry) (e : Entry) (ends : ℕ)
    → find n s.data_ ≡ some e
    → leases n s.ttl (some e.expires_at) cs ≡ some ends
    → find n (apply_all cs s).data_ ≡ until e (some ends)
unfolding apply_all
apply_all-leases n [] s e ends h l = h ∙ ap (until e) l
apply_all-leases n (c ∷ cs) s e ends h l = elim (Option-cases (lease n s.ttl e.expires_at c)) [
  | inl over ↦ absurd (false≢true (ap is_some (sym (ap (λ o. leases n s.ttl o cs) over) ∙ l)))
  | inr (m, goes_on) ↦
      apply_all-leases n cs (apply c s) (record e { expires_at = m }) ends
        (apply-lease n c s e m h goes_on)
        (rw (apply-ttl c s) (sym (ap (λ o. leases n s.ttl o cs) goes_on) ∙ l))
]

-- A valid service is registered and further commands run, none of which registers or deregisters
-- its name, and no removal of expired services comes after the end of its lease, which each
-- heartbeat moves to its own time plus the registry's. A lookup then finds the service up to and
-- at the end of the lease, and not after it.
pub register_local-get :
    (now t ends : ℕ) (v : Service) (cs : List Command) (s : Registry)
    → validate_service v ≡ none
    → leases v.name s.ttl (some (now + s.ttl)) cs ≡ some ends
    → get t v.name (apply_all cs (register_local now v s).1) ≡ (if ltb ends t then none else some v)
unfolding register_local get
register_local-get now t ends v cs s valid l =
    let new = store_service now v s in
    let kept =
      apply_all-leases v.name cs new (registered now v s) ends
        (ground (arith, store_service-find now v s v.name, eq_refl v.name))
        (rw (store_service-ttl now v s) l) in
    rw valid (ground (arith, kept))
