-- ===== src/Registry/Cleanup.antt =====
-- The removal of expired services, `CleanupExpired` of internal/store/service.go, as the calls after
-- it see it.
use konsul.Prelude.{
  inl, inr, ℕ, ◌≤◌, ◌<◌, Bool, true, false, ◌&&◌, String, none, some, List, [], ◌∷◌, ◌≡◌, refl,
  arith, str_eq, eq_iff, if◌then◌else◌,
}
use konsul.Prelude.Dict.{find, find-erase}
use konsul.Prelude.Names.{has}
use konsul.Prelude.Keys.{keys, find-has}
use konsul.Registry.{
  Entry, Registry, not_found, deregister_local, deregister_cas_local, is_over, cleanup_one,
  cleanup_names, cleanup_expired, get,
}

pub deregister_local-find :
    (name n : String) (s : Registry)
    → find n (deregister_local name s).data_ ≡ (if str_eq name n then none else find n s.data_)
unfolding deregister_local
deregister_local-find name n s = find-erase name n s.data_

cleanup_one-find :
    (b : Bool) (name n : String) (r : ℕ × Registry)
    → find n (cleanup_one b name r).1.data_
      ≡ (if b && str_eq name n then none else find n r.1.data_)
cleanup_one-find true name n (k, s) = deregister_local-find name n s
cleanup_one-find false name n r = refl

cleanup_names-find :
    (now : ℕ) (names : List String) (n : String) (r : ℕ × Registry)
    → find n (cleanup_names now names r).1.data_
      ≡ (if has n names && is_over now (find n r.1.data_) then none else find n r.1.data_)
unfolding has cleanup_names
cleanup_names-find now [] n r = ground arith
cleanup_names-find now (name ∷ names) n r = ground (
  arith,
  cleanup_names-find now names n (cleanup_one (is_over now (find name r.1.data_)) name r),
  cleanup_one-find (is_over now (find name r.1.data_)) name n r,
  eq_iff name n,
)

-- The removal takes the entries that are over and no others.
pub cleanup_expired-find :
    (now : ℕ) (n : String) (s : Registry)
    → find n (cleanup_expired now s).1.data_
      ≡ (if is_over now (find n s.data_) then none else find n s.data_)
unfolding cleanup_expired
cleanup_expired-find now n s =
    ground (arith, cleanup_names-find now (keys s.data_) n (0, s), find-has n s.data_)

-- From the time of the removal on, no lookup can tell whether it was made.
pub cleanup_expired-get :
    (now t : ℕ) (n : String) (s : Registry)
    → now ≤ t
    → get t n (cleanup_expired now s).1 ≡ get t n s
unfolding get
cleanup_expired-get now t n s h = ground (arith, cleanup_expired-find now n s)

-- A deregistration that expects the index of an entry whose lease is over succeeds while the entry is
-- not yet removed, and finds no service where the removal was made.
pub cleanup_expired-deregister_cas :
    (now : ℕ) (n : String) (e : Entry) (s : Registry)
    → find n s.data_ ≡ some e
    → e.expires_at < now
    → ((deregister_cas_local n e.modify_index s).0 ≡ inr tt)
      × ((deregister_cas_local n e.modify_index (cleanup_expired now s).1).0 ≡ inl not_found)
unfolding deregister_cas_local
cleanup_expired-deregister_cas now n e s h k =
    (ground (arith, h), ground (arith, h, k, cleanup_expired-find now n s))
