-- ===== src/Registry/Commands.antt =====
-- internal/raft/fsm.go, the commands on services, with the other calls that change the registry of
-- a replica: the removal of expired services by the timer of cmd/konsul/main.go, and the restart
-- from a snapshot that the registry has given. Each call comes with the time at which it is made.
use konsul.Prelude.{ℕ, Bool, true, false, String, Option, none, some, List, [], ◌∷◌, refl}
use konsul.Prelude.Dict.{find}
use konsul.Prelude.Keys.{keys}
use konsul.Registry.{
  Registry, new_registry, unless_invalid, register_local, deregister_local, Refusal, unless_refused,
  register_cas_local, deregister_cas_local, heartbeat_local, is_over, cleanup_one, cleanup_names,
  cleanup_expired, restore_from_snapshot,
}
use konsul.Registry.Validate.{Service, Invalid, validate_service}
use konsul.Registry.Restore.{restore_from_snapshot-Agrees}
use konsul.Registry.Agrees.{
  new_registry-Agrees, Agrees, store_service-Agrees, deregister_local-Agrees,
  heartbeat_local-Agrees,
}

pub data Command : Type 0 where
  register : ℕ → Service → Command
  deregister : String → Command
  heartbeat : ℕ → String → Command
  register_cas : ℕ → Service → ℕ → Command
  deregister_cas : String → ℕ → Command
  cleanup : ℕ → Command
  restore : Command

unfoldable pub apply : Command → Registry → Registry
unfolding register_local deregister_local heartbeat_local register_cas_local deregister_cas_local
    cleanup_expired restore_from_snapshot
apply (register now service) s = (register_local now service s).1
apply (deregister name) s = deregister_local name s
apply (heartbeat now name) s = (heartbeat_local now name s).1
apply (register_cas now service expected) s = (register_cas_local now service expected s).1
apply (deregister_cas name expected) s = (deregister_cas_local name expected s).1
apply (cleanup now) s = (cleanup_expired now s).1
apply restore s = restore_from_snapshot s.data_ s

unfoldable pub apply_all : List Command → Registry → Registry
unfolding apply
apply_all [] s = s
apply_all (c ∷ cs) s = apply_all cs (apply c s)

unless_invalid-Agrees :
    (o : Option Invalid) (changed s : Registry)
    → Agrees changed
    → Agrees s
    → Agrees (unless_invalid o changed s).1
unless_invalid-Agrees none changed s a b = a
unless_invalid-Agrees (some f) changed s a b = b

unless_refused-Agrees :
    {A : Type 0} (o : Option Refusal) (answer : A) (changed s : Registry)
    → Agrees changed
    → Agrees s
    → Agrees (unless_refused o answer changed s).1
unless_refused-Agrees none answer changed s a b = a
unless_refused-Agrees (some f) answer changed s a b = b

cleanup_one-Agrees :
    (b : Bool) (name : String) (r : ℕ × Registry) → Agrees r.1 → Agrees (cleanup_one b name r).1
cleanup_one-Agrees true name (n, s) a = deregister_local-Agrees name s a
cleanup_one-Agrees false name r a = a

cleanup_names-Agrees :
    (now : ℕ) (names : List String) (r : ℕ × Registry)
    → Agrees r.1
    → Agrees (cleanup_names now names r).1
unfolding cleanup_names
cleanup_names-Agrees now [] r a = a
cleanup_names-Agrees now (name ∷ names) r a =
    cleanup_names-Agrees now names _
      (cleanup_one-Agrees (is_over now (find name r.1.data_)) name r a)

apply-Agrees : (c : Command) (s : Registry) → Agrees s → Agrees (apply c s)
unfolding apply register_local register_cas_local deregister_cas_local heartbeat_local
    cleanup_expired
apply-Agrees (register now service) s a =
    unless_invalid-Agrees (validate_service service) _ s (store_service-Agrees now service s a) a
apply-Agrees (deregister name) s a = deregister_local-Agrees name s a
apply-Agrees (heartbeat now name) s a = heartbeat_local-Agrees now name s (find name s.data_) refl a
apply-Agrees (register_cas now service expected) s a =
    unless_refused-Agrees _ _ _ s (store_service-Agrees now service s a) a
apply-Agrees (deregister_cas name expected) s a =
    unless_refused-Agrees _ _ _ s (deregister_local-Agrees name s a) a
apply-Agrees (cleanup now) s a = cleanup_names-Agrees now (keys s.data_) (0, s) a
apply-Agrees restore s a = restore_from_snapshot-Agrees s.data_ s a.differ a.by_name

apply_all-Agrees : (cs : List Command) (s : Registry) → Agrees s → Agrees (apply_all cs s)
unfolding apply_all
apply_all-Agrees [] s a = a
apply_all-Agrees (c ∷ cs) s a = apply_all-Agrees cs (apply c s) (apply-Agrees c s a)

-- After any calls on a new registry, the two indices say of each service what its entry says, and
-- each service stands under its own name, once.
pub reached-Agrees : (ttl : ℕ) (cs : List Command) → Agrees (apply_all cs (new_registry ttl))
reached-Agrees ttl cs = apply_all-Agrees cs (new_registry ttl) (new_registry-Agrees ttl)
