-- ===== src/Endpoints/Calls.antt =====
-- The exported calls of web/admin/src/lib/api.ts that make one request, and the stored session.
use konsul.Prelude.{◌∷◌, List, [], String, Option}
use konsul.Value.{Value, Result, ok, err}
use konsul.Http.{Backend, Browser, Action, ◌>>=◌, pure}
use konsul.Http
use konsul.Api.Bounds.{IsWhole, api-IsWhole}
use konsul.Endpoints.{
  rescue, fetch, get_services, register_service, deregister_service, send_heartbeat, get_service,
  get_kv, set_kv, delete_kv, list_kv, get_health, config,
}

-- The exported functions of api.ts, with their arguments, but `listKVWithValues`, which starts
-- several requests together.
pub data Call : Type 0 where
  services health keys : Call
  register deregister heartbeat : Value → Call
  service key remove_key : String → Call
  write_key : String → String → Call

module _ (backend : Backend) (parse : String → Option Value) where
  unfoldable pub perform : Call → Action Value
  perform services = get_services backend parse
  perform health = get_health backend parse
  perform keys = list_kv backend parse
  perform (register s) = register_service backend parse s
  perform (deregister s) = deregister_service backend parse s
  perform (heartbeat s) = send_heartbeat backend parse s
  perform (service s) = get_service backend parse s
  perform (key k) = get_kv backend parse k
  perform (remove_key k) = delete_kv backend parse k
  perform (write_key k v) = set_kv backend parse k v

  -- The browser after a run of calls, whether they fail or not.
  unfoldable pub perform_all : List Call → Browser → Browser
  perform_all [] b = b
  perform_all (c ∷ cs) b = perform_all cs (perform c b).1

-- An action that keeps the stored session whole or ends it.
record Keeps {ℓ} {A : Type ℓ} (m : Action A) : Type 0 where
  at : (b : Browser) → IsWhole b.storage → IsWhole (m b).1.storage

Keeps-pure {ℓ} : {A : Type ℓ} (a : A) → Keeps (pure a)
Keeps-pure a = record { at = λ b w. w }

module _ {ℓ κ} {A : Type ℓ} {B : Type κ} (m : Action A) (f : A → Action B) where
  next-IsWhole :
      ((a : A) → Keeps (f a))
      → (r : Result A × Browser) → IsWhole r.1.storage
      → IsWhole ((◌>>=◌ (λ _. r) f) r.1).1.storage
  next-IsWhole k (ok a, b) w = (k a).at b w
  next-IsWhole k (err e, b) w = w

  Keeps-bind : Keeps m → ((a : A) → Keeps (f a)) → Keeps (m >>= f)
  Keeps-bind h k = record { at = λ b w. next-IsWhole k (m b) (h.at b w) }

rescued-IsWhole :
    (v : Value) (r : Result Value × Browser)
    → IsWhole r.1.storage
    → IsWhole (rescue (λ _. r) v r.1).1.storage
rescued-IsWhole v (ok w, b) h = h
rescued-IsWhole v (err e, b) h = h

Keeps-rescue : (m : Action Value) (v : Value) → Keeps m → Keeps (rescue m v)
Keeps-rescue m v h = record { at = λ b w. rescued-IsWhole v (m b) (h.at b w) }

module _ (backend : Backend) (parse : String → Option Value) where
  Keeps-fetch :
      (method : Http.Method) (url : String) (body : Value)
      → Keeps (fetch backend parse method url body)
  unfolding fetch
  Keeps-fetch method url body = record { at = api-IsWhole backend parse (config method url body) }

  -- A request and a use of its answer that does nothing else.
  Keeps-use :
      (method : Http.Method) (url : String) (body : Value) (f : Value → Value)
      → Keeps (fetch backend parse method url body >>= λ v. pure (f v))
  Keeps-use method url body f = Keeps-bind _ _ (Keeps-fetch method url body) λ v. Keeps-pure (f v)

  perform-Keeps : (c : Call) → Keeps (perform backend parse c)
  unfolding perform get_services register_service deregister_service send_heartbeat get_service
      get_kv set_kv delete_kv list_kv get_health
  perform-Keeps services = Keeps-rescue _ _ (Keeps-use _ _ _ _)
  perform-Keeps health = Keeps-fetch _ _ _
  perform-Keeps keys = Keeps-rescue _ _ (Keeps-use _ _ _ _)
  perform-Keeps (register s) = Keeps-use _ _ _ _
  perform-Keeps (deregister s) = Keeps-use _ _ _ _
  perform-Keeps (heartbeat s) = Keeps-use _ _ _ _
  perform-Keeps (service s) = Keeps-use _ _ _ _
  perform-Keeps (key k) = Keeps-rescue _ _ (Keeps-use _ _ _ _)
  perform-Keeps (remove_key k) = Keeps-use _ _ _ _
  perform-Keeps (write_key k v) = Keeps-use _ _ _ _

  -- After any run of client calls, each of which ends before the next one starts, with any answers
  -- of the server, a session that was stored whole is still stored whole, or all of it is gone.
  -- `listKVWithValues` is not among these calls.
  pub perform_all-IsWhole :
      (cs : List Call) (b : Browser)
      → IsWhole b.storage
      → IsWhole (perform_all backend parse cs b).storage
  unfolding perform_all
  perform_all-IsWhole [] b w = w
  perform_all-IsWhole (c ∷ cs) b w =
      perform_all-IsWhole cs (perform backend parse c b).1 ((perform-Keeps c).at b w)
