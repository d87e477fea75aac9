-- ===== src/Http.antt =====
-- web/admin/src/lib/api.ts, the axios instances: the browser's state, requests, and how a request
-- that is sent comes back. The server is a parameter: what it answers may depend on all requests
-- before, so that any run of answers is covered.
pub mod Storage
pub mod Rules
use konsul.Prelude.{ℕ, Bool, ◌&&◌, String, Option, none, some, List, ◌∷◌, leb, if◌then◌else◌}
use konsul.Value.{Value, Error, response, unreachable, Result, ok, err}

pub data Method : Type 0 where
  get post put delete : Method

-- What goes over the wire; `authorization` is the header of that name.
pub record Request : Type 0 where
  pub method : Method
  pub url : String
  pub body : Value
  pub authorization : Option String

-- The client's configuration of a request; `retry` is `_retry`.
pub record Config : Type 0 where
  pub request : Request
  pub open request use *
  pub retry : Bool

pub data Reply : Type 0 where
  answer : ℕ → Value → Reply
  no_answer : Reply

abbrev pub Backend : Type 0
Backend = List Request → Request → Reply

-- `sent` has the newest request first; `href` is `window.location.href`.
pub record Browser : Type 0 where
  pub storage : Storage.Storage
  pub sent : List Request
  pub href : String

abbrev pub Action {ℓ} : Type ℓ → Type ℓ
Action A = Browser → Result A × Browser

infixl 5 ◌>>=◌
abbrev pub ◌>>=◌ {ℓ κ} : {A : Type ℓ} {B : Type κ} → Action A → (A → Action B) → Action B
◌>>=◌ m f b = let (result, next) = m b in elim result [ ok a ↦ f a next | err e ↦ (err e, next) ]

infixl 5 ◌>>◌
abbrev pub ◌>>◌ {ℓ κ} : {A : Type ℓ} {B : Type κ} → Action A → Action B → Action B
m >> k = m >>= λ _. k

abbrev pub pure {ℓ} : {A : Type ℓ} → A → Action A
pure a b = (ok a, b)

abbrev pub raise {ℓ} : {A : Type ℓ} → Error → Action A
raise e b = (err e, b)

abbrev pub lift {ℓ} : {A : Type ℓ} → Result A → Action A
lift r b = (r, b)

abbrev pub get_item : String → Action (Option String)
get_item k b = (ok (Storage.get_item k b.storage), b)

abbrev pub set_item : String → String → Action (Unit {0})
set_item k v b = (ok tt, record b { storage = Storage.set_item k v b.storage })

abbrev pub remove_item : String → Action (Unit {0})
remove_item k b = (ok tt, record b { storage = Storage.remove_item k b.storage })

abbrev pub go_to : String → Action (Unit {0})
go_to url b = (ok tt, record b { href = url })

-- axios resolves the statuses 200 to 299 and rejects all others.
abbrev pub is_success : ℕ → Bool
is_success status = leb 200 status && leb status 299

unfoldable pub settle : Reply → Result Value
settle (answer status data_) = if is_success status then ok data_ else err (response status data_)
settle no_answer = err unreachable

unfoldable pub send : Backend → Request → Action Value
send backend r b = (settle (backend b.sent r), record b { sent = r ∷ b.sent })
