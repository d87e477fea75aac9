-- ===== src/Tests.antt =====
-- Runs of the model at concrete inputs: a server that accepts one token, and a browser that has an
-- older one.
mod Acl
mod Api
mod Endpoints
mod Flight
mod KvStore
mod LoadBalancer
mod Auth
mod Live
mod Pages
mod Registry
mod Routes
mod Watch
use konsul.Prelude.{
  Bool, true, false, String, Option, none, some, List, [], ◌∷◌, str_eq, if◌then◌else◌,
}
use konsul.Value.{Value, null, str, arr, obj, nil, cons, end, field, undefined}
use konsul.Http.{get, Request, Config, Reply, answer, no_answer, Backend, Browser}
use konsul.Endpoints.{config}

abbrev pub alice : Value
alice = obj (
    field "username" (str "alice")
      (field "roles" (arr (cons (str "admin") nil)) (field "policies" (arr nil) end)))

abbrev pub new_tokens : Value
new_tokens = obj (field "token" (str "new") (field "refresh_token" (str "next") end))

abbrev is_new : Option String → Bool
is_new none = false
is_new (some s) = str_eq s "Bearer new"

-- Answers the two routes of the tokens, and all others only to the new token.
abbrev pub server : Backend
server sent q =
    if str_eq q.url "/auth/refresh"
    then answer 200 new_tokens
    else if str_eq q.url "/auth/login"
    then answer 200 new_tokens
    else if is_new q.authorization
    then answer 200 (arr (cons (str "k") nil))
    else answer 401 null

-- Accepts nothing.
abbrev pub closed_server : Backend
closed_server sent q = answer 401 null

abbrev pub open_server : Backend
open_server sent q = answer 200 (arr (cons (str "k") nil))

abbrev pub parse : String → Option Value
parse s = if str_eq s "alice" then some alice else none

abbrev pub stringify : Value → String
stringify v = "alice"

abbrev pub old_session : Browser
old_session = record {
  storage = ("konsul_token", "old") ∷ ("konsul_refresh_token", "r") ∷ ("konsul_user", "alice") ∷ [];
  sent = [];
  href = "/admin/";
}

abbrev pub empty_browser : Browser
empty_browser = record { storage = []; sent = []; href = "/admin/login" }

abbrev pub listing : Config
listing = config get "/kv/" undefined
