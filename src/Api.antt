-- ===== src/Api.antt =====
-- web/admin/src/lib/api.ts, the interceptors: every request of `api` carries the stored token, and
-- a request that is answered by 401 is sent once more after the tokens are exchanged.
-- `parse` is `JSON.parse`, `none` where that throws.
pub mod Payload
pub mod Rounds
pub mod Refresh
pub mod Session
pub mod Bounds
pub mod Flight
use konsul.Prelude.{
  ℕ, zero, suc, Bool, true, false, not, ◌&&◌, String, Option, none, some, ◌==◌, if◌then◌else◌,
}
use konsul.Prelude.Text.{◌<>◌, nonempty}
use konsul.Value.{Value, str, obj, end, field, to_text, Error, response, thrown, Result, ok, err}
use Payload.{Profile, or_syntax_error, read_profile, read_tokens}
use konsul.Http.Storage
use konsul.Http.{
  post, Request, Config, Backend, Browser, Action, ◌>>=◌, ◌>>◌, pure, raise, lift, get_item,
  set_item, send,
}

abbrev pub token_key : String
token_key = "konsul_token"

abbrev pub refresh_key : String
refresh_key = "konsul_refresh_token"

abbrev pub user_key : String
user_key = "konsul_user"

abbrev pub login_page : String
login_page = "/admin/login"

-- `config.headers.Authorization = `Bearer ${token}``.
abbrev pub bearer : String → Config → Config
bearer token c = record c {
  request = record c.request { authorization = some ("Bearer " <> token) };
}

-- The request interceptor, with what the storage has under the token's key.
abbrev pub with_token : Option String → Config → Config
with_token none c = c
with_token (some token) c = if nonempty token then bearer token c else c

abbrev pub is_unauthorized : Error → Bool
is_unauthorized (response status data_) = status == 401
is_unauthorized _ = false

-- The three `removeItem` calls and the way to the login page.
abbrev pub sign_out : Browser → Browser
sign_out b = record b {
  storage =
      Storage.remove_item user_key
        (Storage.remove_item refresh_key (Storage.remove_item token_key b.storage));
  href = login_page;
}

abbrev pub refresh_request : Value → Profile → Request
refresh_request refresh_token user = record {
  method = post;
  url = "/auth/refresh";
  body = obj (
      field "refresh_token" refresh_token (
        field "username" user.username
          (field "roles" user.roles (field "policies" user.policies end))));
  authorization = none;
}

abbrev pub store_tokens : String → String → Action (Unit {0})
store_tokens token refresh_token = do set_item token_key token; set_item refresh_key refresh_token

-- What follows the answer; `setItem` and the header make texts of what was read.
unfoldable pub keep_tokens : Value → Action String
unfolding read_tokens to_text
keep_tokens data_ = do
  tokens ← lift (read_tokens data_)
  store_tokens (to_text tokens.0) (to_text tokens.1)
  pure (to_text tokens.0)

module _ (backend : Backend) (parse : String → Option Value) where
  -- The tokens are exchanged through `authApi`, which has no interceptors.
  exchange : String → String → Action String
  unfolding keep_tokens read_profile
  exchange refresh_token user_text = do
    user ← lift (or_syntax_error (parse user_text))
    profile ← lift (read_profile user)
    data_ ← send backend (refresh_request (str refresh_token) profile)
    keep_tokens data_

  exchange_stored : Option String → Option String → Action String
  unfolding exchange
  exchange_stored (some refresh_token) (some user_text) =
      if nonempty refresh_token && nonempty user_text
      then exchange refresh_token user_text
      else raise (thrown "No refresh token available")
  exchange_stored (some refresh_token) none = raise (thrown "No refresh token available")
  exchange_stored none user_text = raise (thrown "No refresh token available")

  -- The `try` block up to the retry.
  unfoldable pub refresh : Action String
  unfolding exchange_stored
  refresh = do
    refresh_token ← get_item refresh_key
    user_text ← get_item user_key
    exchange_stored refresh_token user_text

  -- `return api(originalRequest)` is not awaited, so the `catch` does not see its rejection.
  resume : (Config → Action Value) → Config → Result String × Browser → Result Value × Browser
  resume again c (ok token, b) = again (bearer token (record c { retry = true })) b
  resume again c (err e, b) = (err e, sign_out b)

  -- The response interceptor's second function.
  on_rejected : (Config → Action Value) → Config → Error → Action Value
  unfolding resume
  on_rejected again c e b =
      let renewed = resume again c (refresh b) in
      if is_unauthorized e && not c.retry then renewed else (err e, b)

  intercept : (Config → Action Value) → Config → Result Value × Browser → Result Value × Browser
  unfolding on_rejected
  intercept again c (ok v, b) = (ok v, b)
  intercept again c (err e, b) = on_rejected again c e b

  -- One call of `api`, over the call of `api` that the interceptor makes.
  unfoldable pub call : (Config → Action Value) → Config → Action Value
  unfolding intercept
  call again c = do
    token ← get_item token_key
    let attached = with_token token c
    λ b. intercept again attached (send backend attached.request b)

  -- `api`, with a bound on how deep its calls go.
  unfoldable pub rounds : ℕ → Config → Action Value
  rounds zero c = raise (thrown "InternalError")
  rounds (suc n) c = call (rounds n) c

  unfoldable pub api : Config → Action Value
  unfolding rounds
  api = rounds 2
