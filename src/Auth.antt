-- ===== src/Auth.antt =====
-- web/admin/src/contexts/AuthContext.tsx: the session in React's state and in the storage.
-- `parse` and `stringify` are `JSON.parse`, `none` where that throws, and `JSON.stringify`.
pub mod Laws
pub mod Agreement
pub mod Carried
use konsul.Prelude.{
  Bool, true, false, ◌&&◌, ◌||◌, not, String, Option, none, some, List, if◌then◌else◌,
}
use konsul.Prelude.Text.{nonempty}
use konsul.Value.{
  Value, null, str, arr, obj, end, field, texts, truthy, to_text, Error, Result, ok, err,
}
use konsul.Http.Storage
use konsul.Http.{post, Request, Backend, Browser, send, remove_item}
use konsul.Api.Payload.{Profile, or_syntax_error, read_profile, read_tokens}
use konsul.Api.{token_key, refresh_key, user_key, refresh_request}

-- The four `useState` cells.
pub record Auth : Type 0 where
  pub user : Value
  pub token : Value
  pub refresh_token : Value
  pub is_loading : Bool

abbrev pub initial : Auth
initial = record { user = null; token = null; refresh_token = null; is_loading = true }

-- `!!token && !!user`.
unfoldable pub is_authenticated : Auth → Bool
is_authenticated a = truthy a.token && truthy a.user

-- What `getItem` gives: a text or `null`.
abbrev pub item : Option String → Value
item none = null
item (some s) = str s

-- The object that `login` keeps as the user.
abbrev pub user_data : String → String → List String → List String → Value
user_data user_id username roles policies = obj (
    field "user_id" (str user_id) (
      field "username" (str username)
        (field "roles" (arr (texts roles)) (field "policies" (arr (texts policies)) end))))

abbrev pub login_request : String → String → List String → List String → Request
login_request user_id username roles policies = record {
  method = post;
  url = "/auth/login";
  body = user_data user_id username roles policies;
  authorization = none;
}

abbrev pub forget : Storage.Storage → Storage.Storage
forget s =
    Storage.remove_item user_key (Storage.remove_item refresh_key (Storage.remove_item token_key s))

-- `logout` clears the state and the storage; the other cells stay.
unfoldable pub logout : Auth × Browser → Auth × Browser
logout (a, b) = (
  record a { user = null; token = null; refresh_token = null },
  record b { storage = forget b.storage },
)

-- The state after new tokens are read, and the storage with them.
abbrev pub with_tokens : Value × Value → Auth × Browser → Auth × Browser
with_tokens tokens (a, b) = (
  record a { token = tokens.0; refresh_token = tokens.1 },
  record b {
    storage =
        Storage.set_item refresh_key (to_text tokens.1)
          (Storage.set_item token_key (to_text tokens.0) b.storage);
  },
)

abbrev pub with_user : Value → String → Auth × Browser → Auth × Browser
with_user v text (a, b) =
    (record a { user = v }, record b { storage = Storage.set_item user_key text b.storage })

module _ (parse : String → Option Value) where
  -- The effect on mount, with what is stored. An error of `JSON.parse` leaves the effect before
  -- `setIsLoading(false)`.
  restore : Option String → Option String → Option String → Auth → Result Auth
  restore (some token) refresh_token (some user) a =
      let loaded : Result Auth = elim (parse user) [
        | none ↦ err (Error.thrown "SyntaxError")
        | some v ↦ ok (record {
          user = v;
          token = str token;
          refresh_token = item refresh_token;
          is_loading = false;
        })
      ] in
      if nonempty token && nonempty user then loaded else ok (record a { is_loading = false })
  restore (some token) refresh_token none a = ok (record a { is_loading = false })
  restore none refresh_token user a = ok (record a { is_loading = false })

  unfoldable pub mount : Storage.Storage → Result Auth
  unfolding restore
  mount s =
      restore (Storage.get_item token_key s) (Storage.get_item refresh_key s)
        (Storage.get_item user_key s) initial

module _ (backend : Backend) (stringify : Value → String) where
  -- What `login` does with the answer: the states are set before the storage is written.
  keep_login : Value → Result (Value × Value) → Auth × Browser → Result (Unit {0}) × Auth × Browser
  keep_login user (err e) (a, b) = (err e, a, b)
  keep_login user (ok tokens) s =
      let (a, b) = with_user user (stringify user) (with_tokens tokens s) in (ok tt, a, b)

  answer_login : Value → Result Value × Browser → Auth → Result (Unit {0}) × Auth × Browser
  unfolding keep_login
  answer_login user (ok data_, b) a = keep_login user (read_tokens data_) (a, b)
  answer_login user (err e, b) a = (err e, a, b)

  unfoldable pub login :
      String
      → String
      → List String
      → List String
      → Auth × Browser
      → Result (Unit {0}) × Auth × Browser
  unfolding answer_login
  login username user_id roles policies (a, b) =
      answer_login (user_data user_id username roles policies)
        (send backend (login_request user_id username roles policies) b) a

module _ (backend : Backend) where
  keep_refresh : Result (Value × Value) → Auth × Browser → Auth × Browser
  unfolding logout
  keep_refresh (ok tokens) s = with_tokens tokens s
  keep_refresh (err e) s = logout s

  answer_refresh : Result Value × Browser → Auth → Auth × Browser
  unfolding keep_refresh
  answer_refresh (ok data_, b) a = keep_refresh (read_tokens data_) (a, b)
  answer_refresh (err e, b) a = logout (a, b)

  -- A property of `user` is read inside the `try`, so that its error logs out too.
  exchange_for : Result Profile → Auth × Browser → Auth × Browser
  unfolding answer_refresh
  exchange_for (ok profile) (a, b) =
      answer_refresh (send backend (refresh_request a.refresh_token profile) b) a
  exchange_for (err e) s = logout s

  unfoldable pub refresh_access_token : Auth × Browser → Auth × Browser
  unfolding exchange_for
  refresh_access_token (a, b) =
      if not (truthy a.refresh_token) || not (truthy a.user)
      then logout (a, b)
      else exchange_for (read_profile a.user) (a, b)
