-- ===== src/Api/Payload.antt =====
-- web/admin/src/lib/api.ts and contexts/AuthContext.tsx: what is read out of parsed JSON, which
-- nothing has checked.
use konsul.Prelude.{Option, none, some}
use konsul.Value.{Value, thrown, Result, ok, err, get_prop, ◌>>=◌}

pub record Profile : Type 0 where
  pub username : Value
  pub roles : Value
  pub policies : Value

-- `JSON.parse`, over what it gives; `none` where it throws.
abbrev pub or_syntax_error : Option Value → Result Value
or_syntax_error none = err (thrown "SyntaxError")
or_syntax_error (some v) = ok v

-- `user.username`, `user.roles` and `user.policies`, in this order.
unfoldable pub read_profile : Value → Result Profile
unfolding get_prop
read_profile user = do
  username ← get_prop user "username"
  roles ← get_prop user "roles"
  policies ← get_prop user "policies"
  ok (record { username = username; roles = roles; policies = policies })

-- `const { token, refresh_token } = response.data`.
unfoldable pub read_tokens : Value → Result (Value × Value)
unfolding get_prop
read_tokens data_ = do
  token ← get_prop data_ "token"
  refresh_token ← get_prop data_ "refresh_token"
  ok (token, refresh_token)
