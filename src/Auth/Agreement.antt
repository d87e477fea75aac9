-- ===== src/Auth/Agreement.antt =====
-- The session of web/admin/src/contexts/AuthContext.tsx is kept twice, in React's state and in the
-- storage: how the operations of the session and the interceptor of lib/api.ts treat the two.
use konsul.Prelude.{
  ◌∷◌, List, [], true, false, not, ◌||◌, String, Option, none, some, ◌≡◌, refl, ◌⊎◌, inl, inr,
  arith, if_rule, str_eq, eq_iff,
}
use konsul.Value.{Value, null, truthy, Result, ok, err, to_text}
use konsul.Http.Storage
use konsul.Http.Storage.{Storage, storage_laws}
use konsul.Http.{Config, Backend, Browser, send}
use konsul.Api.Payload.{Profile, read_profile, read_tokens}
use konsul.Api.Refresh.{refresh-Refreshed}
use konsul.Api.Session.{first, needs_renewal, Refreshed-HoldsToken, api_renewed}
use konsul.Api.{token_key, refresh_key, user_key, api, refresh, refresh_request, bearer}
use konsul.Auth.{
  Auth, user_data, login_request, logout, with_tokens, keep_login, answer_login, login,
  keep_refresh, answer_refresh, exchange_for, refresh_access_token,
}

-- What the user can do with the session.
pub data Operation : Type 0 where
  sign_in : String → String → List String → List String → Operation
  sign_off renew : Operation

abbrev NobodyStored : Storage → Type 0
NobodyStored s =
    (Storage.get_item token_key s ≡ none)
    × (Storage.get_item refresh_key s ≡ none)
    × (Storage.get_item user_key s ≡ none)

abbrev Nobody : Auth → Type 0
Nobody a = (a.user ≡ null) × (a.token ≡ null) × (a.refresh_token ≡ null)

abbrev Stored : (Value → String) → Auth → Storage → Type 0
Stored stringify a s =
    (Storage.get_item token_key s ≡ some (to_text a.token))
    × (Storage.get_item refresh_key s ≡ some (to_text a.refresh_token))
    × (Storage.get_item user_key s ≡ some (stringify a.user))

-- Nobody is signed in and nothing is stored, or the storage has the texts of the state's cells.
abbrev pub Agrees : (Value → String) → Auth × Browser → Type 0
Agrees stringify (a, b) = (Nobody a × NobodyStored b.storage) ⊎ Stored stringify a b.storage

logout-Agrees : (stringify : Value → String) (s : Auth × Browser) → Agrees stringify (logout s)
unfolding logout
logout-Agrees stringify (a, b) =
    inl ((refl, refl, refl), (simp storage_laws, simp storage_laws, simp storage_laws))

-- New tokens keep a signed-in session in step.
with_tokens-Stored :
    (stringify : Value → String) (tokens : Value × Value) (a : Auth) (b : Browser)
    → Stored stringify a b.storage
    → Agrees stringify (with_tokens tokens (a, b))
with_tokens-Stored stringify tokens a b h =
    inr (simp storage_laws, simp storage_laws, simp storage_laws h.2)

module _ (backend : Backend) (stringify : Value → String) where
  keep_login-Agrees :
      (user : Value) (r : Result (Value × Value)) (a : Auth) (b : Browser)
      → Agrees stringify (a, b)
      → (let s = keep_login backend stringify user r (a, b) in Agrees stringify (s.1, s.2))
  unfolding keep_login
  keep_login-Agrees user (err e) a b h = h
  keep_login-Agrees user (ok tokens) a b h =
      inr (simp storage_laws, simp storage_laws, simp storage_laws)

  answer_login-Agrees :
      (user : Value) (r : Result Value × Browser) (a : Auth)
      → Agrees stringify (a, r.1)
      → (let s = answer_login backend stringify user r a in Agrees stringify (s.1, s.2))
  unfolding answer_login
  answer_login-Agrees user (ok v, b) a h = keep_login-Agrees user (read_tokens v) a b h
  answer_login-Agrees user (err e, b) a h = h

  keep_refresh-Agrees :
      (r : Result (Value × Value)) (a : Auth) (b : Browser)
      → Stored stringify a b.storage
      → Agrees stringify (keep_refresh backend r (a, b))
  unfolding keep_refresh
  keep_refresh-Agrees (ok tokens) a b h = with_tokens-Stored stringify tokens a b h
  keep_refresh-Agrees (err e) a b h = logout-Agrees stringify (a, b)

  answer_refresh-Agrees :
      (r : Result Value × Browser) (a : Auth)
      → Stored stringify a r.1.storage
      → Agrees stringify (answer_refresh backend r a)
  unfolding answer_refresh
  answer_refresh-Agrees (ok v, b) a h = keep_refresh-Agrees (read_tokens v) a b h
  answer_refresh-Agrees (err e, b) a h = logout-Agrees stringify (a, b)

  exchange_for-Agrees :
      (r : Result Profile) (a : Auth) (b : Browser)
      → Stored stringify a b.storage
      → Agrees stringify (exchange_for backend r (a, b))
  unfolding exchange_for send
  exchange_for-Agrees (ok profile) a b h =
      answer_refresh-Agrees (send backend (refresh_request a.refresh_token profile) b) a h
  exchange_for-Agrees (err e) a b h = logout-Agrees stringify (a, b)

  refresh-Agrees :
      (a : Auth) (b : Browser)
      → Agrees stringify (a, b)
      → Agrees stringify (refresh_access_token backend (a, b))
  unfolding refresh_access_token
  refresh-Agrees a b (inr h) =
      if_rule (Agrees stringify) (not (truthy a.refresh_token) || not (truthy a.user))
        (logout (a, b)) (exchange_for backend (read_profile a.user) (a, b))
        (λ _. logout-Agrees stringify (a, b)) (λ _. exchange_for-Agrees (read_profile a.user) a b h)
  refresh-Agrees a b (inl h) = rw (h.0.2) (logout-Agrees stringify (a, b))

  unfoldable pub operate : Operation → Auth × Browser → Auth × Browser
  operate (sign_in username user_id roles policies) s =
      let t = login backend stringify username user_id roles policies s in (t.1, t.2)
  operate sign_off s = logout s
  operate renew s = refresh_access_token backend s

  unfoldable pub operate_all : List Operation → Auth × Browser → Auth × Browser
  operate_all [] s = s
  operate_all (o ∷ os) s = operate_all os (operate o s)

  operate-Agrees :
      (o : Operation) (s : Auth × Browser) → Agrees stringify s → Agrees stringify (operate o s)
  unfolding operate login send
  operate-Agrees (sign_in username user_id roles policies) (a, b) h =
      answer_login-Agrees (user_data user_id username roles policies)
        (send backend (login_request user_id username roles policies) b) a h
  operate-Agrees sign_off s h = logout-Agrees stringify s
  operate-Agrees renew (a, b) h = refresh-Agrees a b h

  -- When the state and the storage have the same session, or neither has one, this holds after
  -- any run of logins, logouts and renewals of the session's own, with any answers of the
  -- server.
  pub operate_all-Agrees :
      (os : List Operation) (s : Auth × Browser)
      → Agrees stringify s
      → Agrees stringify (operate_all os s)
  unfolding operate_all
  operate_all-Agrees [] s h = h
  operate_all-Agrees (o ∷ os) s h = operate_all-Agrees os (operate o s) (operate-Agrees o s h)

-- When a call of `api` renews the token, and the new token is not the text of the one in the
-- state, the state and the storage are out of step afterwards: they do not hold the same
-- session.
pub api_renewed-Agrees :
    (backend : Backend) (parse : String → Option Value) (stringify : Value → String) (c : Config)
    (a : Auth) (b b' : Browser) (t : String)
    → needs_renewal c (first backend parse c b).0 ≡ true
    → refresh backend parse (first backend parse c b).1 ≡ (ok t, b')
    → str_eq t (to_text a.token) ≡ false
    → ¬ Agrees stringify (a, (api backend parse c b).1)
unfolding send
api_renewed-Agrees backend parse stringify c a b b' t h r new agrees =
    contradict (rw (api_renewed backend parse c b t b' h r) at agrees)
      (rw r at (Refreshed-HoldsToken (refresh-Refreshed backend parse (first backend parse c b).1)))
  where
    differs : t ≡ to_text a.token → ⊥
    differs e = ground (arith, eq_iff t (to_text a.token))

    contradict :
        Agrees stringify (a, (send backend (bearer t c).request b').1)
        → Storage.get_item token_key b'.storage ≡ some t
        → ⊥
    contradict (inl g) held = differs (cc)
    contradict (inr g) held = differs (cc)
