-- ===== src/Auth/Laws.antt =====
-- What the operations of web/admin/src/contexts/AuthContext.tsx leave in the state and in the
-- storage.
use konsul.Prelude.{◌∷◌, List, true, false, String, Option, none, some, ◌≡◌, refl, ap, arith}
use konsul.Prelude.Text.{nonempty}
use konsul.Value.{Value, str, Error, Result, ok, err, to_text, thrown}
use konsul.Http.Storage
use konsul.Http.Storage.{storage_laws}
use konsul.Http.{Backend, Browser, send, settle}
use konsul.Api.Payload.{read_tokens}
use konsul.Api.{token_key, refresh_key, user_key}
use konsul.Auth.{
  Auth, initial, is_authenticated, user_data, login_request, logout, restore, mount, keep_login,
  answer_login, login,
}

-- After `logout` nobody is signed in, no token, refresh token or user is stored, and a reload
-- finds no session.
pub logout-mount :
    (parse : String → Option Value) (a : Auth) (b : Browser)
    → (is_authenticated (logout (a, b)).0 ≡ false)
      × (Storage.get_item token_key (logout (a, b)).1.storage ≡ none)
      × (Storage.get_item refresh_key (logout (a, b)).1.storage ≡ none)
      × (Storage.get_item user_key (logout (a, b)).1.storage ≡ none)
      × (mount parse (logout (a, b)).1.storage ≡ ok (record initial { is_loading = false }))
unfolding logout mount is_authenticated
logout-mount parse a b =
    (refl, simp storage_laws, simp storage_laws, simp storage_laws, simp storage_laws)

-- When a token and a user are stored, both not empty, and the user is no JSON, the restoring of
-- the session ends with the error of `JSON.parse`.
pub mount_corrupt :
    (parse : String → Option Value) (s : Storage.Storage) (token user : String)
    → Storage.get_item token_key s ≡ some token
    → Storage.get_item user_key s ≡ some user
    → nonempty token ≡ true
    → nonempty user ≡ true
    → parse user ≡ none
    → mount parse s ≡ err (thrown "SyntaxError")
unfolding mount
mount_corrupt parse s token user ht hu nt nu bad = rw (ht, hu, restore) (ground arith)

-- A session that is stored is found by a reload.
mount_stored :
    (parse : String → Option Value) (s : Storage.Storage) (token next user : String) (v : Value)
    → nonempty token ≡ true
    → nonempty user ≡ true
    → parse user ≡ some v
    → mount parse (
        Storage.set_item user_key user
          (Storage.set_item refresh_key next (Storage.set_item token_key token s)))
      ≡ ok (record { user = v; token = str token; refresh_token = str next; is_loading = false })
unfolding mount
mount_stored parse s token next user v nt nu round = simp storage_laws (ground arith)

module _ (backend : Backend) (stringify : Value → String) where
  keep_login_fails :
      (user : Value) (r : Result (Value × Value)) (a a' : Auth) (b b' : Browser) (e : Error)
      → keep_login backend stringify user r (a, b) ≡ (err e, a', b')
      → (a' ≡ a) × (b' ≡ b)
  unfolding keep_login
  keep_login_fails user (ok tokens) a a' b b' e h = cc
  keep_login_fails user (err x) a a' b b' e h = (cc, cc)

  answer_login_fails :
      (user : Value) (r : Result Value × Browser) (a a' : Auth) (b' : Browser) (e : Error)
      → answer_login backend stringify user r a ≡ (err e, a', b')
      → (a' ≡ a) × (b' ≡ r.1)
  unfolding answer_login
  answer_login_fails user (ok v, b) a a' b' e h =
      keep_login_fails user (read_tokens v) a a' b b' e h
  answer_login_fails user (err x, b) a a' b' e h = (cc, cc)

module _ (backend : Backend) (stringify : Value → String) (username user_id : String)
    (roles policies : List String) where
  -- A login that fails leaves the session and the storage as they were; it sends one request.
  pub login_fails :
      (a a' : Auth) (b b' : Browser) (e : Error)
      → login backend stringify username user_id roles policies (a, b) ≡ (err e, a', b')
      → (a' ≡ a) × (b' ≡ record b { sent = login_request user_id username roles policies ∷ b.sent })
  unfolding login send
  login_fails a a' b b' e h =
      answer_login_fails backend stringify (user_data user_id username roles policies)
        (send backend (login_request user_id username roles policies) b) a a' b' e h

  pub login_kept :
      (a : Auth) (b : Browser) (v : Value) (token next : String)
      → settle (backend b.sent (login_request user_id username roles policies)) ≡ ok v
      → read_tokens v ≡ ok (str token, str next)
      → login backend stringify username user_id roles policies (a, b) ≡ (
        ok tt,
        record {
          user = user_data user_id username roles policies;
          token = str token;
          refresh_token = str next;
          is_loading = a.is_loading;
        },
        record {
          storage =
              Storage.set_item user_key
                (stringify (user_data user_id username roles policies))
                (Storage.set_item refresh_key next (Storage.set_item token_key token b.storage));
          sent = login_request user_id username roles policies ∷ b.sent;
          href = b.href;
        },
      )
  unfolding login send to_text
  login_kept a b v token next h t = rw (h, answer_login) (rw (t, keep_login) refl)

  -- After a login whose answer holds two texts, the first not empty, the user is signed in, and
  -- a reload finds the same session, provided that the JSON text of the user is not empty and
  -- that `JSON.parse` reads it back.
  pub login-mount :
      (parse : String → Option Value) (a : Auth) (b : Browser) (v : Value) (token next : String)
      → settle (backend b.sent (login_request user_id username roles policies)) ≡ ok v
      → read_tokens v ≡ ok (str token, str next)
      → nonempty token ≡ true
      → nonempty (stringify (user_data user_id username roles policies)) ≡ true
      → parse (stringify (user_data user_id username roles policies))
        ≡ some (user_data user_id username roles policies)
      → let s = login backend stringify username user_id roles policies (a, b) in
        (s.0 ≡ ok tt)
        × (is_authenticated s.1 ≡ true)
        × (mount parse s.2.storage ≡ ok (record (s.1) { is_loading = false }))
  unfolding is_authenticated
  login-mount parse a b v token next h t nt nu round =
      let kept = login_kept a b v token next h t in
      (
        ap (λ (s : Result (Unit {0}) × Auth × Browser). s.0) kept,
        rw kept (ground arith),
        rw kept (
            mount_stored parse b.storage token next
              (stringify (user_data user_id username roles policies))
              (user_data user_id username roles policies) nt nu round),
      )
