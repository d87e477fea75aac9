-- ===== src/Api/Flight.antt =====
-- web/admin/src/lib/api.ts, several calls of `api` at once: each call is a small machine that waits
-- for its answers, and the calls take turns at the browser in any order. An answer is fixed when
-- its request is sent, and read when it is the call's turn.
pub mod Alone
pub mod Ends
pub mod Stored
use konsul.Prelude.{
  ℕ, zero, suc, Bool, true, false, not, ◌&&◌, String, Option, none, some, List, [], ◌∷◌, map,
  if◌then◌else◌,
}
use konsul.Prelude.Text.{nonempty}
use konsul.Value.{Value, str, to_text, Error, thrown, Result, ok, err, ◌>>=◌}
use konsul.Http.Storage
use konsul.Http.{Request, Config, Backend, Browser, settle}
use konsul.Api.Payload.{Profile, or_syntax_error, read_profile, read_tokens}
use konsul.Api.{
  token_key, refresh_key, user_key, with_token, bearer, is_unauthorized, sign_out, refresh_request,
}

-- Where a call stands: before its request, waiting for the answer, waiting for new tokens, settled.
pub data Flight : Type 0 where
  queued : Config → Flight
  waiting refreshing : Config → Result Value → Flight
  done : Result Value → Flight

abbrev pub with_profile : String → Profile → Result Request
with_profile refresh_token profile = ok (refresh_request (str refresh_token) profile)

-- The request for new tokens, from what is stored.
prepared : (String → Option Value) → Option String → Option String → Result Request
unfolding read_profile
prepared parse (some refresh_token) (some user_text) =
    if nonempty refresh_token && nonempty user_text
    then or_syntax_error (parse user_text) >>= read_profile >>= with_profile refresh_token
    else err (thrown "No refresh token available")
prepared parse (some refresh_token) none = err (thrown "No refresh token available")
prepared parse none user_text = err (thrown "No refresh token available")

unfoldable pub prepare : (String → Option Value) → Storage.Storage → Result Request
unfolding prepared
prepare parse s = prepared parse (Storage.get_item refresh_key s) (Storage.get_item user_key s)

abbrev pub after : Request → Browser → Browser
after q b = record b { sent = q ∷ b.sent }

abbrev pub keep : Value × Value → Browser → Browser
keep tokens b = record b {
  storage =
      Storage.set_item refresh_key (to_text tokens.1)
        (Storage.set_item token_key (to_text tokens.0) b.storage);
}

module _ (backend : Backend) (parse : String → Option Value) where
  -- The request with the stored token goes out.
  launch : Config → Browser → Flight × Browser
  launch c b =
      let attached = with_token (Storage.get_item token_key b.storage) c in
      (waiting attached (settle (backend b.sent attached.request)), after attached.request b)

  ask_tokens : Config → Result Request → Browser → Flight × Browser
  ask_tokens c (ok q) b = (refreshing c (settle (backend b.sent q)), after q b)
  ask_tokens c (err e) b = (done (err e), sign_out b)

  -- The interceptor gets the answer of the request.
  on_answer : Config → Result Value → Browser → Flight × Browser
  unfolding ask_tokens
  on_answer c (ok v) b = (done (ok v), b)
  on_answer c (err e) b =
      if is_unauthorized e && not c.retry
      then ask_tokens c (prepare parse b.storage) b
      else (done (err e), b)

  -- It gets the new tokens, and starts the request again.
  on_tokens : Config → Result (Value × Value) → Browser → Flight × Browser
  on_tokens c (ok tokens) b =
      (queued (bearer (to_text tokens.0) (record c { retry = true })), keep tokens b)
  on_tokens c (err e) b = (done (err e), sign_out b)

  unfoldable pub advance : Flight → Browser → Flight × Browser
  unfolding launch on_answer on_tokens
  advance (queued c) b = launch c b
  advance (waiting c r) b = on_answer c r b
  advance (refreshing c r) b = on_tokens c (r >>= read_tokens) b
  advance (done r) b = (done r, b)

  -- The call at a place has its turn.
  unfoldable pub turn : ℕ → List Flight × Browser → List Flight × Browser
  turn n ([], b) = ([], b)
  turn zero (f ∷ fs, b) = let (f', b') = advance f b in (f' ∷ fs, b')
  turn (suc n) (f ∷ fs, b) = let (fs', b') = turn n (fs, b) in (f ∷ fs', b')

  unfoldable pub turns : List ℕ → List Flight × Browser → List Flight × Browser
  turns [] s = s
  turns (n ∷ ns) s = turns ns (turn n s)

-- `api` is called for each configuration.
abbrev pub begun : List Config → List Flight
begun cs = map queued cs
