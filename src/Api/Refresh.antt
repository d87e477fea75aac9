-- ===== src/Api/Refresh.antt =====
-- The exchange of the refresh token for new tokens in the interceptor of web/admin/src/lib/api.ts.
use konsul.Prelude.{
  ◌∷◌, String, Option, none, some, true, ◌≡◌, refl, arith, inl, inr, Bool-cases, ◌&&◌,
}
use konsul.Prelude.Text.{nonempty}
use konsul.Value.{Value, str, to_text, Error, Result, ok, err, Result-cases}
use konsul.Http.Storage
use konsul.Http.Rules.{lift_rule, send_rule}
use konsul.Http.{Request, Backend, Browser, send, ◌>>=◌, lift}
use konsul.Api.Payload.{or_syntax_error, read_profile, read_tokens}
use konsul.Api.{
  keep_tokens, exchange, exchange_stored, refresh, refresh_request, token_key, refresh_key,
  user_key,
}

-- The ways a refresh ends: it fails before or after its one request and changes nothing else, or
-- it stores both new tokens.
pub data Refreshed (b : Browser) : Result String × Browser → Type 0 where
  not_sent : (e : Error) → Refreshed b (err e, b)
  rejected : (e : Error) (q : Request) → Refreshed b (err e, record b { sent = q ∷ b.sent })
  renewed :
      (token next : String) (q : Request)
      → Storage.has refresh_key b.storage ≡ true
      → Storage.has user_key b.storage ≡ true
      → Refreshed b (
        ok token,
        record b {
          storage = Storage.set_item refresh_key next (Storage.set_item token_key token b.storage);
          sent = q ∷ b.sent;
        },
      )

keep_tokens-Refreshed :
    (b : Browser) (q : Request) (data_ : Value)
    → Storage.has refresh_key b.storage ≡ true
    → Storage.has user_key b.storage ≡ true
    → Refreshed b (keep_tokens data_ (record b { sent = q ∷ b.sent }))
unfolding keep_tokens
keep_tokens-Refreshed b q data_ hr hu = elim (Result-cases (read_tokens data_)) [
  | inl (e, h) ↦ rw h (rejected e q)
  | inr (tokens, h) ↦ rw h (renewed (to_text tokens.0) (to_text tokens.1) q hr hu)
]

module _ (backend : Backend) (parse : String → Option Value) where
  exchange-Refreshed :
      (refresh_token user_text : String) (b : Browser)
      → Storage.has refresh_key b.storage ≡ true
      → Storage.has user_key b.storage ≡ true
      → Refreshed b (exchange backend parse refresh_token user_text b)
  unfolding exchange
  exchange-Refreshed refresh_token user_text b hr hu =
      lift_rule (Refreshed b) (or_syntax_error (parse user_text))
        (λ user. lift (read_profile user) >>= λ profile.
          send backend (refresh_request (str refresh_token) profile) >>= keep_tokens)
        b not_sent
        λ user.
          lift_rule (Refreshed b) (read_profile user)
            (λ profile. send backend (refresh_request (str refresh_token) profile) >>= keep_tokens)
            b not_sent
            λ profile.
              let q = refresh_request (str refresh_token) profile in
              send_rule (Refreshed b) backend q keep_tokens b (λ e. rejected e q)
                (λ v. keep_tokens-Refreshed b q v hr hu)

  stored-Refreshed :
      (refresh_token user_text : Option String) (b : Browser)
      → Storage.get_item refresh_key b.storage ≡ refresh_token
      → Storage.get_item user_key b.storage ≡ user_text
      → Refreshed b (exchange_stored backend parse refresh_token user_text b)
  unfolding exchange_stored
  stored-Refreshed (some r) (some u) b hr hu = elim (Bool-cases (nonempty r && nonempty u)) [
    | inl e ↦ rw (e, exchange_stored) (exchange-Refreshed r u b (ground arith) (ground arith))
    | inr e ↦ rw (e, exchange_stored) (not_sent _)
  ]
  stored-Refreshed (some r) none b hr hu = not_sent _
  stored-Refreshed none u b hr hu = not_sent _

  -- Whatever is stored and whatever the server answers, a refresh fails without a request, or
  -- fails after one request, and changes nothing else; or it stores both new tokens after one
  -- request, which takes a stored refresh token and a stored user.
  pub refresh-Refreshed : (b : Browser) → Refreshed b (refresh backend parse b)
  unfolding refresh
  refresh-Refreshed b = stored-Refreshed _ _ b refl refl
