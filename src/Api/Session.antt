-- ===== src/Api/Session.antt =====
-- The branches of a call of `api` of web/admin/src/lib/api.ts, and what is stored after each.
use konsul.Prelude.{
  ℕ, suc, Bool, true, false, not, ◌&&◌, String, Option, none, some, ◌≡◌, refl, ◌∙◌, ap, arith, inl,
  inr, Bool-cases,
}
use konsul.Value.{Value, Result, ok, err, Error}
use konsul.Http.Storage
use konsul.Http.Storage.{get-set_ne, get-set_self, storage_laws}
use konsul.Http.{Request, Config, Backend, Browser, Action, send}
use konsul.Api.Refresh.{Refreshed, not_sent, rejected, renewed, refresh-Refreshed}
use konsul.Api.Rounds.{with_token-retry}
use konsul.Api.{
  resume, intercept, call, rounds, api, refresh, token_key, refresh_key, user_key, with_token,
  bearer, is_unauthorized, sign_out, login_page,
}

abbrev pub attached : Config → Browser → Config
attached c b = with_token (Storage.get_item token_key b.storage) c

abbrev pub needs_renewal : Config → Result Value → Bool
needs_renewal c (ok v) = false
needs_renewal c (err e) = is_unauthorized e && not c.retry

pub bearer-with_token : (t : String) (c : Config) → with_token (some t) (bearer t c) ≡ bearer t c
bearer-with_token t c = ground arith

pub bearer-attached :
    (t : String) (c : Config) (b : Browser)
    → (bearer t (record (attached c b) { retry = true })).request ≡ (bearer t c).request
bearer-attached t c b = with_token_bearer (Storage.get_item token_key b.storage)
  where
    with_token_bearer :
        (o : Option String)
        → (bearer t (record (with_token o c) { retry = true })).request ≡ (bearer t c).request
    with_token_bearer none = refl
    with_token_bearer (some token) = ground arith

-- After a refresh that gives a token, this token is stored.
abbrev pub HoldsToken : Result String × Browser → Type 0
HoldsToken (ok t, b) = Storage.get_item token_key b.storage ≡ some t
HoldsToken (err e, b) = Unit

pub Refreshed-HoldsToken :
    {b : Browser} {r : Result String × Browser} → Refreshed b r → HoldsToken r
Refreshed-HoldsToken (not_sent e) = tt
Refreshed-HoldsToken (rejected e q) = tt
Refreshed-HoldsToken {b} (renewed token next q hr hu) =
    get-set_ne refresh_key next token_key _ refl ∙ get-set_self token_key token b.storage

module _ (backend : Backend) (parse : String → Option Value) where
  intercept_passes :
      (f : Config → Action Value) (a : Config) (r : Result Value × Browser)
      → needs_renewal a r.0 ≡ false
      → intercept backend parse f a r ≡ r
  unfolding intercept
  intercept_passes f a (ok v, b') h = refl
  intercept_passes f a (err e, b') h = ground arith

  intercept_renews :
      (f : Config → Action Value) (a : Config) (r : Result Value × Browser)
      → needs_renewal a r.0 ≡ true
      → intercept backend parse f a r ≡ resume backend parse f a (refresh backend parse r.1)
  unfolding intercept
  intercept_renews f a (ok v, b') h = cc
  intercept_renews f a (err e, b') h = ground arith

  intercept_retried :
      (f : Config → Action Value) (a : Config) (r : Result Value × Browser)
      → a.retry ≡ true
      → intercept backend parse f a r ≡ r
  unfolding intercept
  intercept_retried f a (ok v, b') h = refl
  intercept_retried f a (err e, b') h = ground arith

  -- A request that is marked as retried is sent once, with the stored token.
  rounds_last :
      (n : ℕ) (t : String) (c : Config) (b : Browser)
      → c.retry ≡ true
      → Storage.get_item token_key b.storage ≡ some t
      → rounds backend parse (suc n) (bearer t c) b ≡ send backend (bearer t c).request b
  unfolding rounds call
  rounds_last n t c b h stored =
      rw (stored, bearer-with_token t c)
        (intercept_retried (rounds backend parse n) (bearer t c)
          (send backend (bearer t c).request b) h)

module _ (backend : Backend) (parse : String → Option Value) (c : Config) (b : Browser) where
  abbrev pub first : Result Value × Browser
  first = send backend (attached c b).request b

  pub same_need : (r : Result Value) → needs_renewal (attached c b) r ≡ needs_renewal c r
  same_need (ok v) = refl
  same_need (err e) = rw (with_token-retry (Storage.get_item token_key b.storage) c)

  -- When an answer calls for no renewal, since it is no 401 or the request is a retry, it is the
  -- result, and the request with the stored token is all that is sent.
  pub api-eq-send : needs_renewal c first.0 ≡ false → api backend parse c b ≡ first
  unfolding api rounds call
  api-eq-send h =
      intercept_passes backend parse (rounds backend parse 1) (attached c b) first
        (same_need first.0 ∙ h)

  -- When a request that is not a retry is answered by 401 and the refresh fails, the caller gets
  -- the error of the refresh, the token, the refresh token and the user are no longer stored,
  -- and the page is the login page.
  pub api_expired :
      (e : Error) (b' : Browser)
      → needs_renewal c first.0 ≡ true
      → refresh backend parse first.1 ≡ (err e, b')
      → (api backend parse c b ≡ (err e, sign_out b'))
        × (Storage.get_item token_key (sign_out b').storage ≡ none)
        × (Storage.get_item refresh_key (sign_out b').storage ≡ none)
        × (Storage.get_item user_key (sign_out b').storage ≡ none)
        × ((sign_out b').href ≡ login_page)
  unfolding api rounds call resume
  api_expired e b' h r = (
    intercept_renews backend parse (rounds backend parse 1) (attached c b) first
          (same_need first.0 ∙ h)
        ∙ rw r,
    simp storage_laws,
    simp storage_laws,
    simp storage_laws,
    refl,
  )

  -- When a request that is not a retry is answered by 401 and the refresh gives a token, the
  -- request is sent once more with that token in its header, and the answer to it is the result,
  -- whatever it is.
  pub api_renewed :
      (t : String) (b' : Browser)
      → needs_renewal c first.0 ≡ true
      → refresh backend parse first.1 ≡ (ok t, b')
      → api backend parse c b ≡ send backend (bearer t c).request b'
  unfolding api rounds call
  api_renewed t b' h r =
      intercept_renews backend parse (rounds backend parse 1) (attached c b) first
        (same_need first.0 ∙ h)
      ∙ rw r (
          rounds_last backend parse 0 t (record (attached c b) { retry = true }) b' refl
            (rw r at (Refreshed-HoldsToken (refresh-Refreshed backend parse first.1)))
          ∙ ap (λ (q : Request). send backend q b') (bearer-attached t c b))

  -- To prove a fact about every call of `api`, prove it for its three ways to end.
  pub api_rule {ℓ} :
      (P : Result Value × Browser → Type ℓ)
      → P first
      → ((e : Error) (b' : Browser) → Refreshed first.1 (err e, b') → P (err e, sign_out b'))
      → ((t : String) (b' : Browser)
          → Refreshed first.1 (ok t, b')
          → P (send backend (bearer t c).request b'))
      → P (api backend parse c b)
  api_rule P passed gone again = elim (Bool-cases (needs_renewal c first.0)) [
    | inr h ↦ rw (api-eq-send h) passed
    | inl h ↦
        by_refresh h (refresh backend parse first.1) refl (refresh-Refreshed backend parse first.1)
  ]
    where
      by_refresh :
          needs_renewal c first.0 ≡ true
          → (r : Result String × Browser) → refresh backend parse first.1 ≡ r
          → Refreshed first.1 r
          → P (api backend parse c b)
      by_refresh h (ok t, b') e f = rw (api_renewed t b' h e) (again t b' f)
      by_refresh h (err x, b') e f = rw ((api_expired x b' h e).0) (gone x b' f)
