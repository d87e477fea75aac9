-- ===== src/Auth/Carried.antt =====
-- web/admin/src/contexts/AuthContext.tsx together with web/admin/src/lib/api.ts: the token that the
-- calls of the client carry after a login and after a logout.
use konsul.Prelude.{true, String, Option, none, some, List, [], ◌∷◌, ◌++◌, ◌≡◌, refl, ◌∙◌, ap}
use konsul.Prelude.Text.{nonempty}
use konsul.Value.{Value, str, Result, ok}
use konsul.Http.Storage
use konsul.Http.Storage.{storage_laws}
use konsul.Http.{Request, Config, Backend, Browser, send, settle}
use konsul.Api.Payload.{read_tokens}
use konsul.Api.Refresh.{Refreshed, not_sent, rejected, renewed}
use konsul.Api.Session.{attached, first, api_rule}
use konsul.Api.{token_key, bearer, api}
use konsul.Auth.{Auth, login_request, logout, login}
use konsul.Auth.Laws.{login_kept, logout-mount}

-- The requests that were added begin with this one; the newest stand first.
abbrev pub Begins : Request → Browser → Browser → Type 0
Begins q b b' = (rest : List Request) × (b'.sent ≡ rest ++ q ∷ b.sent)

Refreshed-Begins :
    (q : Request) (b b₁ : Browser) {r : Result String × Browser}
    → Begins q b b₁
    → Refreshed b₁ r
    → Begins q b r.1
Refreshed-Begins q b b₁ h (not_sent e) = h
Refreshed-Begins q b b₁ h (rejected e p) = (p ∷ h.0, ap (λ s. p ∷ s) (h.1))
Refreshed-Begins q b b₁ h (renewed token next p hr hu) = (p ∷ h.0, ap (λ s. p ∷ s) (h.1))

module _ (backend : Backend) (parse : String → Option Value) (c : Config) where
  -- The first request of a call is its own, with the stored token.
  api-Begins : (b : Browser) → Begins (attached c b).request b (api backend parse c b).1
  unfolding send
  api-Begins b =
      api_rule backend parse c b (λ r. Begins (attached c b).request b r.1) ([], refl)
        (λ e b' f.
          Refreshed-Begins (attached c b).request b (first backend parse c b).1 ([], refl) f)
        λ t b' f.
          let g =
            Refreshed-Begins (attached c b).request b (first backend parse c b).1 ([], refl) f in
          ((bearer t c).request ∷ g.0, ap (λ s. (bearer t c).request ∷ s) (g.1))

  stored-Begins :
      (token : String) (b : Browser)
      → nonempty token ≡ true
      → Storage.get_item token_key b.storage ≡ some token
      → Begins (bearer token c).request b (api backend parse c b).1
  stored-Begins token b h stored = rw (stored, h) at (api-Begins b)

  removed-Begins :
      (b : Browser)
      → Storage.get_item token_key b.storage ≡ none
      → Begins c.request b (api backend parse c b).1
  removed-Begins b stored = rw stored at (api-Begins b)

module _ (backend : Backend) (stringify : Value → String) (parse : String → Option Value) where
  -- After a login whose answer holds two texts, the first not empty, every call of the client
  -- first sends its request with that token in the header; after the logout that follows, its
  -- request goes out as it was made, without a stored token.
  pub login-logout-api :
      (username user_id : String) (roles policies : List String) (c : Config) (a : Auth)
      (b : Browser) (v : Value) (token next : String)
      → settle (backend b.sent (login_request user_id username roles policies)) ≡ ok v
      → read_tokens v ≡ ok (str token, str next)
      → nonempty token ≡ true
      → let s = login backend stringify username user_id roles policies (a, b) in
        Begins (bearer token c).request s.2 (api backend parse c s.2).1
        × Begins c.request (logout (s.1, s.2)).1 (api backend parse c (logout (s.1, s.2)).1).1
  login-logout-api username user_id roles policies c a b v token next h t nt =
      let s = login backend stringify username user_id roles policies (a, b) in
      let kept =
        ap (λ (r : Result (Unit {0}) × Auth × Browser). Storage.get_item token_key r.2.storage)
          (login_kept backend stringify username user_id roles policies a b v token next h t) in
      (
        stored-Begins backend parse c token s.2 nt (kept ∙ simp storage_laws),
        removed-Begins backend parse c (logout (s.1, s.2)).1 ((logout-mount parse s.1 s.2).1),
      )
