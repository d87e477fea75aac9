-- ===== src/Api/Bounds.antt =====
-- Of web/admin/src/lib/api.ts: the number of requests of a call of `api`, and the stored session.
use konsul.Prelude.{ℕ, ◌+◌, ◌≤◌, ◌<◌, String, Option, ◌≡◌, sym, arith, length}
use konsul.Value.{Value, Result}
use konsul.Http.Storage
use konsul.Http.Storage.{Storage, storage_laws}
use konsul.Http.{Config, Backend, Browser, send}
use konsul.Api.Refresh.{Refreshed, not_sent, rejected, renewed}
use konsul.Api.Session.{api_rule}
use konsul.Api.{api, token_key, refresh_key, user_key, sign_out}

-- The three keys are stored together or not at all.
abbrev pub IsWhole : Storage → Type 0
IsWhole s =
    (Storage.has token_key s ≡ Storage.has user_key s)
    × (Storage.has refresh_key s ≡ Storage.has user_key s)

-- Requests were added, one to `n` of them.
abbrev pub Sends : ℕ → Browser → Browser → Type 0
Sends n b b' = (length b.sent < length b'.sent) × (length b'.sent ≤ length b.sent + n)

abbrev Grows : Browser → Result String × Browser → Type 0
Grows b r = (length b.sent ≤ length r.1.sent) × (length r.1.sent ≤ length b.sent + 1)

Refreshed-Grows : {b : Browser} {r : Result String × Browser} → Refreshed b r → Grows b r
Refreshed-Grows (not_sent e) = omega arith
Refreshed-Grows (rejected e q) = omega arith
Refreshed-Grows (renewed token next q hr hu) = omega arith

sign_out-IsWhole : (b : Browser) → IsWhole (sign_out b).storage
sign_out-IsWhole b = (simp storage_laws, simp storage_laws)

Refreshed-IsWhole :
    {b : Browser} {r : Result String × Browser}
    → Refreshed b r
    → IsWhole b.storage
    → IsWhole r.1.storage
Refreshed-IsWhole (not_sent e) w = w
Refreshed-IsWhole (rejected e q) w = w
Refreshed-IsWhole (renewed token next q hr hu) w =
    (simp storage_laws (sym hu), simp storage_laws (sym hu))

module _ (backend : Backend) (parse : String → Option Value) (c : Config) (b : Browser) where
  -- One call of `api` sends at least one request and at most three: the request, the exchange of
  -- the tokens and the retry.
  pub api-Sends : Sends 3 b (api backend parse c b).1
  unfolding send
  api-Sends =
      api_rule backend parse c b (λ r. Sends 3 b r.1) (omega arith)
        (λ e b' f. omega (arith, Refreshed-Grows f)) λ t b' f. omega (arith, Refreshed-Grows f)

  -- Whatever happens in a call of `api`, a session that was stored whole is stored whole or gone.
  pub api-IsWhole : IsWhole b.storage → IsWhole (api backend parse c b).1.storage
  unfolding send
  api-IsWhole w =
      api_rule backend parse c b (λ r. IsWhole r.1.storage) w (λ e b' f. sign_out-IsWhole b')
        λ t b' f. Refreshed-IsWhole f w
