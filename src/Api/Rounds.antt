-- ===== src/Api/Rounds.antt =====
-- The recursion of web/admin/src/lib/api.ts, whose interceptor calls `api` again.
use konsul.Prelude.{ℕ, suc, true, String, Option, none, some, ◌≡◌, refl, sym, ◌∙◌, arith}
use konsul.Value.{Value, Result, ok, err}
use konsul.Http.Storage
use konsul.Http.{Config, Backend, Browser, Action, send}
use konsul.Api.{resume, intercept, call, rounds, api, refresh, token_key, with_token, bearer}

pub with_token-retry : (token : Option String) (c : Config) → (with_token token c).retry ≡ c.retry
with_token-retry none c = refl
with_token-retry (some token) c = ground arith

module _ (backend : Backend) (parse : String → Option Value) where
  intercept_retry :
      (f g : Config → Action Value) (c : Config) (r : Result Value × Browser)
      → c.retry ≡ true
      → intercept backend parse f c r ≡ intercept backend parse g c r
  unfolding intercept
  intercept_retry f g c (ok v, b) h = refl
  intercept_retry f g c (err e, b) h = ground arith

  -- A request that is marked as retried makes no further call.
  call_retry :
      (f g : Config → Action Value) (c : Config) (b : Browser)
      → c.retry ≡ true
      → call backend parse f c b ≡ call backend parse g c b
  unfolding call
  call_retry f g c b h =
      let token = Storage.get_item token_key b.storage in
      intercept_retry f g (with_token token c) (send backend (with_token token c).request b)
        (with_token-retry token c ∙ h)

  module _ (f g : Config → Action Value)
      (same : (c : Config) (b : Browser) → c.retry ≡ true → f c b ≡ g c b) where
    resume_agree :
        (c : Config) (r : Result String × Browser)
        → resume backend parse f c r ≡ resume backend parse g c r
    unfolding resume
    resume_agree c (ok token, b) = same (bearer token (record c { retry = true })) b refl
    resume_agree c (err e, b) = refl

    intercept_agree :
        (c : Config) (r : Result Value × Browser)
        → intercept backend parse f c r ≡ intercept backend parse g c r
    unfolding intercept
    intercept_agree c (ok v, b) = refl
    intercept_agree c (err e, b) = ground (arith, resume_agree c (refresh backend parse b))

    call_agree : (c : Config) (b : Browser) → call backend parse f c b ≡ call backend parse g c b
    unfolding call
    call_agree c b =
        let attached = with_token (Storage.get_item token_key b.storage) c in
        intercept_agree attached (send backend attached.request b)

  rounds_agree :
      (n : ℕ) (c : Config) (b : Browser)
      → rounds backend parse (suc (suc n)) c b ≡ rounds backend parse 2 c b
  unfolding rounds
  rounds_agree n =
      call_agree (rounds backend parse (suc n)) (rounds backend parse 1)
        λ c b h. call_retry _ _ c b h

  -- `api`, which is defined with two levels of calls, satisfies the recursive equation of the
  -- source, whose interceptor calls `api` itself, whatever the server answers.
  pub api-eq-call :
      (c : Config) (b : Browser)
      → api backend parse c b ≡ call backend parse (api backend parse) c b
  unfolding api
  api-eq-call c b = sym (rounds_agree 1 c b)
