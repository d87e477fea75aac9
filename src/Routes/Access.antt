-- ===== src/Routes/Access.antt =====
-- Who is shown what by the routes of web/admin/src/App.tsx.
use konsul.Prelude.{Bool, true, false, String, ◌≡◌, arith, if_rule, if◌then◌else◌}
use konsul.Http.{Browser}
use konsul.Auth.{Auth, is_authenticated, logout}
use konsul.Routes.{
  Route, Shown, spinner, login_form, navigate, shell, login_route, home_route, protected_route,
  is_login, page_at, app, handle_logout,
}

-- What a session may be shown.
abbrev pub MayShow : Auth → Shown → Type 0
MayShow a spinner = a.is_loading ≡ true
MayShow a login_form = (a.is_loading ≡ false) × (is_authenticated a ≡ false)
MayShow a (navigate r) = a.is_loading ≡ false
MayShow a (shell page) = (a.is_loading ≡ false) × (is_authenticated a ≡ true)

protected_route-MayShow :
    (a : Auth) (children : Shown)
    → (is_authenticated a ≡ true → MayShow a children)
    → MayShow a (protected_route a children)
unfolding protected_route
protected_route-MayShow a children h =
    if_rule (MayShow a) a.is_loading spinner _ (λ e. e)
      (λ e. if_rule (MayShow a) (is_authenticated a) children (navigate login_route) h (λ _. e))

public-MayShow :
    (a : Auth)
    → a.is_loading ≡ false
    → MayShow a (if is_authenticated a then navigate home_route else login_form)
public-MayShow a e =
    if_rule (MayShow a) (is_authenticated a) (navigate home_route) login_form (λ _. e) (λ n. (e, n))

module _ (same : String → String → Bool) where
  -- A page of the console is shown only to a session that is signed in and loaded, and the login
  -- form only to one that is not signed in.
  pub app-MayShow : (a : Auth) (r : Route) → MayShow a (app same a r)
  unfolding app
  app-MayShow a r =
      if_rule (MayShow a) a.is_loading spinner _ (λ e. e)
        (λ e.
          if_rule (MayShow a) (is_login same r) _ _ (λ _. public-MayShow a e)
            (λ _. protected_route-MayShow a (shell (page_at same r)) (λ h. (e, h))))

  -- A redirect never leads to another redirect, provided that the router matches "login" with
  -- itself.
  pub app_redirect_once :
      (a : Auth) (r target : Route) (next : Route)
      → same "login" "login" ≡ true
      → app same a r ≡ navigate target
      → ¬ (app same a target ≡ navigate next)
  unfolding app protected_route
  app_redirect_once a r target next refl_same h k = ground arith

  -- After a press of "Sign Out" in a loaded session, the address that it leads to shows the
  -- login form, and every address that is not the login's redirects to it, provided that the
  -- router matches "login" with itself.
  pub handle_logout-app :
      (a : Auth) (b : Browser) (r : Route)
      → a.is_loading ≡ false
      → same "login" "login" ≡ true
      → is_login same r ≡ false
      → (let (s, target) = handle_logout (a, b) in
          (app same s.0 target ≡ login_form) × (app same s.0 r ≡ navigate target))
  unfolding handle_logout app protected_route logout is_authenticated
  handle_logout-app a b r h k n = (ground arith, ground arith)
