-- ===== src/Routes.antt =====
-- web/admin/src/App.tsx and the components ProtectedRoute.tsx, Sidebar.tsx and Navbar.tsx: what
-- the console shows for a session and a path. `same` is how the router compares two segments of a
-- path, which it does without regard to the case of letters.
pub mod Access
pub mod Sidebar
use konsul.Prelude.{
  Bool, true, false, ◌&&◌, String, Option, none, some, List, [], ◌∷◌, map, str_eq, if◌then◌else◌,
}
use konsul.Http.{Browser}
use konsul.Auth.{Auth, is_authenticated, logout}

pub data Page : Type 0 where
  dashboard services kv health apikeys : Page

-- The segments of a path below `/admin`; an empty one at the end is a slash there.
abbrev pub Route : Type 0
Route = List String

-- `shell` is the frame with the navigation bar and the page's content, empty at an unknown path.
pub data Shown : Type 0 where
  spinner login_form : Shown
  navigate : Route → Shown
  shell : Option Page → Shown

abbrev pub login_route : Route
login_route = "login" ∷ []

abbrev pub home_route : Route
home_route = []

-- `<ProtectedRoute>`.
unfoldable pub protected_route : Auth → Shown → Shown
protected_route a children =
    if a.is_loading then spinner else if is_authenticated a then children else navigate login_route

-- The routes, for a path from which the router has taken a slash at the end.
module _ (same : String → String → Bool) where
  abbrev pub is_login : Route → Bool
  is_login [] = false
  is_login (s ∷ []) = same "login" s
  is_login (s ∷ t ∷ r) = false

  -- The inner `<Routes>`.
  unfoldable pub page_at : Route → Option Page
  page_at [] = some dashboard
  page_at (s ∷ []) =
      if same "services" s
      then some services
      else if same "kv" s
      then some kv
      else if same "health" s
      then some health
      else if same "apikeys" s
      then some apikeys
      else none
  page_at (s ∷ t ∷ r) = none

  unfoldable pub app : Auth → Route → Shown
  app a r =
      let public = if is_authenticated a then navigate home_route else login_form in
      let private = protected_route a (shell (page_at r)) in
      if a.is_loading then spinner else if is_login r then public else private

-- The links of the sidebar, with their texts.
abbrev pub navigation : List (String × Route)
navigation =
    ("Dashboard", [])
    ∷ ("Services", "services" ∷ [])
    ∷ ("KV Store", "kv" ∷ [])
    ∷ ("Health", "health" ∷ [])
    ∷ ("API Keys", "apikeys" ∷ [])
    ∷ []

abbrev pub same_route : Route → Route → Bool
same_route [] [] = true
same_route (s ∷ r) (t ∷ q) = str_eq s t && same_route r q
same_route [] (t ∷ q) = false
same_route (s ∷ r) [] = false

-- `location.pathname === item.href` for each link.
unfoldable pub active_items : Route → List (String × Bool)
active_items r = map (λ item. (item.0, same_route r item.1)) navigation

-- `handleLogout` of the navigation bar, with the route that it leads to.
unfoldable pub handle_logout : Auth × Browser → (Auth × Browser) × Route
handle_logout s = (logout s, login_route)
