-- ===== src/Routes/Sidebar.antt =====
-- web/admin/src/components/Sidebar.tsx with the state that web/admin/src/App.tsx keeps for it: the
-- links, and on a narrow screen the sidebar that slides in.
use mathlib.Core.Path.{subst}
use konsul.Prelude.{
  ℕ, zero, suc, Bool, true, false, ◌&&◌, String, Option, none, some, List, [], ◌∷◌, ◌≡◌, refl, sym,
  any, inl, inr, Bool-cases, arith, str_eq, eq_iff, if◌then◌else◌,
}
use konsul.Routes.{
  Page, dashboard, services, kv, health, apikeys, Route, page_at, navigation, active_items,
  same_route,
}

-- `isSidebarOpen`, and the address.
pub record Shell : Type 0 where
  pub is_sidebar_open : Bool
  pub route : Route

-- The page starts with the sidebar closed.
abbrev pub loaded : Route → Shell
loaded r = record { is_sidebar_open = false; route = r }

pub record Sidebar : Type 0 where
  pub has_overlay : Bool
  pub is_shifted_in : Bool
  pub items : List (String × Bool)

pub data Event : Type 0 where
  press_menu press_overlay press_close : Event
  press_link : ℕ → Event
  goes : Route → Event

unfoldable pub sidebar : Shell → Sidebar
unfolding active_items
sidebar f = record {
  has_overlay = f.is_sidebar_open;
  is_shifted_in = f.is_sidebar_open;
  items = active_items f.route;
}

abbrev pub nth_link : ℕ → List (String × Route) → Option Route
nth_link n [] = none
nth_link zero ((name, href) ∷ items) = some href
nth_link (suc n) (item ∷ items) = nth_link n items

-- A press of a link calls `onClose` and navigates.
abbrev pub follow : Option Route → Shell → Shell
follow none f = f
follow (some href) f = record { is_sidebar_open = false; route = href }

unfoldable pub step : Event → Shell → Shell
step press_menu f = record f { is_sidebar_open = true }
step press_overlay f = record f { is_sidebar_open = false }
step press_close f = record f { is_sidebar_open = false }
step (press_link n) f = follow (nth_link n navigation) f
step (goes r) f = record f { route = r }

-- Whether a page is the one that is shown.
abbrev pub is_page : Page → Option Page → Bool
is_page p none = false
is_page dashboard (some dashboard) = true
is_page services (some services) = true
is_page kv (some kv) = true
is_page health (some health) = true
is_page apikeys (some apikeys) = true
is_page p (some q) = false

-- The links with the pages that they stand for.
abbrev pub marked : Option Page → List (String × Bool)
marked o =
    ("Dashboard", is_page dashboard o)
    ∷ ("Services", is_page services o)
    ∷ ("KV Store", is_page kv o)
    ∷ ("Health", is_page health o)
    ∷ ("API Keys", is_page apikeys o)
    ∷ []

and_false : (b : Bool) → (b && false) ≡ false
and_false b = ground arith

-- Whether an address is written as one of the links.
abbrev pub is_link : Route → Bool
is_link r = any (λ item. same_route r item.1) navigation

-- A comparison of segments after `lower` has taken the case from their letters.
abbrev pub folded : (String → String) → String → String → Bool
folded lower s t = str_eq (lower s) (lower t)

-- How the router reads a path: `lower` takes the case from letters, `segments` a slash from the end.
-- Both leave the links, which are in small letters and end in no slash, as they are.
pub record KeepsLinks (lower : String → String) (segments : Route → Route) : Type 0 where
  pub home : segments [] ≡ []
  pub services_link : segments ("services" ∷ []) ≡ "services" ∷ []
  pub kv_link : segments ("kv" ∷ []) ≡ "kv" ∷ []
  pub health_link : segments ("health" ∷ []) ≡ "health" ∷ []
  pub apikeys_link : segments ("apikeys" ∷ []) ≡ "apikeys" ∷ []
  pub services : lower "services" ≡ "services"
  pub kv : lower "kv" ≡ "kv"
  pub health : lower "health" ≡ "health"
  pub apikeys : lower "apikeys" ≡ "apikeys"

module _ (lower : String → String) (segments : Route → Route) where
  abbrev MarksShown : Route → Type 0
  MarksShown r =
      active_items r ≡ marked (if is_link r then page_at (folded lower) (segments r) else none)

  module _ (links : KeepsLinks lower segments) where
    at_services : MarksShown ("services" ∷ [])
    unfolding active_items page_at
    at_services = rw (links.services_link, links.services) refl

    at_kv : MarksShown ("kv" ∷ [])
    unfolding active_items page_at
    at_kv = rw (links.kv_link, links.services, links.kv) refl

    at_health : MarksShown ("health" ∷ [])
    unfolding active_items page_at
    at_health = rw (links.health_link, links.services, links.kv, links.health) refl

    at_apikeys : MarksShown ("apikeys" ∷ [])
    unfolding active_items page_at
    at_apikeys = rw (links.apikeys_link, links.services, links.kv, links.health, links.apikeys) refl

  -- At a segment that is none of the links'.
  elsewhere :
      (s : String)
      → str_eq s "services" ≡ false
      → str_eq s "kv" ≡ false
      → str_eq s "health" ≡ false
      → str_eq s "apikeys" ≡ false
      → MarksShown (s ∷ [])
  unfolding active_items
  elsewhere s a b c d = rw (a, b, c, d) refl

  by_link :
      (s t : String)
      → (str_eq s t ≡ false → MarksShown (s ∷ []))
      → MarksShown (t ∷ [])
      → MarksShown (s ∷ [])
  by_link s t other here = elim (Bool-cases (str_eq s t)) [
    | inl e ↦ subst (λ u. MarksShown (u ∷ [])) (sym ((eq_iff s t).0 e)) here
    | inr n ↦ other n
  ]

  -- The router disregards the case of the letters and a slash at the end. At an address that is
  -- written as one of the links the sidebar marks the link of the page that the router shows, and
  -- no other; at any other address it marks none, whether the router shows a page there or not.
  pub active_items-page_at :
      (r : Route)
      → KeepsLinks lower segments
      → active_items r ≡ marked (if is_link r then page_at (folded lower) (segments r) else none)
  active_items-page_at [] links = unfold active_items in unfold page_at in rw links.home refl
  active_items-page_at (s ∷ []) links =
      by_link s "services"
        (λ a.
          by_link s "kv"
            (λ b.
              by_link s "health"
                (λ c. by_link s "apikeys" (λ d. elsewhere s a b c d) (at_apikeys links))
                (at_health links))
            (at_kv links))
        (at_services links)
  active_items-page_at (s ∷ t ∷ r) links =
      unfold active_items in
      rw
        (
          and_false (str_eq s "services"),
          and_false (str_eq s "kv"),
          and_false (str_eq s "health"),
          and_false (str_eq s "apikeys"),
        )
        refl
