-- ===== src/Tests/Routes.antt =====
-- What is shown at some addresses.
use konsul.Prelude.{◌≡◌, false, str_eq, String, none, some, refl, if◌then◌else◌, [], ◌∷◌}
use konsul.Value.{str}
use konsul.Auth.{Auth, initial}
use konsul.Routes.{app, kv, Route, page_at, active_items}
use konsul.Routes.Access.{MayShow, app-MayShow}
use konsul.Routes.Sidebar.{marked, is_link, folded, KeepsLinks, active_items-page_at}
use konsul.Tests.{alice}

abbrev signed_in : Auth
signed_in = record { user = alice; token = str "old"; refresh_token = str "r"; is_loading = false }

abbrev signed_out : Auth
signed_out = record initial { is_loading = false }

app-MayShow_example : MayShow signed_in (app str_eq signed_in ("kv" ∷ []))
app-MayShow_example = app-MayShow str_eq signed_in ("kv" ∷ [])

abbrev lower : String → String
lower s = if str_eq s "KV" then "kv" else if str_eq s "Health" then "health" else s

abbrev without_slash : Route → Route
without_slash [] = []
without_slash (s ∷ r) = elim (without_slash r) [
  | [] ↦ if str_eq s "" then [] else s ∷ []
  | (t ∷ q) ↦ s ∷ t ∷ q
]

router-KeepsLinks : KeepsLinks lower without_slash
router-KeepsLinks = record {
  home = refl;
  services_link = refl;
  kv_link = refl;
  health_link = refl;
  apikeys_link = refl;
  services = refl;
  kv = refl;
  health = refl;
  apikeys = refl;
}

active_items-page_at_example :
    active_items ("kv" ∷ [])
    ≡ marked
        (if is_link ("kv" ∷ []) then page_at (folded lower) (without_slash ("kv" ∷ [])) else none)
active_items-page_at_example =
    active_items-page_at lower without_slash ("kv" ∷ []) router-KeepsLinks

-- At /KV/ the page is shown, and no link is marked.
shown_unmarked :
    (page_at (folded lower) (without_slash ("KV" ∷ "" ∷ [])) ≡ some kv)
    × (active_items ("KV" ∷ "" ∷ []) ≡ marked none)
unfolding page_at active_items
shown_unmarked = (refl, refl)
