-- ===== src/Pages/Navbar.antt =====
-- web/admin/src/components/Navbar.tsx and ConnectionStatus.tsx: the menu of the user, and what the
-- bar shows. The user is a value that was stored, so that its fields are read as JavaScript does.
use konsul.Prelude.{Bool, false, not, ◌&&◌, String, Option, none, some, if◌then◌else◌}
use konsul.Value.{Value, undefined, arr, Items, cons, truthy, get_prop, Result, ok, err}
use konsul.Auth.{Auth, is_authenticated}

-- `ConnectionStatus`.
unfoldable pub connection_status : Bool → String
connection_status is_connected = if is_connected then "Live" else "Disconnected"

pub data Event : Type 0 where
  press_user press_outside : Event

-- `isUserMenuOpen`.
unfoldable pub step : Event → Bool → Bool
step press_user is_user_menu_open = not is_user_menu_open
step press_outside is_user_menu_open = false

-- The open menu: name, id, and the roles where there are any.
pub record UserMenu : Type 0 where
  pub username : Value
  pub user_id : Value
  pub roles : Option Items

pub record Bar : Type 0 where
  pub connection : Option String
  pub username : Option Value
  pub menu : Option UserMenu

-- `user.roles && user.roles.length > 0`, for roles that are an array or nothing.
unfoldable pub shown_roles : Result Value → Option Items
shown_roles (ok (arr (cons r rs))) = some (cons r rs)
shown_roles _ = none

-- A property of a user, who is an object here: what is not truthy shows no menu.
abbrev pub field_of : Value → String → Value
field_of user name = elim (get_prop user name) [ ok v ↦ v | err e ↦ undefined ]

unfoldable pub user_menu : Value → UserMenu
unfolding shown_roles
user_menu user = record {
  username = field_of user "username";
  user_id = field_of user "user_id";
  roles = shown_roles (get_prop user "roles");
}

unfoldable pub bar : Auth → Bool → Bool → Bar
unfolding connection_status user_menu
bar a is_connected is_user_menu_open =
    let signed_in = is_authenticated a in
    let has_user = signed_in && truthy a.user in
    record {
      connection = if signed_in then some (connection_status is_connected) else none;
      username = if has_user then some (field_of a.user "username") else none;
      menu = if has_user && is_user_menu_open then some (user_menu a.user) else none;
    }
