-- ===== src/Pages/Login.antt =====
-- web/admin/src/pages/Login.tsx: the form, what it sends, and what it shows afterwards.
pub mod Laws
use konsul.Prelude.{
  Bool, true, false, not, ◌&&◌, String, Option, none, some, List, map, keep, if◌then◌else◌,
}
use konsul.Prelude.Text.{nonempty, trim, split}
use konsul.Value.{Value, Error, Result, ok, err}
use konsul.Http.{Backend, Browser}
use konsul.Auth.{Auth, login}

-- The six `useState` cells.
pub record LoginForm : Type 0 where
  pub username : String
  pub user_id : String
  pub roles : String
  pub policies : String
  pub error : String
  pub is_loading : Bool

abbrev pub initial_form : LoginForm
initial_form = record {
  username = "";
  user_id = "";
  roles = "admin";
  policies = "";
  error = "";
  is_loading = false;
}

abbrev pub failed_message : String
failed_message = "Login failed. Please check your credentials and try again."

-- `s.split(',').map(r => r.trim()).filter(Boolean)`.
unfoldable pub text_list : String → List String
unfolding split trim
text_list s = keep nonempty (map trim (split b',' s))

-- `userId || username`.
abbrev pub id_or_name : LoginForm → String
id_or_name f = if nonempty f.user_id then f.user_id else f.username

-- The form, the path of the router, the session and the browser.
pub record Screen : Type 0 where
  pub form : LoginForm
  pub path : String
  pub session : Auth
  pub browser : Browser

-- After the answer: the `catch` and `finally` of `handleSubmit`.
unfoldable pub finish : LoginForm → String → Result (Unit {0}) × Auth × Browser → Screen
finish f path (ok u, a, b) = record {
  form = record f { is_loading = false };
  path = "/";
  session = a;
  browser = b;
}
finish f path (err e, a, b) = record {
  form = record f { error = failed_message; is_loading = false };
  path = path;
  session = a;
  browser = b;
}

-- While the request runs: `setError('')` and `setIsLoading(true)`.
abbrev pub submitting : LoginForm → LoginForm
submitting f = record f { error = ""; is_loading = true }

module _ (backend : Backend) (stringify : Value → String) where
  unfoldable pub handle_submit : Screen → Screen
  unfolding text_list finish
  handle_submit s = finish (submitting s.form) s.path (
      login backend stringify s.form.username (id_or_name s.form) (text_list s.form.roles)
        (text_list s.form.policies) (s.session, s.browser))

-- What the user does on the form.
pub data Event : Type 0 where
  type_username type_user_id type_roles type_policies : String → Event
  press_submit : Event

-- The inputs that are `required` keep the browser from submitting while they are empty.
abbrev pub is_complete : LoginForm → Bool
is_complete f = nonempty f.username && nonempty f.roles

module _ (backend : Backend) (stringify : Value → String) where
  unfoldable pub step : Event → Screen → Screen
  unfolding handle_submit
  step (type_username t) s = record s { form = record s.form { username = t } }
  step (type_user_id t) s = record s { form = record s.form { user_id = t } }
  step (type_roles t) s = record s { form = record s.form { roles = t } }
  step (type_policies t) s = record s { form = record s.form { policies = t } }
  step press_submit s =
      let submitted = handle_submit backend stringify s in
      if is_complete s.form && not s.form.is_loading then submitted else s

-- The text of the button, whether it is disabled, and the line with the error.
pub record LoginView : Type 0 where
  pub button : String
  pub is_disabled : Bool
  pub message : Option String

unfoldable pub login_view : LoginForm → LoginView
login_view f = record {
  button = if f.is_loading then "Signing in..." else "Sign In";
  is_disabled = f.is_loading;
  message = if nonempty f.error then some f.error else none;
}
