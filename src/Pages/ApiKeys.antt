-- ===== src/Pages/ApiKeys.antt =====
-- web/admin/src/pages/APIKeys.tsx: the keys of the server. The page calls the browser's `fetch`
-- with the session's token, not `api`. The answers' bodies are JSON. A mutation's result is kept in
-- `running` until it settles. `parse_int` is `parseInt`.
pub mod Sent
use konsul.Prelude.{
  ℕ, zero, suc, Bool, true, false, ◌&&◌, not, String, Option, none, some, List, [], ◌∷◌, ◌++◌, map,
  if◌then◌else◌,
}
use konsul.Prelude.Text.{◌<>◌, trim, split, join}
use konsul.Value.{
  Value, undefined, null, str, arr, obj, end, field, texts, truthy, to_text, Error, thrown, Result,
  ok, err,
}
use konsul.Http.{Method, get, post, delete, Request, Backend, Browser, Action, pure, send}

-- `formData`, which `createMutation` takes.
pub record KeyForm : Type 0 where
  pub name : String
  pub permissions : String
  pub expires_in : String

abbrev pub empty_form : KeyForm
empty_form = record { name = ""; permissions = "read,write"; expires_in = "31536000" }

pub data Mutation : Type 0 where
  create remove revoke : Mutation

-- The page's cells. `is_confirmed` is what `confirm` gives when asked; `clipboard` has what was
-- written to it; `timers` counts the running timers; `invalidations` the calls of
-- `invalidateQueries`.
pub record KeysPage : Type 0 where
  pub is_modal_open : Bool
  pub new_key_data : Value
  pub copied_key : Bool
  pub form : KeyForm
  pub clipboard : Option String
  pub timers : ℕ
  pub running : List (Mutation × Result Value)
  pub invalidations : ℕ

abbrev pub opened : KeysPage
opened = record {
  is_modal_open = false;
  new_key_data = null;
  copied_key = false;
  form = empty_form;
  clipboard = none;
  timers = zero;
  running = [];
  invalidations = zero;
}

-- `data.permissions.split(',').map(p => p.trim())`.
unfoldable pub permission_list : String → List String
unfolding split trim
permission_list s = map trim (split b',' s)

pub key_request : Value → Method → String → Value → Request
unfolding to_text
key_request token method url body = record {
  method = method;
  url = url;
  body = body;
  authorization = some ("Bearer " <> to_text token);
}

-- `if (!response.ok) throw new Error(…)`; `fetch` itself rejects where no answer comes.
abbrev or_failed : String → Result Value × Browser → Result Value × Browser
or_failed message (ok v, b) = (ok v, b)
or_failed message (err (Error.response status v), b) = (err (thrown message), b)
or_failed message (err e, b) = (err e, b)

module _ (backend : Backend) (parse_int : String → Value) (token : Value) where
  pub fetch_with_token : Method → String → Value → String → Action Value
  unfolding key_request
  fetch_with_token method url body message b =
      or_failed message (send backend (key_request token method url body) b)

  -- The query runs only with a token: `enabled: !!token`.
  unfoldable pub fetch_keys : Action Value
  unfolding fetch_with_token
  fetch_keys b =
      let fetched = fetch_with_token get "/auth/apikeys" undefined "Failed to fetch API keys" b in
      if truthy token then fetched else (ok undefined, b)

  unfoldable pub create_key : KeyForm → Action Value
  unfolding permission_list
  create_key f =
      fetch_with_token post "/auth/apikeys"
        (obj (
          field "name" (str f.name) (
            field "permissions" (arr (texts (permission_list f.permissions)))
              (field "expires_in" (parse_int f.expires_in) end))))
        "Failed to create API key"

  -- The results of these two are not used.
  unfoldable pub delete_key : Value → Action Value
  delete_key id =
      fetch_with_token delete ("/auth/apikeys/" <> to_text id) undefined "Failed to delete API key"

  unfoldable pub revoke_key : Value → Action Value
  revoke_key id =
      fetch_with_token post ("/auth/apikeys/" <> to_text id <> "/revoke") undefined
        "Failed to revoke API key"

-- The three `onSuccess` functions.
unfoldable pub on_settled : Mutation × Result Value → KeysPage → KeysPage
on_settled (create, ok data_) p = record p {
  invalidations = suc p.invalidations;
  new_key_data = data_;
  form = empty_form;
}
on_settled (remove, ok v) p = record p { invalidations = suc p.invalidations }
on_settled (revoke, ok v) p = record p { invalidations = suc p.invalidations }
on_settled (m, err e) p = p

settle_nth :
    ℕ → List (Mutation × Result Value) → List (Mutation × Result Value) → KeysPage → KeysPage
unfolding on_settled
settle_nth n before [] p = p
settle_nth zero before (r ∷ rs) p = on_settled r (record p { running = before ++ rs })
settle_nth (suc n) before (r ∷ rs) p = settle_nth n (before ++ r ∷ []) rs p

unfoldable pub copy_to_clipboard : String → KeysPage → KeysPage
copy_to_clipboard text p = record p {
  clipboard = some text;
  copied_key = true;
  timers = suc p.timers;
}

-- A timer of `copyToClipboard` ends.
unfoldable pub timer_ends : ℕ → KeysPage → KeysPage
timer_ends zero p = p
timer_ends (suc n) p = record p { copied_key = false; timers = n }

abbrev pub done : KeysPage → KeysPage
done p = record p { new_key_data = null; is_modal_open = false }

-- The Boolean is how the user answers `confirm`.
pub data Event : Type 0 where
  load open_modal close_modal submit press_done timer : Event
  type_name type_permissions pick_expiry copy : String → Event
  press_revoke : Value → Event
  press_delete : Value → Bool → Event
  settled : ℕ → Event

module _ (backend : Backend) (parse_int : String → Value) (token : Value) where
  abbrev running_with : Mutation → KeysPage → Result Value × Browser → KeysPage × Browser
  running_with m p (r, b) = (record p { running = p.running ++ (m, r) ∷ [] }, b)

  unfoldable pub handle_submit : KeysPage × Browser → KeysPage × Browser
  handle_submit (p, b) = running_with create p (create_key backend parse_int token p.form b)

  unfoldable pub step : Event → KeysPage × Browser → KeysPage × Browser
  unfolding handle_submit settle_nth copy_to_clipboard timer_ends
  step load (p, b) = (p, (fetch_keys backend parse_int token b).1)
  step open_modal (p, b) = (record p { is_modal_open = true }, b)
  step close_modal (p, b) = (record p { is_modal_open = false }, b)
  step submit s = handle_submit s
  step press_done (p, b) = (done p, b)
  step timer (p, b) = (timer_ends p.timers p, b)
  step (type_name s) (p, b) = (record p { form = record p.form { name = s } }, b)
  step (type_permissions s) (p, b) = (record p { form = record p.form { permissions = s } }, b)
  step (pick_expiry s) (p, b) = (record p { form = record p.form { expires_in = s } }, b)
  step (copy s) (p, b) = (copy_to_clipboard s p, b)
  step (press_revoke id) (p, b) = running_with revoke p (revoke_key backend parse_int token id b)
  step (press_delete id is_confirmed) (p, b) =
      let deleted = running_with remove p (delete_key backend parse_int token id b) in
      if is_confirmed then deleted else (p, b)
  step (settled n) (p, b) = (settle_nth n [] p.running p, b)

  unfoldable pub run : List Event → KeysPage × Browser → KeysPage × Browser
  unfolding step
  run [] s = s
  run (e ∷ es) s = run es (step e s)

-- Which dialog the page shows.
pub data Dialog : Type 0 where
  no_dialog create_dialog : Dialog
  key_dialog : Value → Dialog

unfoldable pub dialog : KeysPage → Dialog
dialog p =
    if truthy p.new_key_data
    then key_dialog p.new_key_data
    else if p.is_modal_open
    then create_dialog
    else no_dialog

-- `APIKey`, where it is used as its type says, and the card that shows it.
pub record ApiKey : Type 0 where
  pub id : String
  pub name : String
  pub permissions : List String
  pub enabled : Bool

pub record KeyCard : Type 0 where
  pub title : String
  pub badge : String
  pub permissions_line : String
  pub id_line : String
  pub can_revoke : Bool

unfoldable pub key_card : ApiKey → KeyCard
unfolding join
key_card k = record {
  title = k.name;
  badge = if k.enabled then "Active" else "Revoked";
  permissions_line = "Permissions: " <> join ", " k.permissions;
  id_line = "ID: " <> k.id;
  can_revoke = k.enabled;
}

pub data Content : Type 0 where
  placeholders no_keys : Content
  key_cards : List KeyCard → Content

-- `apiKeys` is what the query has: nothing yet, or a list.
unfoldable pub content : Bool → Option (List ApiKey) → Content
unfolding key_card
content true keys = placeholders
content false none = no_keys
content false (some []) = no_keys
content false (some (k ∷ ks)) = key_cards (map key_card (k ∷ ks))
