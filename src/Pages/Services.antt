-- ===== src/Pages/Services.antt =====
-- web/admin/src/pages/Services.tsx and components/ServiceCard.tsx: the page's state, what its
-- controls do, and what it shows. A mutation runs while the page is used: its result is kept in
-- `running` until it settles. The inputs marked `required` are the browser's to check.
pub mod Tags
use konsul.Prelude.{
  ℕ, zero, suc, Bool, true, false, ◌&&◌, ◌||◌, not, String, Option, none, some, List, [], ◌∷◌, ◌++◌,
  str_eq, keep, any, if◌then◌else◌,
}
use konsul.Prelude.Text.{◌<>◌, nonempty, trim}
use konsul.Value.{
  truthy, find_field, to_text, Value, num, str, arr, obj, Items, nil, cons, Fields, end, field,
  texts, or_else, Result, ok, err,
}
use konsul.Http.{Backend, Browser}
use konsul.Endpoints.{register_service, deregister_service, send_heartbeat}

-- `formData`. Its port is the number that `parseInt` gives, also where that is `NaN`.
pub record ServiceForm : Type 0 where
  pub name : String
  pub id : Option String
  pub address : String
  pub port : Value
  pub tags : List String

abbrev pub empty_form : ServiceForm
empty_form = record { name = ""; id = none; address = ""; port = num "8080"; tags = [] }

abbrev id_field : Option String → Fields
id_field none = end
id_field (some id) = field "id" (str id) end

-- The fields in the order in which the object gets them.
abbrev pub form_value : ServiceForm → Value
form_value f = obj (
    field "name" (str f.name) (
      field "address" (str f.address) (
        field "port" f.port
          (field "tags" (arr (texts f.tags)) (field "metadata" (obj end) (id_field f.id))))))

pub data Mutation : Type 0 where
  register deregister heartbeat : Mutation

-- `invalidations` counts the calls of `invalidateQueries`, all for `['services']`.
pub record ServicesPage : Type 0 where
  pub is_modal_open : Bool
  pub form : ServiceForm
  pub tag_input : String
  pub running : List (Mutation × Result Value)
  pub invalidations : ℕ

abbrev pub opened : ServicesPage
opened = record {
  is_modal_open = false;
  form = empty_form;
  tag_input = "";
  running = [];
  invalidations = zero;
}

abbrev pub set_form : ServiceForm → ServicesPage → ServicesPage
set_form f p = record p { form = f }

unfoldable pub reset_form : ServicesPage → ServicesPage
reset_form p = record p { form = empty_form; tag_input = "" }

unfoldable pub handle_add_tag : ServicesPage → ServicesPage
unfolding trim
handle_add_tag p =
    if nonempty (trim p.tag_input) && not (any (λ t. str_eq t (trim p.tag_input)) p.form.tags)
    then record p {
      form = record p.form { tags = p.form.tags ++ trim p.tag_input ∷ [] };
      tag_input = "";
    }
    else p

unfoldable pub handle_remove_tag : String → ServicesPage → ServicesPage
handle_remove_tag tag p =
    set_form (record p.form { tags = keep (λ t. not (str_eq t tag)) p.form.tags }) p

-- The three `onSuccess` functions.
unfoldable pub on_success : Mutation → ServicesPage → ServicesPage
unfolding reset_form
on_success register p =
    reset_form (record p { invalidations = suc p.invalidations; is_modal_open = false })
on_success deregister p = record p { invalidations = suc p.invalidations }
on_success heartbeat p = record p { invalidations = suc p.invalidations }

-- A mutation that fails has no handler.
unfoldable pub on_settled : Mutation × Result Value → ServicesPage → ServicesPage
unfolding on_success
on_settled (m, ok v) p = on_success m p
on_settled (m, err e) p = p

abbrev pub drop_running : ℕ → List (Mutation × Result Value) → List (Mutation × Result Value)
drop_running n [] = []
drop_running zero (r ∷ rs) = rs
drop_running (suc n) (r ∷ rs) = r ∷ drop_running n rs

abbrev pub nth_running : ℕ → List (Mutation × Result Value) → Option (Mutation × Result Value)
nth_running n [] = none
nth_running zero (r ∷ rs) = some r
nth_running (suc n) (r ∷ rs) = nth_running n rs

pub settle_found : Option (Mutation × Result Value) → ServicesPage → ServicesPage
unfolding on_settled
settle_found none p = p
settle_found (some r) p = on_settled r p

-- What the user does on the page, and that the running mutation of a position settles.
pub data Event : Type 0 where
  open_modal close_modal add_tag submit : Event
  type_name type_id type_address type_port type_tag remove_tag : String → Event
  press_heartbeat press_remove : Value → Event
  settled : ℕ → Event

module _ (backend : Backend) (parse : String → Option Value) (parse_int : String → Value) where
  unfoldable pub mutate : Mutation → Value → Browser → Result Value × Browser
  mutate register v = register_service backend parse v
  mutate deregister v = deregister_service backend parse v
  mutate heartbeat v = send_heartbeat backend parse v

  abbrev pub start : Mutation → Value → ServicesPage × Browser → ServicesPage × Browser
  start m v (p, b) =
      let (r, b') = mutate m v b in (record p { running = p.running ++ (m, r) ∷ [] }, b')

  unfoldable pub handle_submit : ServicesPage × Browser → ServicesPage × Browser
  handle_submit (p, b) = start register (form_value p.form) (p, b)

  unfoldable pub step : Event → ServicesPage × Browser → ServicesPage × Browser
  unfolding handle_submit handle_add_tag handle_remove_tag
  step open_modal (p, b) = (record p { is_modal_open = true }, b)
  step close_modal (p, b) = (record p { is_modal_open = false }, b)
  step (type_name s) (p, b) = (set_form (record p.form { name = s }) p, b)
  step (type_id s) (p, b) = (set_form (record p.form { id = some s }) p, b)
  step (type_address s) (p, b) = (set_form (record p.form { address = s }) p, b)
  step (type_port s) (p, b) = (set_form (record p.form { port = parse_int s }) p, b)
  step (type_tag s) (p, b) = (record p { tag_input = s }, b)
  step add_tag (p, b) = (handle_add_tag p, b)
  step (remove_tag t) (p, b) = (handle_remove_tag t p, b)
  step submit (p, b) = handle_submit (p, b)
  step (press_heartbeat id) (p, b) = start heartbeat id (p, b)
  step (press_remove id) (p, b) = start deregister id (p, b)
  step (settled n) (p, b) =
      (settle_found (nth_running n p.running) (record p { running = drop_running n p.running }), b)

  unfoldable pub run : List Event → ServicesPage × Browser → ServicesPage × Browser
  unfolding step
  run [] s = s
  run (e ∷ es) s = run es (step e s)

-- Below the title: placeholders, the cards, or the text that there is no service.
pub data Content : Type 0 where
  placeholders : Content
  cards : Items → Content
  no_services : Content

-- `services` is what the query has: nothing yet, or an array.
unfoldable pub content : Bool → Option Items → Content
content true services = placeholders
content false (some (cons s ss)) = cards (cons s ss)
content false _ = no_services

-- The text of the badge, and whether it is green, for the fields of a service.
abbrev is_text : String → Value → Bool
is_text s (str t) = str_eq s t
is_text s _ = false

unfoldable pub is_healthy : Value → Bool
is_healthy status = is_text "passing" status || is_text "healthy" status

unfoldable pub badge : Value → Value
badge status = or_else status (str "unknown")

-- `ServiceCard`: the fields of the service are read as JavaScript does; the lines with tags and the
-- last heartbeat stand only where there is something to show. The two buttons send the id.
pub record ServiceCard : Type 0 where
  pub title : Value
  pub subtitle : Value
  pub badge_text : Value
  pub is_green : Bool
  pub address_line : String
  pub tags : Option Items
  pub last_heartbeat : Option Value
  pub heartbeat_event : Event
  pub remove_event : Event

abbrev tags_line : Value → Option Items
tags_line (arr (cons t ts)) = some (cons t ts)
tags_line _ = none

unfoldable pub service_card : Fields → ServiceCard
unfolding is_healthy badge find_field to_text
service_card fs = record {
  title = find_field "name" fs;
  subtitle = find_field "id" fs;
  badge_text = badge (find_field "status" fs);
  is_green = is_healthy (find_field "status" fs);
  address_line = to_text (find_field "address" fs) <> ":" <> to_text (find_field "port" fs);
  tags = tags_line (find_field "tags" fs);
  last_heartbeat =
      if truthy (find_field "last_heartbeat" fs)
      then some (find_field "last_heartbeat" fs)
      else none;
  heartbeat_event = press_heartbeat (find_field "id" fs);
  remove_event = press_remove (find_field "id" fs);
}
