-- ===== src/Pages/KeyValues.antt =====
-- web/admin/src/pages/KVStore.tsx and components/KVEditor.tsx: the list of keys, the editor, and
-- what its buttons send. `parse` and `pretty` are `JSON.parse`, `none` where that throws, and
-- `JSON.stringify` with an indent of 2; `atob` gives `none` where that throws, `lower` is
-- `toLowerCase`. A mutation runs while the page is used: its result is kept in `running` until it
-- settles. The editor covers the page while it is shown, whose buttons then get no click.
pub mod Editing
pub mod Search
use konsul.Prelude.{
  is_some, ℕ, zero, suc, Bool, true, false, ◌&&◌, ◌||◌, not, String, Option, none, some, List, [],
  ◌∷◌, ◌++◌, keep, map, if◌then◌else◌,
}
use konsul.Prelude.Text.{◌<>◌, nonempty, trim, includes, starts_with}
use konsul.Value.{Value, Result, ok, err}
use konsul.Http.{Backend, Browser}
use konsul.Endpoints.{set_kv, delete_kv}

-- `KVPair`, where it is used as its type says.
pub record KvPair : Type 0 where
  pub key : String
  pub value : String

pub data EditorMode : Type 0 where
  create edit : EditorMode

-- The three `useState` cells of the editor.
pub record Editor : Type 0 where
  pub key : String
  pub value : String
  pub error : String

pub data Mutation : Type 0 where
  set delete : Mutation

-- The page's cells, and the editor's while it is shown; `invalidations` counts the calls of
-- `invalidateQueries`.
pub record KvPage : Type 0 where
  pub search_term : String
  pub mode : EditorMode
  pub selected : Option KvPair
  pub editor : Option Editor
  pub running : List (Mutation × Result Value)
  pub invalidations : ℕ

abbrev pub opened : KvPage
opened = record {
  search_term = "";
  mode = create;
  selected = none;
  editor = none;
  running = [];
  invalidations = zero;
}

-- What `handleSave` of the editor decides.
pub data Verdict : Type 0 where
  key_missing invalid_json save : Verdict

unfoldable pub looks_like_json : String → Bool
looks_like_json value = starts_with (trim value) "{" || starts_with (trim value) "["

module _ (parse : String → Option Value) (pretty : Value → String)
    (atob : String → Option String) where
  abbrev or_original : String → Option String → String
  or_original value none = value
  or_original value (some decoded) = decoded

  unfoldable pub decode_value : String → String
  decode_value value = or_original value (atob value)

  abbrev or_decoded : String → Option Value → String
  or_decoded decoded none = decoded
  or_decoded decoded (some parsed) = pretty parsed

  unfoldable pub format_value : String → String
  unfolding decode_value
  format_value value = or_decoded (decode_value value) (parse (decode_value value))

  -- `selectedKV?.key || ''`, and the value as the list shows it.
  pub editor_of : Option KvPair → Editor
  unfolding format_value
  editor_of none = record { key = ""; value = ""; error = "" }
  editor_of (some kv) = record { key = kv.key; value = format_value kv.value; error = "" }

module _ (parse : String → Option Value) where
  unfoldable pub verdict : Editor → Verdict
  unfolding looks_like_json trim
  verdict e =
      if not (nonempty (trim e.key))
      then key_missing
      else if looks_like_json e.value && not (is_some (parse e.value))
      then invalid_json
      else save

abbrev pub set_error : Editor → String → KvPage → KvPage
set_error e message p = record p { editor = some (record e { error = message }) }

-- `onClose` of the page.
abbrev pub close_editor : KvPage → KvPage
close_editor p = record p { editor = none; selected = none }

-- `onSuccess` of the two mutations: storing closes the editor that is shown by then.
unfoldable pub on_settled : Mutation × Result Value → KvPage → KvPage
on_settled (set, ok v) p = close_editor (record p { invalidations = suc p.invalidations })
on_settled (delete, ok v) p = record p { invalidations = suc p.invalidations }
on_settled (m, err e) p = p

-- The mutation of a position settles.
settle_nth : ℕ → List (Mutation × Result Value) → List (Mutation × Result Value) → KvPage → KvPage
unfolding on_settled
settle_nth n before [] p = p
settle_nth zero before (r ∷ rs) p = on_settled r (record p { running = before ++ rs })
settle_nth (suc n) before (r ∷ rs) p = settle_nth n (before ++ r ∷ []) rs p

-- The Boolean is how the user answers `confirm`.
pub data Event : Type 0 where
  handle_create press_save press_close : Event
  handle_edit : KvPair → Event
  search type_key type_value : String → Event
  handle_delete : String → Bool → Event
  settled : ℕ → Event

module _ (backend : Backend) (parse : String → Option Value) (pretty : Value → String)
    (atob : String → Option String) where
  abbrev running_with : Mutation → Result Value × Browser → KvPage → KvPage × Browser
  running_with m (r, b) p = (record p { running = p.running ++ (m, r) ∷ [] }, b)

  -- `onSave(key, value); onClose();`: the editor closes before the answer is there.
  unfoldable pub save_and_close : Editor → KvPage × Browser → KvPage × Browser
  save_and_close e (p, b) = running_with set (set_kv backend parse e.key e.value b) (close_editor p)

  on_verdict : Verdict → Editor → KvPage × Browser → KvPage × Browser
  unfolding save_and_close
  on_verdict key_missing e (p, b) = (set_error e "Key is required" p, b)
  on_verdict invalid_json e (p, b) = (set_error e "Invalid JSON format" p, b)
  on_verdict save e s = save_and_close e s

  unfoldable pub handle_save : Editor → KvPage × Browser → KvPage × Browser
  unfolding verdict on_verdict
  handle_save e s = on_verdict (verdict parse e) e s

  unfoldable pub delete_key : String → KvPage × Browser → KvPage × Browser
  delete_key key (p, b) = running_with delete (delete_kv backend parse key b) p

  abbrev pub shown_editor : EditorMode → Option KvPair → KvPage → KvPage
  shown_editor mode selected p = record p {
    mode = mode;
    selected = selected;
    editor = some (editor_of parse pretty atob selected);
  }

  -- The page's own controls.
  on_page : Event → KvPage × Browser → KvPage × Browser
  unfolding delete_key
  on_page handle_create (p, b) = (shown_editor create none p, b)
  on_page (handle_edit kv) (p, b) = (shown_editor edit (some kv) p, b)
  on_page (search s) (p, b) = (record p { search_term = s }, b)
  on_page (handle_delete key is_confirmed) (p, b) =
      let deleted = delete_key key (p, b) in if is_confirmed then deleted else (p, b)
  on_page _ (p, b) = (p, b)

  abbrev pub with_key : EditorMode → String → Editor → Editor
  with_key create s e = record e { key = s }
  with_key edit s e = e

  -- The editor's inputs and buttons; the key's input is disabled while a pair is edited.
  in_editor : Event → Editor → KvPage × Browser → KvPage × Browser
  unfolding handle_save
  in_editor press_save e (p, b) = handle_save e (p, b)
  in_editor press_close e (p, b) = (close_editor p, b)
  in_editor (type_value s) e (p, b) = (record p { editor = some (record e { value = s }) }, b)
  in_editor (type_key s) e (p, b) = (record p { editor = some (with_key p.mode s e) }, b)
  in_editor _ e (p, b) = (p, b)

  control : Event → Option Editor → KvPage × Browser → KvPage × Browser
  unfolding on_page in_editor
  control event none s = on_page event s
  control event (some e) s = in_editor event e s

  unfoldable pub step : Event → KvPage × Browser → KvPage × Browser
  unfolding control settle_nth
  step (settled n) (p, b) = (settle_nth n [] p.running p, b)
  step event (p, b) = control event p.editor (p, b)

  unfoldable pub run : List Event → KvPage × Browser → KvPage × Browser
  unfolding step
  run [] s = s
  run (e ∷ es) s = run es (step e s)

-- `filteredKVPairs`.
unfoldable pub filtered : (String → String) → String → List KvPair → List KvPair
unfolding includes
filtered lower term pairs = keep (λ kv. includes (lower kv.key) (lower term)) pairs

-- Below the search bar: placeholders, each key with its formatted value, or the text for an empty
-- list.
pub data Content : Type 0 where
  placeholders : Content
  entries : List (String × String) → Content
  nothing : String → Content

module _ (parse : String → Option Value) (pretty : Value → String) (atob : String → Option String)
    (lower : String → String) where
  found : String → List KvPair → Content
  unfolding format_value
  found term [] =
      nothing (if nonempty term then "No keys match your search" else "No keys stored yet")
  found term (kv ∷ kvs) =
      entries (map (λ (x : KvPair). (x.key, format_value parse pretty atob x.value)) (kv ∷ kvs))

  -- `kvPairs` is what the query has: nothing yet, or a list.
  unfoldable pub content : Bool → String → Option (List KvPair) → Content
  unfolding found filtered
  content true term pairs = placeholders
  content false term none = found term []
  content false term (some pairs) = found term (filtered lower term pairs)
