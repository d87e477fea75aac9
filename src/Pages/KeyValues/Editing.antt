-- ===== src/Pages/KeyValues/Editing.antt =====
-- What the editor of web/admin/src/components/KVEditor.tsx sends and shows.
use konsul.Prelude.{
  is_some, ℕ, zero, suc, true, false, String, Option, none, some, List, [], ◌∷◌, ◌++◌, ◌≡◌, refl,
  ◌∙◌, ◌⊎◌, inl, inr, arith,
}
use konsul.Prelude.Text.{nonempty, trim}
use konsul.Value.{Value, Result, ok, err}
use konsul.Http.{Backend, Browser}
use konsul.Endpoints.{set_kv}
use konsul.Pages.KeyValues.{
  KvPair, EditorMode, create, edit, Editor, Verdict, key_missing, invalid_json, save, KvPage,
  opened, Mutation, set, delete, Event, handle_create, press_save, press_close, handle_edit, search,
  type_key, type_value, handle_delete, settled, looks_like_json, verdict, on_settled, settle_nth,
  save_and_close, handle_save, delete_key, on_verdict, with_key, editor_of, on_page, in_editor,
  control, step, run,
}

-- The key is not blank, and a value that looks like JSON is JSON.
abbrev pub IsSavable : (String → Option Value) → Editor → Type 0
IsSavable parse e =
    (nonempty (trim e.key) ≡ true)
    × (looks_like_json e.value ≡ true → is_some (parse e.value) ≡ true)

verdict_save :
    (parse : String → Option Value) (e : Editor) → verdict parse e ≡ save → IsSavable parse e
unfolding verdict
verdict_save parse e h = (ground arith, λ j. ground arith)

save_verdict :
    (parse : String → Option Value) (e : Editor) → IsSavable parse e → verdict parse e ≡ save
unfolding verdict
save_verdict parse e h = ground (arith, h.0, h.1)

-- While a pair is edited, the editor has its key.
abbrev pub EditsSelected : EditorMode → Option KvPair → Option Editor → Type 0
EditsSelected edit (some kv) (some e) = e.key ≡ kv.key
EditsSelected edit none (some e) = ⊥
EditsSelected edit selected none = Unit
EditsSelected create selected editor = Unit

abbrev IsSelected : KvPage → Type 0
IsSelected p = EditsSelected p.mode p.selected p.editor

no_editor : (mode : EditorMode) (selected : Option KvPair) → EditsSelected mode selected none
no_editor create selected = tt
no_editor edit none = tt
no_editor edit (some kv) = tt

-- Only the key of the editor counts.
same_key :
    (mode : EditorMode) (selected : Option KvPair) (e f : Editor)
    → f.key ≡ e.key
    → EditsSelected mode selected (some e)
    → EditsSelected mode selected (some f)
same_key create selected e f h s = tt
same_key edit none e f h s = s
same_key edit (some kv) e f h s = h ∙ s

on_settled-IsSelected :
    (r : Mutation × Result Value) (p : KvPage) → IsSelected p → IsSelected (on_settled r p)
unfolding on_settled
on_settled-IsSelected (set, ok v) p h = no_editor p.mode none
on_settled-IsSelected (delete, ok v) p h = h
on_settled-IsSelected (m, err e) p h = h

settle_nth-IsSelected :
    (n : ℕ) (before rs : List (Mutation × Result Value)) (p : KvPage)
    → IsSelected p
    → IsSelected (settle_nth n before rs p)
unfolding settle_nth
settle_nth-IsSelected n before [] p h = h
settle_nth-IsSelected zero before (r ∷ rs) p h = on_settled-IsSelected r _ h
settle_nth-IsSelected (suc n) before (r ∷ rs) p h =
    settle_nth-IsSelected n (before ++ r ∷ []) rs p h

module _ (backend : Backend) (parse : String → Option Value) (pretty : Value → String)
    (atob : String → Option String) where
  -- What a press of the save button may lead to.
  abbrev pub SaveOutcome : Editor → Browser → KvPage × Browser → Type 0
  SaveOutcome e b s =
      (IsSavable parse e × (s.0.editor ≡ none) × (s.1 ≡ (set_kv backend parse e.key e.value b).1))
      ⊎ ((¬ IsSavable parse e)
          × ((message : String) × (nonempty message ≡ true)
              × (s.0.editor ≡ some (record e { error = message })))
          × (s.1 ≡ b))

  on_verdict_lem :
      (v : Verdict) (e : Editor) (p : KvPage) (b : Browser)
      → (v ≡ save → IsSavable parse e)
      → (IsSavable parse e → v ≡ save)
      → SaveOutcome e b (on_verdict backend parse pretty atob v e (p, b))
  unfolding on_verdict save_and_close
  on_verdict_lem key_missing e p b to from =
      inr (λ h. cc (from h), ("Key is required", refl, refl), refl)
  on_verdict_lem invalid_json e p b to from =
      inr (λ h. cc (from h), ("Invalid JSON format", refl, refl), refl)
  on_verdict_lem save e p b to from = inl (to refl, refl, refl)

  -- A press of the editor's save button with a savable content sends the content's key and value
  -- and closes the editor. With any other content it sends nothing, and the editor stays with what
  -- was typed and an error.
  pub handle_save-SaveOutcome :
      (e : Editor) (p : KvPage) (b : Browser)
      → SaveOutcome e b (handle_save backend parse pretty atob e (p, b))
  unfolding handle_save
  handle_save-SaveOutcome e p b =
      on_verdict_lem (verdict parse e) e p b (verdict_save parse e) (save_verdict parse e)

  on_verdict-IsSelected :
      (v : Verdict) (e : Editor) (p : KvPage) (b : Browser)
      → EditsSelected p.mode p.selected (some e)
      → IsSelected (on_verdict backend parse pretty atob v e (p, b)).0
  unfolding on_verdict save_and_close
  on_verdict-IsSelected key_missing e p b s = same_key p.mode p.selected e _ refl s
  on_verdict-IsSelected invalid_json e p b s = same_key p.mode p.selected e _ refl s
  on_verdict-IsSelected save e p b s = no_editor p.mode none

  typed_key :
      (mode : EditorMode) (selected : Option KvPair) (t : String) (e : Editor)
      → EditsSelected mode selected (some e)
      → EditsSelected mode selected (some (with_key backend parse pretty atob mode t e))
  typed_key create selected t e s = tt
  typed_key edit none t e s = s
  typed_key edit (some kv) t e s = s

  in_editor-IsSelected :
      (event : Event) (e : Editor) (p : KvPage) (b : Browser)
      → IsSelected p
      → EditsSelected p.mode p.selected (some e)
      → IsSelected (in_editor backend parse pretty atob event e (p, b)).0
  unfolding in_editor handle_save
  in_editor-IsSelected press_save e p b h s = on_verdict-IsSelected (verdict parse e) e p b s
  in_editor-IsSelected press_close e p b h s = no_editor p.mode none
  in_editor-IsSelected (type_value t) e p b h s = same_key p.mode p.selected e _ refl s
  in_editor-IsSelected (type_key t) e p b h s = typed_key p.mode p.selected t e s
  in_editor-IsSelected _ e p b h s = h

  on_page-IsSelected :
      (event : Event) (p : KvPage) (b : Browser)
      → IsSelected p
      → IsSelected (on_page backend parse pretty atob event (p, b)).0
  unfolding on_page delete_key editor_of
  on_page-IsSelected handle_create p b h = tt
  on_page-IsSelected (handle_edit kv) p b h = refl
  on_page-IsSelected (search t) p b h = h
  on_page-IsSelected (handle_delete k true) p b h = h
  on_page-IsSelected (handle_delete k false) p b h = h
  on_page-IsSelected _ p b h = h

  control-IsSelected :
      (event : Event) (o : Option Editor) (p : KvPage) (b : Browser)
      → IsSelected p
      → EditsSelected p.mode p.selected o
      → IsSelected (control backend parse pretty atob event o (p, b)).0
  unfolding control
  control-IsSelected event none p b h s = on_page-IsSelected event p b h
  control-IsSelected event (some e) p b h s = in_editor-IsSelected event e p b h s

  step-IsSelected :
      (event : Event) (p : KvPage) (b : Browser)
      → IsSelected p
      → IsSelected (step backend parse pretty atob event (p, b)).0
  unfolding step
  step-IsSelected (settled n) p b h = settle_nth-IsSelected n [] p.running p h
  step-IsSelected event p b h = control-IsSelected event p.editor p b h h

  run-IsSelected :
      (es : List Event) (p : KvPage) (b : Browser)
      → IsSelected p
      → IsSelected (run backend parse pretty atob es (p, b)).0
  unfolding run
  run-IsSelected [] p b h = h
  run-IsSelected (e ∷ es) p b h = run-IsSelected es _ _ (step-IsSelected e p b h)

  -- Whatever is typed and pressed on the page, and in whatever order its requests settle, an
  -- editor that was opened to edit a pair holds the key of this pair.
  pub run-EditsSelected :
      (es : List Event) (b : Browser)
      → (let p = (run backend parse pretty atob es (opened, b)).0 in
          EditsSelected p.mode p.selected p.editor)
  run-EditsSelected es b = run-IsSelected es opened b tt
