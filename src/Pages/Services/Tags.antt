-- ===== src/Pages/Services/Tags.antt =====
-- The tags that the form of web/admin/src/pages/Services.tsx collects.
use konsul.Prelude.{
  Bool, true, false, not, String, Option, none, some, List, [], ◌∷◌, ◌++◌, ◌≡◌, str_eq, keep, any,
  All, All-append, All-keep, arith, if_rule,
}
use konsul.Prelude.Text.{nonempty, trim}
use konsul.Prelude.Text.Laws.{trim_idem}
use konsul.Value.{Value, Result, ok, err}
use konsul.Http.{Backend, Browser}
use konsul.Pages.Services.{
  ServicesPage, Mutation, register, deregister, heartbeat, Event, open_modal, close_modal, add_tag,
  submit, type_name, type_id, type_address, type_port, type_tag, remove_tag, press_heartbeat,
  press_remove, settled, handle_add_tag, handle_remove_tag, on_success, on_settled, reset_form,
  handle_submit, step, run, opened, settle_found, nth_running,
}

abbrev Distinct : List String → Type 0
Distinct [] = Unit
Distinct (t ∷ ts) = All (λ u. str_eq t u ≡ false) ts × Distinct ts

abbrev IsTag : String → Type 0
IsTag t = (nonempty t ≡ true) × (trim t ≡ t)

-- No tag is empty, has white space at its ends, or stands twice.
abbrev pub IsTagList : List String → Type 0
IsTagList ts = All IsTag ts × Distinct ts

Distinct-append :
    (ts : List String) (u : String)
    → Distinct ts
    → any (λ t. str_eq t u) ts ≡ false
    → Distinct (ts ++ u ∷ [])
Distinct-append [] u d h = (tt, tt)
Distinct-append (t ∷ ts) u d h = (
  All-append (λ v. str_eq t v ≡ false) ts (u ∷ []) d.0 (ground arith, tt),
  Distinct-append ts u d.1 (ground arith),
)

Distinct-keep : (p : String → Bool) (ts : List String) → Distinct ts → Distinct (keep p ts)
Distinct-keep p [] d = tt
Distinct-keep p (t ∷ ts) d =
    if_rule Distinct (p t) (t ∷ keep p ts) (keep p ts)
      (λ _. (All-keep (λ u. str_eq t u ≡ false) p ts d.0, Distinct-keep p ts d.1))
      (λ _. Distinct-keep p ts d.1)

abbrev pub HasTags : ServicesPage → Type 0
HasTags p = IsTagList p.form.tags

handle_add_tag-HasTags : (p : ServicesPage) → HasTags p → HasTags (handle_add_tag p)
unfolding handle_add_tag
handle_add_tag-HasTags p h =
    if_rule HasTags _ _ p
      (λ e. (
        All-append IsTag p.form.tags (trim p.tag_input ∷ []) h.0
            ((ground arith, trim_idem p.tag_input), tt),
        Distinct-append p.form.tags (trim p.tag_input) h.1 (ground arith),
      ))
      (λ _. h)

handle_remove_tag-HasTags :
    (t : String) (p : ServicesPage) → HasTags p → HasTags (handle_remove_tag t p)
unfolding handle_remove_tag
handle_remove_tag-HasTags t p h = (
  All-keep IsTag (λ u. not (str_eq u t)) p.form.tags h.0,
  Distinct-keep (λ u. not (str_eq u t)) p.form.tags h.1,
)

on_settled-HasTags :
    (r : Mutation × Result Value) (p : ServicesPage) → HasTags p → HasTags (on_settled r p)
unfolding on_settled on_success reset_form
on_settled-HasTags (register, ok v) p h = (tt, tt)
on_settled-HasTags (deregister, ok v) p h = h
on_settled-HasTags (heartbeat, ok v) p h = h
on_settled-HasTags (m, err e) p h = h

found-HasTags :
    (r : Option (Mutation × Result Value)) (p : ServicesPage)
    → HasTags p
    → HasTags (settle_found r p)
unfolding settle_found
found-HasTags none p h = h
found-HasTags (some r) p h = on_settled-HasTags r p h

module _ (backend : Backend) (parse : String → Option Value) (parse_int : String → Value) where
  step-HasTags :
      (e : Event) (p : ServicesPage) (b : Browser)
      → HasTags p
      → HasTags (step backend parse parse_int e (p, b)).0
  unfolding step handle_submit
  step-HasTags open_modal p b h = h
  step-HasTags close_modal p b h = h
  step-HasTags add_tag p b h = handle_add_tag-HasTags p h
  step-HasTags submit p b h = h
  step-HasTags (type_name s) p b h = h
  step-HasTags (type_id s) p b h = h
  step-HasTags (type_address s) p b h = h
  step-HasTags (type_port s) p b h = h
  step-HasTags (type_tag s) p b h = h
  step-HasTags (remove_tag t) p b h = handle_remove_tag-HasTags t p h
  step-HasTags (press_heartbeat v) p b h = h
  step-HasTags (press_remove v) p b h = h
  step-HasTags (settled n) p b h = found-HasTags (nth_running n p.running) _ h

  run-HasTags :
      (es : List Event) (p : ServicesPage) (b : Browser)
      → HasTags p
      → HasTags (run backend parse parse_int es (p, b)).0
  unfolding run
  run-HasTags [] p b h = h
  run-HasTags (e ∷ es) p b h = run-HasTags es _ _ (step-HasTags e p b h)

  -- Whatever is typed and pressed on the page, and in whatever order its requests settle, the tags
  -- that the form would register are non-empty, without white space at their ends, and no two of
  -- them are the same.
  pub run-IsTagList :
      (es : List Event) (b : Browser)
      → IsTagList (run backend parse parse_int es (opened, b)).0.form.tags
  run-IsTagList es b = run-HasTags es opened b (tt, tt)
