-- ===== src/Pages/Login/Laws.antt =====
-- What the form of web/admin/src/pages/Login.tsx sends and shows.
use konsul.Prelude.{
  true, false, String, List, [], ◌∷◌, map, keep, ◌≡◌, refl, ap, ◌⊎◌, All, if_rule, inl, inr,
}
use konsul.Prelude.Text.{nonempty, trim, split}
use konsul.Prelude.Text.Laws.{trim_idem, Lacks, trim-Lacks, split-Lacks}
use konsul.Value.{Value, Error, Result, ok, err}
use konsul.Http.{Backend, Browser}
use konsul.Auth.{Auth, login}
use konsul.Auth.Laws.{login_fails}
use konsul.Pages.Login.{
  Screen, text_list, id_or_name, finish, submitting, handle_submit, failed_message,
}

-- An entry of a comma-separated list, as the server gets it.
abbrev pub IsEntry : String → Type 0
IsEntry s = (nonempty s ≡ true) × (trim s ≡ s) × Lacks b',' s

kept-IsEntry : (ps : List String) → All (Lacks b',') ps → All IsEntry (keep nonempty (map trim ps))
kept-IsEntry [] h = tt
kept-IsEntry (p ∷ ps) h =
    if_rule (All IsEntry) (nonempty (trim p)) (trim p ∷ keep nonempty (map trim ps))
      (keep nonempty (map trim ps))
      (λ e. ((e, trim_idem p, trim-Lacks b',' p h.0), kept-IsEntry ps h.1))
      (λ e. kept-IsEntry ps h.1)

-- Whatever is typed, the roles and policies that are sent are non-empty, have no white space at
-- their ends and no comma.
pub text_list-IsEntry : (s : String) → All IsEntry (text_list s)
unfolding text_list
text_list-IsEntry s = kept-IsEntry (split b',' s) (split-Lacks b',' s)

-- The two ways a submit ends, over the answer of the login.
abbrev pub Ended : Screen → Result (Unit {0}) × Auth × Browser → Screen → Type 0
Ended s answer t =
    (t.form.is_loading ≡ false)
    × (((answer.0 ≡ ok tt) × (t.form.error ≡ "") × (t.path ≡ "/") × (t.session ≡ answer.1))
        ⊎ ((t.form.error ≡ failed_message)
            × (t.path ≡ s.path)
            × (t.session ≡ s.session)
            × (t.browser.storage ≡ s.browser.storage)))

finish-Ended :
    (s : Screen) (answer : Result (Unit {0}) × Auth × Browser)
    → ((e : Error) (a : Auth) (b : Browser)
        → answer ≡ (err e, a, b)
        → (a ≡ s.session) × (b.storage ≡ s.browser.storage))
    → Ended s answer (finish (submitting s.form) s.path answer)
unfolding finish
finish-Ended s (ok u, a, b) h = (refl, inl (refl, refl, refl, refl))
finish-Ended s (err e, a, b) h = (refl, inr (refl, refl, (h e a b refl).0, (h e a b refl).1))

-- A submit whose login succeeds shows no error, leads to the start page and has the new session.
-- One whose login fails shows the error, stays where it is, and leaves the session and the storage
-- alone. Neither is left loading.
pub handle_submit-Ended :
    (backend : Backend) (stringify : Value → String) (s : Screen)
    → Ended s
        (login backend stringify s.form.username
          (id_or_name s.form)
          (text_list s.form.roles)
          (text_list s.form.policies)
          (s.session, s.browser))
        (handle_submit backend stringify s)
unfolding handle_submit
handle_submit-Ended backend stringify s =
    finish-Ended s
      (login backend stringify s.form.username (id_or_name s.form) (text_list s.form.roles)
        (text_list s.form.policies) (s.session, s.browser))
      λ e a b h.
        let (same, rest) =
          login_fails backend stringify s.form.username (id_or_name s.form) (text_list s.form.roles)
            (text_list s.form.policies) s.session a s.browser b e h in
        (same, ap (λ (x : Browser). x.storage) rest)
