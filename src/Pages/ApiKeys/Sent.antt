-- ===== src/Pages/ApiKeys/Sent.antt =====
-- What the page of web/admin/src/pages/APIKeys.tsx sends.
use mathlib.Core.List.{append_assoc}
use konsul.Prelude.{
  true, false, String, some, List, [], ◌∷◌, ◌++◌, ◌≡◌, refl, sym, ap, ◌∙◌, map, All, All-append,
  if_rule,
}
use konsul.Prelude.Text.{◌<>◌, trim, split}
use konsul.Prelude.Text.Laws.{trim_idem, Lacks, trim-Lacks, split-Lacks}
use konsul.Value.{Value, response, unreachable, thrown, undefined, truthy, to_text, Result, ok, err}
use konsul.Http.{Method, Request, Backend, Browser, send}
use konsul.Pages.ApiKeys.{
  KeysPage, Event, load, submit, press_revoke, press_delete, permission_list, key_request,
  or_failed, fetch_with_token, fetch_keys, create_key, delete_key, revoke_key, handle_submit, step,
  run,
}

abbrev pub Carries : Value → Request → Type 0
Carries token r = r.authorization ≡ some ("Bearer " <> to_text token)

-- The browser's storage and address are the same, and all requests since carry the token.
pub record Since (token : Value) (b c : Browser) : Type 0 where
  requests : List Request
  sent : c.sent ≡ requests ++ b.sent
  carried : All (Carries token) requests
  storage : c.storage ≡ b.storage
  href : c.href ≡ b.href

Since-refl : (token : Value) (b : Browser) → Since token b b
Since-refl token b = record {
  requests = [];
  sent = refl;
  carried = tt;
  storage = refl;
  href = refl;
}

Since-trans :
    {token : Value} {b c d : Browser} → Since token b c → Since token c d → Since token b d
Since-trans {token} {b} {c} {d} s t = record {
  requests = t.requests ++ s.requests;
  sent =
      t.sent ∙ ap (λ l. t.requests ++ l) s.sent ∙ sym (append_assoc t.requests s.requests b.sent);
  carried = All-append (Carries token) t.requests s.requests t.carried s.carried;
  storage = t.storage ∙ s.storage;
  href = t.href ∙ s.href;
}

or_failed_browser : (message : String) (r : Result Value × Browser) → (or_failed message r).1 ≡ r.1
or_failed_browser message (ok v, b) = refl
or_failed_browser message (err (response n v), b) = refl
or_failed_browser message (err unreachable, b) = refl
or_failed_browser message (err (thrown t), b) = refl

module _ (backend : Backend) (parse_int : String → Value) (token : Value) where
  fetch_with_token-Since :
      (method : Method) (url : String) (body : Value) (message : String) (b : Browser)
      → Since token b (fetch_with_token backend parse_int token method url body message b).1
  unfolding send fetch_with_token key_request
  fetch_with_token-Since method url body message b =
      rw (or_failed_browser message (send backend (key_request token method url body) b)) (record {
        requests = key_request token method url body ∷ [];
        sent = refl;
        carried = (refl, tt);
        storage = refl;
        href = refl;
      })

  step-Since :
      (e : Event) (p : KeysPage) (b : Browser)
      → Since token b (step backend parse_int token e (p, b)).1
  unfolding step handle_submit fetch_keys create_key delete_key revoke_key
  step-Since load p b =
      if_rule (λ (r : Result Value × Browser). Since token b r.1) (truthy token) _ (ok undefined, b)
        (λ _. fetch_with_token-Since _ _ _ _ b) (λ _. Since-refl token b)
  step-Since submit p b = fetch_with_token-Since _ _ _ _ b
  step-Since (press_revoke id) p b = fetch_with_token-Since _ _ _ _ b
  step-Since (press_delete id true) p b = fetch_with_token-Since _ _ _ _ b
  step-Since (press_delete id false) p b = Since-refl token b
  step-Since _ p b = Since-refl token b

  -- Whatever is done on the page, and whatever the server answers, each request that the page
  -- sends carries the token that the session gave it, and the storage and the address stay as
  -- they were.
  pub run-Since :
      (es : List Event) (p : KeysPage) (b : Browser)
      → Since token b (run backend parse_int token es (p, b)).1
  unfolding run
  run-Since [] p b = Since-refl token b
  run-Since (e ∷ es) p b = Since-trans (step-Since e p b) (run-Since es _ _)

-- A permission, as the server gets it.
abbrev pub IsPermission : String → Type 0
IsPermission s = (trim s ≡ s) × Lacks b',' s

trimmed-IsPermission : (ps : List String) → All (Lacks b',') ps → All IsPermission (map trim ps)
trimmed-IsPermission [] h = tt
trimmed-IsPermission (p ∷ ps) h =
    ((trim_idem p, trim-Lacks b',' p h.0), trimmed-IsPermission ps h.1)

-- Whatever is typed, the permissions that are sent have no white space at their ends and no comma.
pub permission_list-IsPermission : (s : String) → All IsPermission (permission_list s)
unfolding permission_list
permission_list-IsPermission s = trimmed-IsPermission (split b',' s) (split-Lacks b',' s)
