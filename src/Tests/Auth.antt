-- ===== src/Tests/Auth.antt =====
-- Sessions that begin, are found again, and end.
use konsul.Prelude.{◌≡◌, refl, true, false, Option, some, inr, [], ◌∷◌, List, String}
use konsul.Value.{Value, str, ok, to_text}
use konsul.Http.Storage
use konsul.Http.{Browser, send, settle}
use konsul.Api.{bearer, api, refresh}
use konsul.Api.Payload.{read_tokens}
use konsul.Api.Session.{first}
use konsul.Auth.{Auth, initial, is_authenticated, logout, mount, login, user_data}
use konsul.Auth.Laws.{login-mount}
use konsul.Auth.Carried.{Begins, login-logout-api}
use konsul.Auth.Agreement.{
  Operation, sign_in, sign_off, renew, Agrees, operate_all, operate_all-Agrees, api_renewed-Agrees,
}
use konsul.Tests.{
  alice, new_tokens, server, closed_server, parse, stringify, old_session, empty_browser, listing,
}

abbrev reader : String → Option Value
reader s = some (user_data "alice" "alice" [] [])

abbrev ready : Auth
ready = record initial { is_loading = false }

abbrev signed_in : Auth
signed_in = record { user = alice; token = str "old"; refresh_token = str "r"; is_loading = false }

login-mount_example :
    let s = login server stringify "alice" "alice" [] [] (ready, empty_browser) in
    (s.0 ≡ ok tt)
    × (is_authenticated s.1 ≡ true)
    × (mount reader s.2.storage ≡ ok (record (s.1) { is_loading = false }))
unfolding settle read_tokens
login-mount_example =
    login-mount server stringify "alice" "alice" [] [] reader ready empty_browser new_tokens "new"
      "next" refl refl refl refl refl

-- A browser after a login, and the same after a logout.
abbrev logged_in : Browser
logged_in = (login server stringify "alice" "alice" [] [] (ready, empty_browser)).2

abbrev logged_out : Browser
logged_out =
    (logout ((login server stringify "alice" "alice" [] [] (ready, empty_browser)).1, logged_in)).1

login-logout-api_example :
    Begins (bearer "new" listing).request logged_in (api server parse listing logged_in).1
    × Begins listing.request logged_out (api server parse listing logged_out).1
unfolding settle read_tokens
login-logout-api_example =
    login-logout-api server stringify parse "alice" "alice" [] [] listing ready empty_browser
      new_tokens "new" "next" refl refl refl

abbrev after_refusal : Browser
after_refusal = (login closed_server stringify "alice" "alice" [] [] (ready, empty_browser)).2

abbrev corrupt : Storage.Storage
corrupt = ("konsul_token", "old") ∷ ("konsul_user", "{") ∷ []

abbrev some_operations : List Operation
some_operations = renew ∷ sign_off ∷ sign_in "alice" "alice" [] [] ∷ []

operate_all-Agrees_example :
    Agrees stringify (operate_all server stringify some_operations (signed_in, old_session))
unfolding Storage.get_item to_text
operate_all-Agrees_example =
    operate_all-Agrees server stringify some_operations (signed_in, old_session)
      (inr (refl, refl, refl))

api_renewed-Agrees_example :
    ¬ Agrees stringify (signed_in, (api server parse listing old_session).1)
unfolding refresh send settle Storage.get_item to_text
api_renewed-Agrees_example =
    api_renewed-Agrees server parse stringify listing signed_in old_session
      (refresh server parse (first server parse listing old_session).1).1 "new" refl refl refl
