-- ===== src/Tests/Api.antt =====
-- Calls of `api`.
use konsul.Prelude.{◌≡◌, refl, none, String, List, [], ◌∷◌}
use konsul.Value.{null, response, err, ok, arr, str, cons, nil}
use konsul.Http.Storage
use konsul.Http.{Request, Browser, send, settle}
use konsul.Api.{api, call, refresh, bearer, sign_out, login_page, token_key, refresh_key, user_key}
use konsul.Api.Rounds.{api-eq-call}
use konsul.Api.Session.{first, api_renewed, api_expired}
use konsul.Api.Bounds.{Sends, api-Sends}
use konsul.Tests.{server, closed_server, parse, old_session, listing}

abbrev renewed_browser : Browser
renewed_browser = (refresh server parse (first server parse listing old_session).1).1

api_renewed_example :
    api server parse listing old_session
    ≡ send server (bearer "new" listing).request renewed_browser
unfolding refresh send settle Storage.get_item
api_renewed_example = api_renewed server parse listing old_session "new" renewed_browser refl refl

abbrev refused_browser : Browser
refused_browser = (refresh closed_server parse (first closed_server parse listing old_session).1).1

api_expired_example :
    (api closed_server parse listing old_session
      ≡ (err (response 401 null), sign_out refused_browser))
    × (Storage.get_item token_key (sign_out refused_browser).storage ≡ none)
    × (Storage.get_item refresh_key (sign_out refused_browser).storage ≡ none)
    × (Storage.get_item user_key (sign_out refused_browser).storage ≡ none)
    × ((sign_out refused_browser).href ≡ login_page)
unfolding refresh send settle Storage.get_item
api_expired_example =
    api_expired closed_server parse listing old_session (response 401 null) refused_browser refl
      refl

api-eq-call_example :
    api server parse listing old_session ≡ call server parse (api server parse) listing old_session
api-eq-call_example = api-eq-call server parse listing old_session

api-Sends_example : Sends 3 old_session (api server parse listing old_session).1
api-Sends_example = api-Sends server parse listing old_session

abbrev urls : List Request → List String
urls [] = []
urls (q ∷ qs) = q.url ∷ urls qs

-- The newest request first.
renewed_trace :
    urls (api server parse listing old_session).1.sent ≡ "/kv/" ∷ "/auth/refresh" ∷ "/kv/" ∷ []
unfolding api call send settle Storage.get_item Storage.set_item refresh
renewed_trace = refl

renewed_value : (api server parse listing old_session).0 ≡ ok (arr (cons (str "k") nil))
unfolding api call send settle Storage.get_item Storage.set_item refresh
renewed_value = refl
