-- ===== src/Tests/Endpoints.antt =====
-- Calls of the client's functions.
use konsul.Prelude.{ℕ, ◌<◌, ◌≤◌, List, [], ◌∷◌, ◌≡◌, refl, some, str_eq, arith, if◌then◌else◌}
use konsul.Value.{undefined, str, arr, Items, nil, cons}
use konsul.Http.{get, Backend, answer, send, settle}
use konsul.Api.{api, rounds, call}
use konsul.Api.Flight.Ends.{count}
use konsul.Endpoints.{fetch, pair_calls, list_kv_with_values}
use konsul.Endpoints.Pairs.{HoldsAnswers, value_calls, list_kv_with_values-HoldsAnswers}
use konsul.Http.Storage
use konsul.Api.Bounds.{IsWhole}
use konsul.Endpoints.Calls.{Call, keys, write_key, perform_all, perform_all-IsWhole}
use konsul.Tests.{server, parse, old_session}

abbrev some_calls : List Call
some_calls = keys ∷ write_key "a" "b" ∷ []

perform_all-IsWhole_example : IsWhole (perform_all server parse some_calls old_session).storage
unfolding Storage.get_item
perform_all-IsWhole_example = perform_all-IsWhole server parse some_calls old_session (refl, refl)

abbrev one_key : Items
one_key = cons (str "k") nil

abbrev two_keys : Items
two_keys = cons (str "a") (cons (str "b") nil)

-- Knows two keys.
abbrev two_keys_server : Backend
two_keys_server sent q =
    if str_eq q.url "/kv/" then answer 200 (arr two_keys) else answer 200 (str "v")

abbrev in_turn : List ℕ
in_turn = 0 ∷ 1 ∷ 0 ∷ 1 ∷ 0 ∷ 1 ∷ 0 ∷ 1 ∷ 0 ∷ 1 ∷ []

in_turn-fair : (i : ℕ) → i < 2 → 5 ≤ count i in_turn
in_turn-fair i h = ground (arith, h)

list_kv_with_values-HoldsAnswers_example :
    (ps : Items) × ((list_kv_with_values two_keys_server parse in_turn old_session).0
      ≡ some (arr ps))
    × HoldsAnswers two_keys
        (value_calls two_keys_server parse in_turn two_keys
          (fetch two_keys_server parse get "/kv/" undefined old_session).1)
        ps
unfolding fetch api rounds call send settle Storage.get_item pair_calls
list_kv_with_values-HoldsAnswers_example =
    list_kv_with_values-HoldsAnswers two_keys_server parse two_keys old_session refl in_turn
      in_turn-fair
