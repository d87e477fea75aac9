-- ===== src/Tests/Flight.antt =====
-- Two calls of `api` that take turns.
use konsul.Prelude.{ℕ, zero, suc, ◌≤◌, ◌<◌, ◌≡◌, refl, List, [], ◌∷◌, All, arith}
use konsul.Http.Storage
use konsul.Http.{Config}
use konsul.Api.{api}
use konsul.Api.Flight.{done, turns, begun}
use konsul.Api.Flight.Alone.{alone, turns-api}
use konsul.Api.Flight.Ends.{IsDone, count, turns-IsDone}
use konsul.Api.Flight.Stored.{IsPaired, turns-IsPaired}
use konsul.Tests.{server, parse, old_session, listing}

turns-api_example :
    turns server parse (alone 5) (begun (listing ∷ []), old_session)
    ≡ (done (api server parse listing old_session).0 ∷ [], (api server parse listing old_session).1)
turns-api_example = turns-api server parse 0 listing old_session

abbrev two_calls : List Config
two_calls = listing ∷ listing ∷ []

abbrev mixed : List ℕ
mixed = 0 ∷ 1 ∷ 0 ∷ 1 ∷ 1 ∷ 0 ∷ 0 ∷ 0 ∷ 1 ∷ 1 ∷ []

each_has_five : (i : ℕ) → i < 2 → 5 ≤ count i mixed
each_has_five zero h = omega arith
each_has_five (suc zero) h = omega arith
each_has_five (suc (suc i)) h = absurd (omega arith)

turns-IsDone_example : All IsDone (turns server parse mixed (begun two_calls, old_session)).0
turns-IsDone_example = turns-IsDone server parse two_calls mixed old_session each_has_five

turns-IsPaired_example :
    IsPaired (turns server parse mixed (begun two_calls, old_session)).1.storage
unfolding Storage.get_item
turns-IsPaired_example = turns-IsPaired server parse mixed (begun two_calls) old_session refl
