-- ===== src/Endpoints.antt =====
-- web/admin/src/lib/api.ts, the calls that the pages make. The requests for the
-- values of all keys are started together, and their calls take turns in any order.
pub mod Calls
pub mod Pairs
use konsul.Prelude.{
  Bool, true, false, ◌&&◌, not, ℕ, String, Option, none, some, List, [], ◌∷◌, if◌then◌else◌,
}
use konsul.Prelude.Text.{◌<>◌}
use konsul.Value.{
  Value, undefined, null, str, arr, obj, Items, nil, cons, end, field, truthy, or_else, to_text,
  Result, ok, err, Error,
}
use konsul.Http.{
  Method, get, post, put, delete, Request, Config, Backend, Browser, Action, ◌>>=◌, ◌>>◌, pure,
}
use konsul.Api.{api}
use konsul.Api.Flight.{Flight, queued, waiting, refreshing, done, turns, begun}
use mathlib.Core.Option

-- `api.get(url)` and its like: a fresh configuration.
abbrev pub config : Method → String → Value → Config
config method url body = record {
  request = record { method = method; url = url; body = body; authorization = none };
  retry = false;
}

-- `try { … } catch { … }`: the handler sees no error here, and gives a value.
abbrev pub rescue : Action Value → Value → Action Value
rescue m v b = let (r, b') = m b in elim r [ ok w ↦ (ok w, b') | err e ↦ (ok v, b') ]

abbrev pub kv_pair : Value → Value → Value
kv_pair key value = obj (field "key" key (field "value" value end))

abbrev pub is_array : Value → Bool
is_array (arr xs) = true
is_array _ = false

-- `data.map((key) => ({ key, value: '' }))`.
unfoldable pub pair_keys : Items → Items
pair_keys nil = nil
pair_keys (cons key keys) = cons (kv_pair key (str "")) (pair_keys keys)

-- `data && Array.isArray(data) ? data.map(…) : []`.
unfoldable pub list_pairs : Value → Value
unfolding pair_keys
list_pairs (arr keys) = arr (pair_keys keys)
list_pairs _ = arr nil

-- `api.get` for the value of each key.
unfoldable pub pair_calls : Items → List Config
unfolding to_text
pair_calls nil = []
pair_calls (cons key keys) = config get ("/kv/" <> to_text key) undefined ∷ pair_calls keys

-- The value of a key; it is the empty text where the call fails.
abbrev pub value_or_empty : Result Value → Value
value_or_empty (ok data_) = data_
value_or_empty (err e) = str ""

-- The pairs, when all calls have settled.
unfoldable pub settled_pairs : Items → List Flight → Option Items
settled_pairs nil fs = some nil
settled_pairs (cons key keys) (done r ∷ fs) =
    Option.map (cons (kv_pair key (value_or_empty r))) (settled_pairs keys fs)
settled_pairs (cons key keys) (queued c ∷ fs) = none
settled_pairs (cons key keys) (waiting c r ∷ fs) = none
settled_pairs (cons key keys) (refreshing c r ∷ fs) = none
settled_pairs (cons key keys) [] = none

module _ (backend : Backend) (parse : String → Option Value) where
  unfoldable pub fetch : Method → String → Value → Action Value
  fetch method url body = api backend parse (config method url body)

  unfoldable pub get_services : Action Value
  get_services =
      rescue (fetch get "/services/" undefined >>= λ data_. pure (or_else data_ (arr nil)))
        (arr nil)

  unfoldable pub register_service : Value → Action Value
  register_service service = do fetch put "/register" service; pure undefined

  unfoldable pub deregister_service : Value → Action Value
  unfolding to_text
  deregister_service name = do
    fetch delete ("/deregister/" <> to_text name) undefined
    pure undefined

  unfoldable pub send_heartbeat : Value → Action Value
  unfolding to_text
  send_heartbeat name = do fetch put ("/heartbeat/" <> to_text name) undefined; pure undefined

  unfoldable pub get_service : String → Action Value
  get_service name = do
    data_ ← fetch get ("/services/" <> name) undefined
    pure (or_else data_ (arr nil))

  unfoldable pub get_kv : String → Action Value
  get_kv key =
      rescue (fetch get ("/kv/" <> key) undefined >>= λ data_. pure (kv_pair (str key) data_)) null

  unfoldable pub set_kv : String → String → Action Value
  set_kv key value = do
    fetch put ("/kv/" <> key) (obj (field "value" (str value) end))
    pure undefined

  unfoldable pub delete_kv : String → Action Value
  delete_kv key = do fetch delete ("/kv/" <> key) undefined; pure undefined

  unfoldable pub list_kv : Action Value
  unfolding list_pairs
  list_kv = rescue (fetch get "/kv/" undefined >>= λ data_. pure (list_pairs data_)) (arr nil)

  -- What `Promise.all` waits for: the calls are started together, and the one at each place of
  -- `order` has its turn. `none` as long as one of them has not settled.
  unfoldable pub pairs_of : List ℕ → Value → Browser → Option Value × Browser
  unfolding to_text settled_pairs pair_calls
  pairs_of order (arr keys) b =
      let (fs, b') = turns backend parse order (begun (pair_calls keys), b) in
      (Option.map arr (settled_pairs keys fs), b')
  pairs_of order _ b = (some (arr nil), b)

  unfoldable pub list_kv_with_values : List ℕ → Browser → Option Value × Browser
  unfolding pairs_of
  list_kv_with_values order b =
      let (r, b') = fetch get "/kv/" undefined b in
      elim r [ ok data_ ↦ pairs_of order data_ b' | err e ↦ (some (arr nil), b') ]

  unfoldable pub get_health : Action Value
  get_health = fetch get "/health" undefined
