-- ===== src/Endpoints/Pairs.antt =====
-- `listKV` and `listKVWithValues` of web/admin/src/lib/api.ts.
use mathlib.Core.Option
use konsul.Prelude.{
  ℕ, zero, suc, ◌<◌, ◌≤◌, String, Option, some, List, [], ◌∷◌, length, All, ◌≡◌, refl, ap, ◌∙◌,
  arith,
}
use konsul.Value.{Value, str, undefined, Result, ok, err, Items, nil, cons, arr}
use konsul.Http.Rules.{ok_rule}
use konsul.Http.{Config, Backend, Browser, Action, get, ◌>>=◌, pure}
use konsul.Api.Flight.{Flight, queued, waiting, refreshing, done, turn, turns, begun}
use konsul.Api.Flight.Ends.{IsDone, count, turns-IsDone}
use konsul.Endpoints.{
  rescue, kv_pair, fetch, pair_keys, list_pairs, list_kv, pair_calls, settled_pairs, pairs_of,
  list_kv_with_values,
}

-- Each pair has the key that stands at its place.
abbrev pub HasKeys : Items → Items → Type 0
HasKeys nil nil = Unit
HasKeys nil (cons p ps) = ⊥
HasKeys (cons k ks) nil = ⊥
HasKeys (cons k ks) (cons p ps) = ((v : Value) × (p ≡ kv_pair k v)) × HasKeys ks ps

-- The result is a list of pairs for these keys.
abbrev pub ListsKeys : Items → Result Value × Browser → Type 0
ListsKeys ks r = (ps : Items) × (r.0 ≡ ok (arr ps)) × HasKeys ks ps

pair_keys-HasKeys : (ks : Items) → HasKeys ks (pair_keys ks)
unfolding pair_keys
pair_keys-HasKeys nil = tt
pair_keys-HasKeys (cons k ks) = ((str "", refl), pair_keys-HasKeys ks)

rescued_ok :
    (v w : Value) (r : Result Value × Browser) → r.0 ≡ ok w → (rescue (λ _. r) v r.1).0 ≡ ok w
rescued_ok v w (ok x, b) e = e
rescued_ok v w (err x, b) e = cc

rescue_ok :
    (m : Action Value) (v w : Value) (b : Browser) → (m b).0 ≡ ok w → (rescue m v b).0 ≡ ok w
rescue_ok m v w b e = rescued_ok v w (m b) e

list_pairs_arr : (ks : Items) → ok (list_pairs (arr ks)) ≡ ok (arr (pair_keys ks))
unfolding list_pairs
list_pairs_arr ks = refl

-- Every call has settled, and each pair has the key and the answer of the call at its place, or the
-- empty text where the call failed.
abbrev pub HoldsAnswers : Items → List Flight → Items → Type 0
HoldsAnswers nil [] nil = Unit
HoldsAnswers (cons k ks) (done (ok v) ∷ fs) (cons p ps) = (p ≡ kv_pair k v) × HoldsAnswers ks fs ps
HoldsAnswers (cons k ks) (done (err e) ∷ fs) (cons p ps) =
    (p ≡ kv_pair k (str "")) × HoldsAnswers ks fs ps
HoldsAnswers _ _ _ = ⊥

settled_pairs-HoldsAnswers :
    (ks : Items) (fs : List Flight)
    → length fs ≡ length (pair_calls ks)
    → All IsDone fs
    → (ps : Items) × (settled_pairs ks fs ≡ some ps) × HoldsAnswers ks fs ps
unfolding settled_pairs pair_calls
settled_pairs-HoldsAnswers nil [] n d = (nil, refl, tt)
settled_pairs-HoldsAnswers nil (f ∷ fs) n d = absurd (omega (arith, n))
settled_pairs-HoldsAnswers (cons k ks) [] n d = absurd (omega (arith, n))
settled_pairs-HoldsAnswers (cons k ks) (done (ok v) ∷ fs) n (d, ds) =
    let (ps, e, all) = settled_pairs-HoldsAnswers ks fs (omega (arith, n)) ds in
    (cons (kv_pair k v) ps, ap (Option.map (cons (kv_pair k v))) e, (refl, all))
settled_pairs-HoldsAnswers (cons k ks) (done (err x) ∷ fs) n (d, ds) =
    let (ps, e, all) = settled_pairs-HoldsAnswers ks fs (omega (arith, n)) ds in
    (cons (kv_pair k (str "")) ps, ap (Option.map (cons (kv_pair k (str "")))) e, (refl, all))
settled_pairs-HoldsAnswers (cons k ks) (queued c ∷ fs) n (d, ds) = absurd d
settled_pairs-HoldsAnswers (cons k ks) (waiting c r ∷ fs) n (d, ds) = absurd d
settled_pairs-HoldsAnswers (cons k ks) (refreshing c r ∷ fs) n (d, ds) = absurd d

length-begun : (cs : List Config) → length (begun cs) ≡ length cs
length-begun [] = refl
length-begun (c ∷ cs) = ap suc (length-begun cs)

module _ (backend : Backend) (parse : String → Option Value) where
  length-turn :
      (n : ℕ) (fs : List Flight) (b : Browser) → length (turn backend parse n (fs, b)).0 ≡ length fs
  unfolding turn
  length-turn n [] b = refl
  length-turn zero (f ∷ fs) b = refl
  length-turn (suc n) (f ∷ fs) b = ap suc (length-turn n fs b)

  length-turns :
      (ns : List ℕ) (fs : List Flight) (b : Browser)
      → length (turns backend parse ns (fs, b)).0 ≡ length fs
  unfolding turns
  length-turns [] fs b = refl
  length-turns (n ∷ ns) fs b =
      let s = turn backend parse n (fs, b) in length-turns ns s.0 s.1 ∙ length-turn n fs b

  -- The calls for the values, after their turns.
  abbrev pub value_calls : List ℕ → Items → Browser → List Flight
  value_calls order ks b = (turns backend parse order (begun (pair_calls ks), b)).0

  pairs_of-HoldsAnswers :
      (order : List ℕ) (ks : Items) (b : Browser)
      → ((i : ℕ) → i < length (pair_calls ks) → 5 ≤ count i order)
      → (ps : Items) × ((pairs_of backend parse order (arr ks) b).0 ≡ some (arr ps))
        × HoldsAnswers ks (value_calls order ks b) ps
  unfolding pairs_of
  pairs_of-HoldsAnswers order ks b fair =
      let calls = pair_calls ks in
      let (ps, e, all) =
        settled_pairs-HoldsAnswers ks (value_calls order ks b)
          (length-turns order (begun calls) b ∙ length-begun calls)
          (turns-IsDone backend parse calls order b fair) in
      (ps, ap (Option.map arr) e, all)

  module _ (ks : Items) (b : Browser)
      (listed : (fetch backend parse get "/kv/" undefined b).0 ≡ ok (arr ks)) where
    -- When the server lists the keys, `listKV` gives one pair for each of them, in their order.
    pub list_kv-ListsKeys : ListsKeys ks (list_kv backend parse b)
    unfolding list_kv
    list_kv-ListsKeys =
        let listing = fetch backend parse get "/kv/" undefined in
        let next = ok_rule listing (λ v. pure (list_pairs v)) (arr ks) b listed in
        (
          pair_keys ks,
          rescue_ok (listing >>= λ v. pure (list_pairs v)) (arr nil) _ b
              (ap (λ (r : Result Value × Browser). r.0) next ∙ list_pairs_arr ks),
          pair_keys-HasKeys ks,
        )

    -- When the server lists the keys, and each of the calls for their values has at least five
    -- turns, in any order and mixed in any way, then all these calls settle, and
    -- `listKVWithValues` gives one pair for each key, in their order, with the answer of its call,
    -- or the empty text where that failed.
    pub list_kv_with_values-HoldsAnswers :
        (order : List ℕ)
        → ((i : ℕ) → i < length (pair_calls ks) → 5 ≤ count i order)
        → (ps : Items) × ((list_kv_with_values backend parse order b).0 ≡ some (arr ps))
          × HoldsAnswers ks (value_calls order ks (fetch backend parse get "/kv/" undefined b).1) ps
    unfolding list_kv_with_values
    list_kv_with_values-HoldsAnswers order fair =
        let next = (fetch backend parse get "/kv/" undefined b).1 in
        let (ps, e, all) = pairs_of-HoldsAnswers order ks next fair in
        (ps, rw (list_kv_with_values, listed) e, all)
