-- ===== src/Api/Flight/Ends.antt =====
-- Calls of `api` of web/admin/src/lib/api.ts that take turns: how far each is from its end, and how
-- many requests they send.
use konsul.Prelude.{
  ℕ, zero, suc, ◌+◌, ◌-◌, ◌*◌, ◌≤◌, ◌<◌, false, not, ◌&&◌, String, Option, List, [], ◌∷◌, length,
  All, ◌≡◌, refl, arith, ◌==◌, if◌then◌else◌, if_rule,
}
use konsul.Value.{Value, Result, ok, err, ◌>>=◌}
use konsul.Http.Storage
use konsul.Http.{Request, Config, Backend, Browser}
use konsul.Api.Payload.{read_tokens}
use konsul.Api.Rounds.{with_token-retry}
use konsul.Api.{is_unauthorized, token_key}
use konsul.Api.Flight.{
  Flight, queued, waiting, refreshing, done, prepare, launch, ask_tokens, on_answer, on_tokens,
  advance, turn, turns, begun,
}

-- The turns that a call may still take until it has settled.
abbrev pub weight : Flight → ℕ
weight (queued c) = if c.retry then 2 else 5
weight (waiting c r) = if c.retry then 1 else 4
weight (refreshing c r) = 3
weight (done r) = 0

-- The requests that it may still send.
abbrev pub budget : Flight → ℕ
budget (queued c) = if c.retry then 1 else 3
budget (waiting c r) = if c.retry then 0 else 2
budget (refreshing c r) = 1
budget (done r) = 0

abbrev pub IsDone : Flight → Type 0
IsDone (done r) = Unit
IsDone _ = ⊥

weightless : (f : Flight) → weight f ≡ 0 → IsDone f
weightless (queued c) h = ground arith
weightless (waiting c r) h = ground arith
weightless (refreshing c r) h = omega arith
weightless (done r) h = tt

-- How often the call at a place has its turn.
abbrev pub count : ℕ → List ℕ → ℕ
count i [] = 0
count i (n ∷ ns) = (if n == i then 1 else 0) + count i ns

abbrev weight_at : ℕ → List Flight → ℕ
weight_at i [] = 0
weight_at zero (f ∷ fs) = weight f
weight_at (suc i) (f ∷ fs) = weight_at i fs

abbrev total_budget : List Flight → ℕ
total_budget [] = 0
total_budget (f ∷ fs) = budget f + total_budget fs

begun-weight :
    (i : ℕ) (cs : List Config)
    → (weight_at i (begun cs) ≤ 5) × (¬ (i < length cs) → weight_at i (begun cs) ≡ 0)
begun-weight i [] = (omega arith, λ h. refl)
begun-weight zero (c ∷ cs) = (ground arith, λ h. absurd (h (omega arith)))
begun-weight (suc i) (c ∷ cs) = let (a, b) = begun-weight i cs in (a, λ h. b (λ l. h (omega arith)))

begun-budget : (cs : List Config) → total_budget (begun cs) ≤ 3 * length cs
begun-budget [] = omega arith
begun-budget (c ∷ cs) = ground (arith, begun-budget cs)

All-weightless : (fs : List Flight) → ((i : ℕ) → weight_at i fs ≡ 0) → All IsDone fs
All-weightless [] h = tt
All-weightless (f ∷ fs) h = (weightless f (h 0), All-weightless fs (λ i. h (suc i)))

-- One turn of a call: it comes nearer to its end, and what it sends is paid from its budget.
abbrev Progress : Flight → Browser → Flight × Browser → Type 0
Progress f b s =
    (weight s.0 ≤ weight f - 1) × (length s.1.sent + budget s.0 ≤ length b.sent + budget f)

module _ (backend : Backend) (parse : String → Option Value) where
  ask_tokens-Progress :
      (c : Config) (r : Result Value) (q : Result Request) (b : Browser)
      → c.retry ≡ false
      → Progress (waiting c r) b (ask_tokens backend parse c q b)
  unfolding ask_tokens
  ask_tokens-Progress c r (ok q) b h = ground arith
  ask_tokens-Progress c r (err e) b h = ground arith

  on_tokens-Progress :
      (c : Config) (r : Result Value) (t : Result (Value × Value)) (b : Browser)
      → Progress (refreshing c r) b (on_tokens backend parse c t b)
  unfolding on_tokens
  on_tokens-Progress c r (ok tokens) b = (omega arith, omega arith)
  on_tokens-Progress c r (err e) b = (omega arith, omega arith)

  on_answer-Progress :
      (c : Config) (r : Result Value) (b : Browser)
      → Progress (waiting c r) b (on_answer backend parse c r b)
  unfolding on_answer
  on_answer-Progress c (ok v) b = ground arith
  on_answer-Progress c (err e) b =
      if_rule (Progress (waiting c (err e)) b) (is_unauthorized e && not c.retry) _ _
        (λ h. ask_tokens-Progress c (err e) (prepare parse b.storage) b (ground arith))
        (λ h. ground arith)

  advance-Progress : (f : Flight) (b : Browser) → Progress f b (advance backend parse f b)
  unfolding advance launch
  advance-Progress (queued c) b =
      ground (arith, with_token-retry (Storage.get_item token_key b.storage) c)
  advance-Progress (waiting c r) b = on_answer-Progress c r b
  advance-Progress (refreshing c r) b = on_tokens-Progress c r (r >>= read_tokens) b
  advance-Progress (done r) b = (omega arith, omega arith)

  turn-weight :
      (i n : ℕ) (fs : List Flight) (b : Browser)
      → weight_at i (turn backend parse n (fs, b)).0 ≤ weight_at i fs - (if n == i then 1 else 0)
  unfolding turn
  turn-weight i n [] b = omega arith
  turn-weight zero zero (f ∷ fs) b = (advance-Progress f b).0
  turn-weight zero (suc n) (f ∷ fs) b = ground arith
  turn-weight (suc i) zero (f ∷ fs) b = ground arith
  turn-weight (suc i) (suc n) (f ∷ fs) b = ground (arith, turn-weight i n fs b)

  turns-weight :
      (i : ℕ) (ns : List ℕ) (fs : List Flight) (b : Browser)
      → weight_at i (turns backend parse ns (fs, b)).0 ≤ weight_at i fs - count i ns
  unfolding turns
  turns-weight i [] fs b = omega arith
  turns-weight i (n ∷ ns) fs b =
      let s = turn backend parse n (fs, b) in
      omega (arith, turn-weight i n fs b, turns-weight i ns s.0 s.1)

  -- The requests sent and the budgets of all calls do not grow together.
  turn-budget :
      (n : ℕ) (fs : List Flight) (b : Browser)
      → (let s = turn backend parse n (fs, b) in
          length s.1.sent + total_budget s.0 ≤ length b.sent + total_budget fs)
  unfolding turn
  turn-budget n [] b = omega arith
  turn-budget zero (f ∷ fs) b = omega (arith, (advance-Progress f b).1)
  turn-budget (suc n) (f ∷ fs) b = omega (arith, turn-budget n fs b)

  turns-budget :
      (ns : List ℕ) (fs : List Flight) (b : Browser)
      → (let s = turns backend parse ns (fs, b) in
          length s.1.sent + total_budget s.0 ≤ length b.sent + total_budget fs)
  unfolding turns
  turns-budget [] fs b = omega arith
  turns-budget (n ∷ ns) fs b =
      let s = turn backend parse n (fs, b) in
      omega (arith, turn-budget n fs b, turns-budget ns s.0 s.1)

  -- When every call has at least five turns, in any order and mixed in any way, every call has
  -- settled.
  pub turns-IsDone :
      (cs : List Config) (ns : List ℕ) (b : Browser)
      → ((i : ℕ) → i < length cs → 5 ≤ count i ns)
      → All IsDone (turns backend parse ns (begun cs, b)).0
  turns-IsDone cs ns b fair =
      All-weightless (turns backend parse ns (begun cs, b)).0
        λ i. spent i (turns-weight i ns (begun cs) b) (begun-weight i cs) (fair i)
    where
      spent :
          {w v k : ℕ} (i : ℕ)
          → w ≤ v - k
          → (v ≤ 5) × (¬ (i < length cs) → v ≡ 0)
          → (i < length cs → 5 ≤ k)
          → w ≡ 0
      spent i h g f = grind arith

  -- However they take turns, the calls send at most three requests each.
  pub turns-sent :
      (cs : List Config) (ns : List ℕ) (b : Browser)
      → length (turns backend parse ns (begun cs, b)).1.sent ≤ length b.sent + 3 * length cs
  turns-sent cs ns b = omega (arith, turns-budget ns (begun cs) b, begun-budget cs)
