-- ===== src/Api/Flight/Stored.antt =====
-- What calls of `api` of web/admin/src/lib/api.ts leave in the storage when they take turns.
use konsul.Prelude.{ℕ, zero, suc, not, ◌&&◌, String, Option, List, [], ◌∷◌, ◌≡◌, if_rule}
use konsul.Value.{Value, Result, ok, err, ◌>>=◌}
use konsul.Http.Storage
use konsul.Http.Storage.{Storage, storage_laws}
use konsul.Http.{Request, Config, Backend, Browser}
use konsul.Api.Payload.{read_tokens}
use konsul.Api.{is_unauthorized, token_key, refresh_key}
use konsul.Api.Flight.{
  Flight, queued, waiting, refreshing, done, prepare, launch, ask_tokens, on_answer, on_tokens,
  advance, turn, turns,
}

-- The two tokens are stored together or not at all.
abbrev pub IsPaired : Storage → Type 0
IsPaired s = Storage.has token_key s ≡ Storage.has refresh_key s

abbrev KeepsPair : Browser → Flight × Browser → Type 0
KeepsPair b s = IsPaired b.storage → IsPaired s.1.storage

module _ (backend : Backend) (parse : String → Option Value) where
  ask_tokens-KeepsPair :
      (c : Config) (q : Result Request) (b : Browser) → KeepsPair b (ask_tokens backend parse c q b)
  unfolding ask_tokens
  ask_tokens-KeepsPair c (ok q) b h = h
  ask_tokens-KeepsPair c (err e) b h = simp storage_laws

  on_tokens-KeepsPair :
      (c : Config) (t : Result (Value × Value)) (b : Browser)
      → KeepsPair b (on_tokens backend parse c t b)
  unfolding on_tokens
  on_tokens-KeepsPair c (ok tokens) b h = simp storage_laws
  on_tokens-KeepsPair c (err e) b h = simp storage_laws

  on_answer-KeepsPair :
      (c : Config) (r : Result Value) (b : Browser) → KeepsPair b (on_answer backend parse c r b)
  unfolding on_answer
  on_answer-KeepsPair c (ok v) b h = h
  on_answer-KeepsPair c (err e) b h =
      if_rule (λ (s : Flight × Browser). IsPaired s.1.storage) (is_unauthorized e && not c.retry) _
        _ (λ _. ask_tokens-KeepsPair c (prepare parse b.storage) b h) (λ _. h)

  advance-KeepsPair : (f : Flight) (b : Browser) → KeepsPair b (advance backend parse f b)
  unfolding advance launch
  advance-KeepsPair (queued c) b h = h
  advance-KeepsPair (waiting c r) b h = on_answer-KeepsPair c r b h
  advance-KeepsPair (refreshing c r) b h = on_tokens-KeepsPair c (r >>= read_tokens) b h
  advance-KeepsPair (done r) b h = h

  turn-IsPaired :
      (n : ℕ) (fs : List Flight) (b : Browser)
      → IsPaired b.storage
      → IsPaired (turn backend parse n (fs, b)).1.storage
  unfolding turn
  turn-IsPaired n [] b h = h
  turn-IsPaired zero (f ∷ fs) b h = advance-KeepsPair f b h
  turn-IsPaired (suc n) (f ∷ fs) b h = turn-IsPaired n fs b h

  -- However calls take turns, and whatever the server answers, the token and the refresh token stay
  -- stored together or not at all.
  pub turns-IsPaired :
      (ns : List ℕ) (fs : List Flight) (b : Browser)
      → IsPaired b.storage
      → IsPaired (turns backend parse ns (fs, b)).1.storage
  unfolding turns
  turns-IsPaired [] fs b h = h
  turns-IsPaired (n ∷ ns) fs b h =
      let s = turn backend parse n (fs, b) in turns-IsPaired ns s.0 s.1 (turn-IsPaired n fs b h)
