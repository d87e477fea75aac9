-- ===== src/Api/Flight/Alone.antt =====
-- One call of `api` of web/admin/src/lib/api.ts that has the browser for itself.
use konsul.Prelude.{
  ℕ, zero, suc, true, false, ◌&&◌, String, Option, none, some, [], ◌∷◌, List, ◌≡◌, refl, sym, ap,
  ◌∙◌, inl, inr, Bool-cases, arith,
}
use konsul.Prelude.Text.{nonempty}
use konsul.Value.{Value, str, to_text, Result, ok, err, ◌>>=◌, Result-cases}
use konsul.Http
use konsul.Http.Storage
use konsul.Http.Storage.{get-set_ne, get-set_self}
use konsul.Http.{Request, Config, Backend, Browser, settle, send}
use konsul.Api.Payload.{or_syntax_error, read_profile, read_tokens}
use konsul.Api.{
  api, refresh, exchange_stored, exchange, keep_tokens, token_key, refresh_key, user_key, bearer,
  sign_out, refresh_request,
}
use konsul.Api.Session.{
  first, attached, needs_renewal, same_need, bearer-with_token, bearer-attached, api-eq-send,
  api_expired, api_renewed,
}
use konsul.Api.Flight.{
  Flight, queued, done, prepared, prepare, with_profile, after, keep, launch, ask_tokens, on_answer,
  on_tokens, advance, turn, turns, begun,
}

abbrev settled : Result Value × Browser → Flight × Browser
settled r = (done r.0, r.1)

-- The end of a refresh, from the tokens in its answer.
abbrev kept : Result (Value × Value) → Browser → Result String × Browser
kept (ok tokens) b = (ok (to_text tokens.0), keep tokens b)
kept (err e) b = (err e, b)

-- A refresh, from the request that was prepared.
abbrev asked : Backend → Result Request → Browser → Result String × Browser
asked backend (err e) b = (err e, b)
asked backend (ok q) b = kept (settle (backend b.sent q) >>= read_tokens) (after q b)

keep_tokens-eq : (v : Value) (b : Browser) → keep_tokens v b ≡ kept (read_tokens v) b
unfolding keep_tokens
keep_tokens-eq v b = elim (Result-cases (read_tokens v)) [
  | inl (e, h) ↦ rw h refl
  | inr (tokens, h) ↦ rw h refl
]

-- The call at the first place has all turns.
abbrev pub alone : ℕ → List ℕ
alone zero = []
alone (suc n) = zero ∷ alone n

module _ (backend : Backend) (parse : String → Option Value) where
  answered :
      (r : Result Value) (b : Browser)
      → (Http.◌>>=◌ (λ _. (r, b)) keep_tokens) b ≡ kept (r >>= read_tokens) b
  answered (ok v) b = keep_tokens-eq v b
  answered (err e) b = refl

  exchange-eq :
      (r u : String) (b : Browser)
      → exchange backend parse r u b
        ≡ asked backend (or_syntax_error (parse u) >>= read_profile >>= with_profile r) b
  unfolding exchange send
  exchange-eq r u b = elim (Result-cases (or_syntax_error (parse u))) [
    | inl (e, h) ↦ rw h refl
    | inr (v, h) ↦ elim (Result-cases (read_profile v)) [
      | inl (e, k) ↦ rw (h, k) refl
      | inr (p, k) ↦
          let q = refresh_request (str r) p in
          rw (h, k) (answered (settle (backend b.sent q)) (after q b))
    ]
  ]

  stored-eq :
      (r u : Option String) (b : Browser)
      → exchange_stored backend parse r u b ≡ asked backend (prepared parse r u) b
  unfolding exchange_stored prepared
  stored-eq (some r) (some u) b = elim (Bool-cases (nonempty r && nonempty u)) [
    | inl h ↦ rw h (exchange-eq r u b)
    | inr h ↦ rw h refl
  ]
  stored-eq (some r) none b = refl
  stored-eq none u b = refl

  -- The two halves of the machine's refresh are the refresh of the source.
  refresh-eq : (b : Browser) → refresh backend parse b ≡ asked backend (prepare parse b.storage) b
  unfolding refresh prepare
  refresh-eq b =
      stored-eq (Storage.get_item refresh_key b.storage) (Storage.get_item user_key b.storage) b

  solo : ℕ → Flight × Browser → Flight × Browser
  solo zero s = s
  solo (suc n) (f, b) = solo n (advance backend parse f b)

  solo-done : (n : ℕ) (r : Result Value) (b : Browser) → solo n (done r, b) ≡ (done r, b)
  unfolding solo advance
  solo-done zero r b = refl
  solo-done (suc n) r b = solo-done n r b

  passes :
      (a : Config) (r : Result Value) (b : Browser)
      → needs_renewal a r ≡ false
      → on_answer backend parse a r b ≡ (done r, b)
  unfolding on_answer
  passes a (ok v) b h = refl
  passes a (err e) b h = ground arith

  renews :
      (a : Config) (r : Result Value) (b : Browser)
      → needs_renewal a r ≡ true
      → on_answer backend parse a r b ≡ ask_tokens backend parse a (prepare parse b.storage) b
  unfolding on_answer
  renews a (ok v) b h = cc
  renews a (err e) b h = ground arith

  retry_passes : (a : Config) (r : Result Value) → a.retry ≡ true → needs_renewal a r ≡ false
  retry_passes a (ok v) h = refl
  retry_passes a (err e) h = ground arith

  -- A retry is sent with the new token, and its answer ends the call.
  solo-retry :
      (n : ℕ) (t : String) (c : Config) (b : Browser)
      → c.retry ≡ true
      → Storage.get_item token_key b.storage ≡ some t
      → solo (suc (suc n)) (queued (bearer t c), b)
        ≡ (let r = send backend (bearer t c).request b in (done r.0, r.1))
  unfolding solo advance launch send
  solo-retry n t c b h stored =
      let r = settle (backend b.sent (bearer t c).request) in
      rw (stored, bearer-with_token t c)
        (ap (solo n)
            (passes (bearer t c) r (after (bearer t c).request b) (retry_passes (bearer t c) r h))
          ∙ solo-done n r (after (bearer t c).request b))

  -- What a call ends in, once its request is answered.
  abbrev Ends : Config → Browser → Flight × Browser → Type 0
  Ends c b s = s ≡ settled (api backend parse c b)

  module _ (n : ℕ) (c : Config) (b : Browser)
      (renewal : needs_renewal c (first backend parse c b).0 ≡ true) where
    abbrev a : Config
    a = attached c b

    by_tokens :
        (q : Request) (b1 : Browser) (r : Result (Value × Value))
        → refresh backend parse (first backend parse c b).1 ≡ kept r (after q b1)
        → Ends c b (solo (suc (suc n)) (on_tokens backend parse a r (after q b1)))
    unfolding on_tokens
    by_tokens q b1 (err e) h =
        solo-done (suc (suc n)) (err e) (sign_out (after q b1))
        ∙ ap settled (sym ((api_expired backend parse c b e (after q b1) renewal h).0))
    by_tokens q b1 (ok tokens) h =
        let t = to_text tokens.0 in
        let b2 = keep tokens (after q b1) in
        solo-retry n t (record a { retry = true }) b2 refl
          (get-set_ne refresh_key (to_text tokens.1) token_key _ refl
            ∙ get-set_self token_key t (after q b1).storage)
        ∙ ap settled (
            ap (λ (x : Request). send backend x b2) (bearer-attached t c b)
            ∙ sym (api_renewed backend parse c b t b2 renewal h))

    by_request :
        (p : Result Request)
        → prepare parse (first backend parse c b).1.storage ≡ p
        → Ends c b
            (solo (suc (suc (suc n))) (ask_tokens backend parse a p (first backend parse c b).1))
    unfolding ask_tokens solo advance
    by_request (err e) h =
        solo-done (suc (suc (suc n))) (err e) (sign_out (first backend parse c b).1)
        ∙ ap settled (
            sym (
              (api_expired backend parse c b e (first backend parse c b).1 renewal
                (refresh-eq (first backend parse c b).1 ∙ rw h refl)).0))
    by_request (ok q) h =
        by_tokens q (first backend parse c b).1
          (settle (backend (first backend parse c b).1.sent q) >>= read_tokens)
          (refresh-eq (first backend parse c b).1 ∙ rw h refl)

  by_answer :
      (n : ℕ) (c : Config) (b : Browser)
      → Ends c b (
          solo (suc (suc (suc n))) (
            on_answer backend parse
              (attached c b)
              (first backend parse c b).0
              (first backend parse c b).1))
  by_answer n c b = elim (Bool-cases (needs_renewal c (first backend parse c b).0)) [
    | inr h ↦
        ap (solo (suc (suc (suc n))))
          (passes _ _ _ (same_need backend parse c b (first backend parse c b).0 ∙ h))
        ∙ solo-done (suc (suc (suc n))) _ _
        ∙ ap settled (sym (api-eq-send backend parse c b h))
    | inl h ↦
        ap (solo (suc (suc (suc n))))
          (renews _ _ _ (same_need backend parse c b (first backend parse c b).0 ∙ h))
        ∙ by_request n c b h _ refl
  ]

  solo-api :
      (n : ℕ) (c : Config) (b : Browser)
      → Ends c b (solo (suc (suc (suc (suc (suc n))))) (queued c, b))
  unfolding solo advance launch send
  solo-api n c b = by_answer n c b

  turns-solo :
      (n : ℕ) (f : Flight) (b : Browser)
      → turns backend parse (alone n) (f ∷ [], b) ≡ ((solo n (f, b)).0 ∷ [], (solo n (f, b)).1)
  unfolding turns turn solo
  turns-solo zero f b = refl
  turns-solo (suc n) f b = turns-solo n (advance backend parse f b).0 (advance backend parse f b).1

  -- A call that has the browser for itself has settled after five turns or more, and its result
  -- and the browser are those of `api`.
  pub turns-api :
      (n : ℕ) (c : Config) (b : Browser)
      → turns backend parse (alone (suc (suc (suc (suc (suc n)))))) (begun (c ∷ []), b)
        ≡ (done (api backend parse c b).0 ∷ [], (api backend parse c b).1)
  turns-api n c b =
      turns-solo (suc (suc (suc (suc (suc n))))) (queued c) b
      ∙ ap (λ (s : Flight × Browser). (s.0 ∷ [], s.1)) (solo-api n c b)
