-- ===== src/Http/Rules.antt =====
-- Rules for facts about the actions of web/admin/src/lib/api.ts, at each exit of a chain of them.
use konsul.Prelude.{◌∷◌, ◌≡◌}
use konsul.Value.{Value, Error, Result, ok, err}
use konsul.Http.{Backend, Request, Browser, Action, ◌>>=◌, lift, settle, send}

module _ {ℓ κ} {A : Type ℓ} {B : Type ℓ} (P : Result B × Browser → Type κ) where
  pub lift_rule :
      (r : Result A) (f : A → Action B) (b : Browser)
      → ((e : Error) → P (err e, b))
      → ((a : A) → P (f a b))
      → P ((lift r >>= f) b)
  lift_rule (ok a) f b bad good = good a
  lift_rule (err e) f b bad good = bad e

module _ {ℓ κ} {B : Type ℓ} (P : Result B × Browser → Type κ) where
  settled_rule :
      (r : Result Value) (f : Value → Action B) (b : Browser)
      → ((e : Error) → P (err e, b))
      → ((v : Value) → P (f v b))
      → P ((◌>>=◌ (λ _. (r, b)) f) b)
  settled_rule (ok v) f b bad good = good v
  settled_rule (err e) f b bad good = bad e

  pub send_rule :
      (backend : Backend) (q : Request) (f : Value → Action B) (b : Browser)
      → ((e : Error) → P (err e, record b { sent = q ∷ b.sent }))
      → ((v : Value) → P (f v (record b { sent = q ∷ b.sent })))
      → P ((send backend q >>= f) b)
  unfolding send
  send_rule backend q f b bad good =
      settled_rule (settle (backend b.sent q)) f (record b { sent = q ∷ b.sent }) bad good

module _ {ℓ} {A B : Type ℓ} where
  ok_next :
      (f : A → Action B) (a : A) (b : Browser) (r : Result A × Browser)
      → r.0 ≡ ok a
      → (◌>>=◌ (λ _. r) f) b ≡ f a r.1
  ok_next f a b (ok x, b') e = cc
  ok_next f a b (err x, b') e = cc

  -- The chain goes on with a value that is known.
  pub ok_rule :
      (m : Action A) (f : A → Action B) (a : A) (b : Browser)
      → (m b).0 ≡ ok a
      → (m >>= f) b ≡ f a (m b).1
  ok_rule m f a b e = ok_next f a b (m b) e
