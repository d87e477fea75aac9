-- ===== src/Live/Subscribers.antt =====
-- The three sets of callbacks of web/admin/src/contexts/WebSocketContext.tsx, `new
-- Set(prev).add(callback)` and `next.delete(callback)`. A set keeps its callbacks in the order of
-- insertion.
use konsul.Prelude.{
  ◌&&◌, ◌||◌, ℕ, Bool, true, false, not, List, [], ◌∷◌, ◌++◌, keep, any, ◌==◌, if◌then◌else◌, ◌≡◌,
  refl, arith,
}

pub data Channel : Type 0 where
  kv services health : Channel

pub record Subs : Type 0 where
  pub kv : List ℕ
  pub services : List ℕ
  pub health : List ℕ

abbrev pub callbacks : Channel → Subs → List ℕ
callbacks kv s = s.kv
callbacks services s = s.services
callbacks health s = s.health

abbrev pub with_callbacks : Channel → List ℕ → Subs → Subs
with_callbacks kv fs s = record s { kv = fs }
with_callbacks services fs s = record s { services = fs }
with_callbacks health fs s = record s { health = fs }

abbrev pub has : ℕ → List ℕ → Bool
has f fs = any (λ g. g == f) fs

unfoldable pub set_add : ℕ → List ℕ → List ℕ
set_add f fs = if has f fs then fs else fs ++ f ∷ []

unfoldable pub set_delete : ℕ → List ℕ → List ℕ
set_delete f fs = keep (λ g. not (g == f)) fs

unfoldable pub add : Channel → ℕ → Subs → Subs
unfolding set_add
add c f s = with_callbacks c (set_add f (callbacks c s)) s

unfoldable pub remove : Channel → ℕ → Subs → Subs
unfolding set_delete
remove c f s = with_callbacks c (set_delete f (callbacks c s)) s

has-append : (f : ℕ) (xs ys : List ℕ) → has f (xs ++ ys) ≡ (has f xs || has f ys)
has-append f [] ys = refl
has-append f (x ∷ xs) ys = ground (arith, has-append f xs ys)

has-set_add : (f g : ℕ) (fs : List ℕ) → has g (set_add f fs) ≡ (f == g || has g fs)
unfolding set_add
has-set_add f g fs = ground (arith, has-append g fs (f ∷ []))

has-set_delete : (f g : ℕ) (fs : List ℕ) → has g (set_delete f fs) ≡ (not (f == g) && has g fs)
unfolding set_delete
has-set_delete f g [] = ground arith
has-set_delete f g (x ∷ fs) = ground (arith, has-set_delete f g fs)

abbrev pub same_channel : Channel → Channel → Bool
same_channel kv kv = true
same_channel services services = true
same_channel health health = true
same_channel _ _ = false

module _ (f g : ℕ) (s : Subs) where
  pub has-add :
      (c d : Channel)
      → has g (callbacks d (add c f s)) ≡ ((same_channel c d && f == g) || has g (callbacks d s))
  unfolding add
  has-add kv kv = has-set_add f g s.kv
  has-add services services = has-set_add f g s.services
  has-add health health = has-set_add f g s.health
  has-add kv services = refl
  has-add kv health = refl
  has-add services kv = refl
  has-add services health = refl
  has-add health kv = refl
  has-add health services = refl

  pub has-remove :
      (c d : Channel)
      → has g (callbacks d (remove c f s))
        ≡ (not (same_channel c d && f == g) && has g (callbacks d s))
  unfolding remove
  has-remove kv kv = has-set_delete f g s.kv
  has-remove services services = has-set_delete f g s.services
  has-remove health health = has-set_delete f g s.health
  has-remove kv services = refl
  has-remove kv health = refl
  has-remove services kv = refl
  has-remove services health = refl
  has-remove health kv = refl
  has-remove health services = refl

-- Subscribing adds the callback to its channel and nothing else; unsubscribing after it takes out
-- that callback of that channel alone, and leaves all others as they were.
pub subscription :
    (f g : ℕ) (s : Subs) (c d : Channel)
    → (has g (callbacks d (add c f s)) ≡ ((same_channel c d && f == g) || has g (callbacks d s)))
      × (has g (callbacks d (remove c f (add c f s)))
          ≡ (not (same_channel c d && f == g) && has g (callbacks d s)))
subscription f g s c d =
    (has-add f g s c d, ground (arith, has-add f g s c d, has-remove f g (add c f s) c d))
