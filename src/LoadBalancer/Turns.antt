-- ===== src/LoadBalancer/Turns.antt =====
-- The in_turn of internal/loadbalancer/balancer.go, `selectRoundRobin`: every service is chosen equally
-- often.
use native.Mathlib.Nat.{mod-lt, mod-eq_of_lt, mod-add-mod, mod_self}
use konsul.Prelude.{
  ℕ, zero, suc, ◌+◌, ◌-◌, ◌%◌, ◌^◌, ◌≤◌, ◌<◌, String, Option, some, List, [], ◌∷◌, ◌++◌, ◌≡◌, refl,
  sym, ap, ◌∙◌, arith, map, length, eq_refl,
}
use konsul.Prelude.Dict.{Dict, find, put, find-put}
use konsul.Registry.Validate.{Service}
use konsul.LoadBalancer.{Balancer, nth, or_zero, select_round_robin}

-- What a number of calls with the same instances choose, one after the other.
unfoldable pub in_turn : ℕ → String → List Service → Balancer → List (Option Service)
unfolding select_round_robin
in_turn zero name vs b = []
in_turn (suc k) name vs b = let (v, c) = select_round_robin name vs b in v ∷ in_turn k name vs c

abbrev pub take {ℓ} : {A : Type ℓ} → ℕ → List A → List A
take n [] = []
take zero (x ∷ xs) = []
take (suc n) (x ∷ xs) = x ∷ take n xs

abbrev pub drop {ℓ} : {A : Type ℓ} → ℕ → List A → List A
drop n [] = []
drop zero (x ∷ xs) = x ∷ xs
drop (suc n) (x ∷ xs) = drop n xs

-- The services from a place on, and round to it.
abbrev pub rotated : ℕ → List Service → List Service
rotated i vs = drop i vs ++ take i vs

-- The services from a place on, and at a counter's places.
unfoldable from_place : ℕ → ℕ → List Service → List (Option Service)
from_place zero i vs = []
from_place (suc k) i vs = nth i vs ∷ from_place k (suc i) vs

unfoldable at_counter : ℕ → ℕ → List Service → List (Option Service)
at_counter zero c vs = []
at_counter (suc k) c vs = nth (c % length vs) vs ∷ at_counter k (suc c) vs

put_then_find : (k : String) (v : ℕ) (d : Dict ℕ) → find k (put k v d) ≡ some v
put_then_find k v d = ground (arith, find-put k v k d, eq_refl k)

in_turn-at_counter :
    (k : ℕ) (name : String) (vs : List Service) (b : Balancer)
    → or_zero (find name b.counters) + k < 2 ^ 64
    → in_turn k name vs b ≡ at_counter k (or_zero (find name b.counters)) vs
unfolding in_turn at_counter select_round_robin
in_turn-at_counter zero name vs b room = refl
in_turn-at_counter (suc k) name vs b room =
    let c = or_zero (find name b.counters) in
    let counter = suc c % 2 ^ 64 in
    let next = record b { counters = put name counter b.counters } in
    let e : or_zero (find name next.counters) ≡ suc c =
      ap or_zero (put_then_find name counter b.counters) ∙ omega (arith, room) in
    let place : (counter + (2 ^ 64 - 1)) % 2 ^ 64 ≡ c = omega (arith, room) in
    ap (λ i. nth (i % length vs) vs ∷ in_turn k name vs next) place
    ∙ ap (λ l. nth (c % length vs) vs ∷ l)
        (in_turn-at_counter k name vs next (omega (arith, room, e)) ∙ ap (λ x. at_counter k x vs) e)

suc-mod : (c n : ℕ) → suc (c % n) < n → suc c % n ≡ suc (c % n)
suc-mod c n h =
    let e : suc c ≡ c + 1 = omega arith in
    let f : c % n + 1 ≡ suc (c % n) = omega arith in
    ap (λ x. x % n) e ∙ sym (mod-add-mod c n 1) ∙ ap (λ x. x % n) f ∙ mod-eq_of_lt h

at_counter-from_place :
    (k c : ℕ) (vs : List Service)
    → c % length vs + k ≤ length vs
    → at_counter k c vs ≡ from_place k (c % length vs) vs
unfolding at_counter from_place
at_counter-from_place zero c vs h = refl
at_counter-from_place (suc zero) c vs h = refl
at_counter-from_place (suc (suc k)) c vs h =
    let e = suc-mod c (length vs) (omega (arith, h)) in
    ap (λ l. nth (c % length vs) vs ∷ l)
      (at_counter-from_place (suc k) (suc c) vs (omega (arith, h, e))
        ∙ ap (λ i. from_place (suc k) i vs) e)

at_counter-append :
    (j k c : ℕ) (vs : List Service)
    → at_counter (j + k) c vs ≡ at_counter j c vs ++ at_counter k (c + j) vs
unfolding at_counter
at_counter-append zero k c vs = ground arith
at_counter-append (suc j) k c vs =
    let e : suc j + k ≡ suc (j + k) = omega arith in
    let f : suc c + j ≡ c + suc j = omega arith in
    ap (λ n. at_counter n c vs) e
    ∙ ap (λ l. nth (c % length vs) vs ∷ l)
        (at_counter-append j k (suc c) vs
          ∙ ap (λ x. at_counter j (suc c) vs ++ at_counter k x vs) f)

from_place-suc :
    (k i : ℕ) (v : Service) (vs : List Service) → from_place k (suc i) (v ∷ vs) ≡ from_place k i vs
unfolding from_place
from_place-suc zero i v vs = refl
from_place-suc (suc k) i v vs = ap (λ l. nth i vs ∷ l) (from_place-suc k (suc i) v vs)

drop-zero : (vs : List Service) → drop 0 vs ≡ vs
drop-zero [] = refl
drop-zero (v ∷ vs) = refl

from_place-take :
    (k i : ℕ) (vs : List Service)
    → i + k ≤ length vs
    → from_place k i vs ≡ map (λ v. some v) (take k (drop i vs))
unfolding from_place
from_place-take zero i [] h = refl
from_place-take (suc k) i [] h = absurd (omega (arith, h))
from_place-take zero zero (v ∷ vs) h = refl
from_place-take (suc k) zero (v ∷ vs) h =
    ap (λ l. some v ∷ l)
      (from_place-suc k 0 v vs
        ∙ from_place-take k 0 vs (omega (arith, h))
        ∙ ap (λ l. map (λ w. some w) (take k l)) (drop-zero vs))
from_place-take k (suc i) (v ∷ vs) h =
    from_place-suc k i v vs ∙ from_place-take k i vs (omega (arith, h))

take-drop : (i k : ℕ) (vs : List Service) → length vs ≤ i + k → take k (drop i vs) ≡ drop i vs
take-drop i k [] h = refl
take-drop zero k (v ∷ vs) h = take_all k (v ∷ vs) (omega (arith, h))
  where
    take_all : (k : ℕ) (ws : List Service) → length ws ≤ k → take k ws ≡ ws
    take_all k [] h = refl
    take_all zero (w ∷ ws) h = absurd (omega (arith, h))
    take_all (suc k) (w ∷ ws) h = ap (λ l. w ∷ l) (take_all k ws (omega (arith, h)))
take-drop (suc i) k (v ∷ vs) h = take-drop i k vs (omega (arith, h))

map-append :
    (xs ys : List Service)
    → map (λ v. some v) xs ++ map (λ v. some v) ys ≡ map (λ v. some v) (xs ++ ys)
map-append [] ys = refl
map-append (x ∷ xs) ys = ap (λ l. some x ∷ l) (map-append xs ys)

full_turn :
    (c : ℕ) (vs : List Service)
    → 0 < length vs
    → at_counter (length vs) c vs
      ≡ map (λ v. some v) (drop (c % length vs) vs ++ take (c % length vs) vs)
full_turn c vs h =
    let n = length vs in
    let i = c % n in
    let below : i < n = mod-lt c h in
    let parts : n ≡ (n - i) + i = omega (arith, below) in
    let start : (c + (n - i)) % n ≡ 0 =
      sym (mod-add-mod c n (n - i)) ∙ ap (λ x. x % n) (sym (parts ∙ omega arith)) ∙ mod_self n in
    ap (λ m. at_counter m c vs) parts
    ∙ at_counter-append (n - i) i c vs
    ∙ ap (λ l. l ++ at_counter i (c + (n - i)) vs)
        (at_counter-from_place (n - i) c vs (omega (arith, below))
          ∙ from_place-take (n - i) i vs (omega (arith, below))
          ∙ ap (λ l. map (λ v. some v) l) (take-drop i (n - i) vs (omega (arith, below))))
    ∙ ap (λ l. map (λ v. some v) (drop i vs) ++ l)
        (at_counter-from_place i (c + (n - i)) vs (omega (arith, start, below))
          ∙ ap (λ j. from_place i j vs) start
          ∙ from_place-take i 0 vs (omega (arith, below))
          ∙ ap (λ l. map (λ v. some v) (take i l)) (drop-zero vs))
    ∙ map-append (drop i vs) (take i vs)

-- There is an instance. While the counter of a name stays within 64 bits, as many calls as there are instances choose
-- each instance exactly once: in their order, from the place of the counter on and round to it.
pub in_turn-rotated :
    (name : String) (vs : List Service) (b : Balancer)
    → 0 < length vs
    → or_zero (find name b.counters) + length vs < 2 ^ 64
    → let i = or_zero (find name b.counters) % length vs in
      in_turn (length vs) name vs b ≡ map (λ v. some v) (rotated i vs)
in_turn-rotated name vs b h room =
    in_turn-at_counter (length vs) name vs b room ∙ full_turn (or_zero (find name b.counters)) vs h
