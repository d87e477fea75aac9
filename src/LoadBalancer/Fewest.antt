-- ===== src/LoadBalancer/Fewest.antt =====
-- The choice by connections of internal/loadbalancer/balancer.go, `selectLeastConnections`.
use konsul.Prelude.{
  ℕ, Bool, true, false, String, some, List, [], ◌∷◌, ◌≡◌, refl, ap, ◌∙◌, arith, All, str_eq, eq_iff,
  if◌then◌else◌, if_rule,
}
use konsul.Prelude.Dict.{find, put, find-put}
use konsul.Registry.Validate.{Service, ℤ}
use konsul.LoadBalancer.{
  Balancer, or_zero, less_int32, instance_key, connections_of, fewest, make_counters,
  select_least_connections,
}

no_less : (a b c : ℕ) → less_int32 a b ≡ true → less_int32 a c ≡ false → less_int32 b c ≡ false
no_less a b c h k = ground (arith, h, k)

not_fewer : (a b c : ℕ) → less_int32 a b ≡ false → less_int32 b c ≡ false → less_int32 a c ≡ false
not_fewer a b c h k = ground (arith, h, k)

module _ (rune_text : ℤ → String) (b : Balancer) where
  -- Whether a service has fewer connections than another.
  abbrev pub has_fewer : Service → Service → Bool
  has_fewer v w = less_int32 (connections_of rune_text b v) (connections_of rune_text b w)

  -- The best so far does not have fewer than the best of all.
  fewest-best :
      (best : Service) (vs : List Service) → has_fewer best (fewest rune_text b best vs) ≡ false
  unfolding fewest
  fewest-best best [] = ground arith
  fewest-best best (v ∷ vs) =
      if_rule (λ x. has_fewer best (fewest rune_text b x vs) ≡ false) (has_fewer v best) v best
        (λ e.
          no_less (connections_of rune_text b v) (connections_of rune_text b best) _ e
            (fewest-best v vs))
        (λ e. fewest-best best vs)

  -- None of the rest has fewer than the best of all.
  fewest_least :
      (best : Service) (vs : List Service)
      → All (λ w. has_fewer w (fewest rune_text b best vs) ≡ false) vs
  unfolding fewest
  fewest_least best [] = tt
  fewest_least best (v ∷ vs) =
      if_rule
        (λ x.
          (has_fewer v (fewest rune_text b x vs) ≡ false)
          × All (λ w. has_fewer w (fewest rune_text b x vs) ≡ false) vs)
        (has_fewer v best) v best (λ e. (fewest-best v vs, fewest_least v vs))
        (λ e. (
          not_fewer (connections_of rune_text b v) (connections_of rune_text b best) _ e
              (fewest-best best vs),
          fewest_least best vs,
        ))

  -- What holds of all holds of the best.
  pub fewest-All {κ} :
      (P : Service → Type κ) (best : Service) (vs : List Service)
      → P best
      → All P vs
      → P (fewest rune_text b best vs)
  unfolding fewest
  fewest-All P best [] p ps = p
  fewest-All P best (v ∷ vs) p (q, qs) =
      if_rule (λ x. P (fewest rune_text b x vs)) (has_fewer v best) v best
        (λ e. fewest-All P v vs q qs) (λ e. fewest-All P best vs p qs)

make_counters-same :
    (rune_text : ℤ → String) (u : Service) (vs : List Service) (b : Balancer)
    → connections_of rune_text (make_counters rune_text vs b) u ≡ connections_of rune_text b u
unfolding make_counters
make_counters-same rune_text u [] b = refl
make_counters-same rune_text u (v ∷ vs) b =
    let kept = connections_of rune_text b v in
    let next = record b { connections = put (instance_key rune_text v) kept b.connections } in
    make_counters-same rune_text u vs next
    ∙ ap or_zero (find-put (instance_key rune_text v) kept (instance_key rune_text u) b.connections)
    ∙ same
  where
    same :
        or_zero (
          if str_eq (instance_key rune_text v) (instance_key rune_text u)
          then some (connections_of rune_text b v)
          else find (instance_key rune_text u) b.connections)
        ≡ connections_of rune_text b u
    same = ground (arith, eq_iff (instance_key rune_text v) (instance_key rune_text u))

-- The choice by connections gives one of the instances, than which no instance has fewer, and
-- leaves all numbers of connections as they are; what holds of all instances holds of it.
pub select_least_connections-fewest :
    (rune_text : ℤ → String) (P : Service → Type 0) (v : Service) (vs : List Service) (b : Balancer)
    → All P (v ∷ vs)
    → (chosen : Service) × ((select_least_connections rune_text (v ∷ vs) b).0 ≡ some chosen)
      × P chosen
      × All (λ w. has_fewer rune_text b w chosen ≡ false) (v ∷ vs)
      × ((u : Service)
          → connections_of rune_text (select_least_connections rune_text (v ∷ vs) b).1 u
            ≡ connections_of rune_text b u)
unfolding select_least_connections
select_least_connections-fewest rune_text P v vs b (p, ps) = (
  fewest rune_text b v vs,
  refl,
  fewest-All rune_text b P v vs p ps,
  (fewest-best rune_text b v vs, fewest_least rune_text b v vs),
  λ u. make_counters-same rune_text u (v ∷ vs) b,
)
