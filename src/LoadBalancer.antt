-- ===== src/LoadBalancer.antt =====
-- internal/loadbalancer: the choice of a service among those that a query of the registry gives, by
-- turns, by the number of connections, or by chance. `intn` is the random number below its
-- argument, and `rune_text` the text of a number as a character, `string(rune(n))`.
pub mod Turns
pub mod Fewest
pub mod Chosen
use konsul.Prelude.{
  ℕ, zero, suc, ◌+◌, ◌-◌, ◌%◌, ◌^◌, Bool, not, String, Option, none, some, List, [], ◌∷◌, ◌==◌, ltb,
  length, if◌then◌else◌,
}
use konsul.Prelude.Dict.{Dict, find, put}
use konsul.Prelude.Text.{◌<>◌}
use konsul.Registry.{Registry}
use konsul.Registry.Validate.{Service, ℤ}
use konsul.Registry.Query.{query_by_tags, query_by_metadata, query_by_tags_and_metadata}

pub data Strategy : Type 0 where
  round_robin weighted_round_robin random weighted_random least_connections : Strategy
  ip_hash ring_hash latency_based : Strategy

-- A counter is a 64-bit number; a number of connections is a signed 32-bit number, kept by its
-- bits.
pub record Balancer : Type 0 where
  pub strategy : Strategy
  pub counters : Dict ℕ
  pub connections : Dict ℕ

abbrev pub nth {ℓ} : {A : Type ℓ} → ℕ → List A → Option A
nth n [] = none
nth zero (x ∷ xs) = some x
nth (suc n) (x ∷ xs) = nth n xs

-- A counter that is not there is made with 0.
abbrev pub or_zero : Option ℕ → ℕ
or_zero none = 0
or_zero (some n) = n

unfoldable pub select_round_robin : String → List Service → Balancer → Option Service × Balancer
unfolding find put
select_round_robin name instances b =
    let counter = suc (or_zero (find name b.counters)) % 2 ^ 64 in
    (
      nth ((counter + (2 ^ 64 - 1)) % 2 ^ 64 % length instances) instances,
      record b { counters = put name counter b.counters },
    )

-- The order of signed 32-bit numbers.
abbrev pub less_int32 : ℕ → ℕ → Bool
less_int32 m n = ltb ((m + 2 ^ 31) % 2 ^ 32) ((n + 2 ^ 31) % 2 ^ 32)

abbrev pub select_random : (intn : ℕ → ℕ) → List Service → Option Service
select_random intn instances = nth (intn (length instances)) instances

module _ (rune_text : ℤ → String) where
  abbrev pub instance_key : Service → String
  instance_key v = v.name <> ":" <> v.address <> ":" <> rune_text v.port

  -- `atomic.LoadInt32` of an instance's counter.
  abbrev pub connections_of : Balancer → Service → ℕ
  connections_of b v = or_zero (find (instance_key v) b.connections)

  -- The rest of the instances, with the best one so far.
  unfoldable pub fewest : Balancer → Service → List Service → Service
  unfolding find
  fewest b best [] = best
  fewest b best (v ∷ vs) =
      fewest b (if less_int32 (connections_of b v) (connections_of b best) then v else best) vs

  -- A counter that is made on the way is 0, as one that is not there.
  unfoldable pub make_counters : List Service → Balancer → Balancer
  unfolding find put
  make_counters [] b = b
  make_counters (v ∷ vs) b =
      make_counters vs
        (record b { connections = put (instance_key v) (connections_of b v) b.connections })

  unfoldable pub select_least_connections : List Service → Balancer → Option Service × Balancer
  unfolding fewest make_counters
  select_least_connections [] b = (none, b)
  select_least_connections (v ∷ vs) b = (some (fewest b v vs), make_counters (v ∷ vs) b)

  unfoldable pub increment_connections : Service → Balancer → Balancer
  unfolding find put
  increment_connections v b = record b {
    connections = put (instance_key v) (suc (connections_of b v) % 2 ^ 32) b.connections;
  }

  abbrev pub decremented : Option ℕ → Service → Balancer → Balancer
  decremented none v b = b
  decremented (some n) v b =
      if less_int32 0 n
      then record b { connections = put (instance_key v) (n - 1) b.connections }
      else b

  unfoldable pub decrement_connections : Service → Balancer → Balancer
  unfolding find put
  decrement_connections v b = decremented (find (instance_key v) b.connections) v b

module _ (intn : ℕ → ℕ) (rune_text : ℤ → String) where
  -- What the queries by tags, by metadata and by both do with their answers. The strategies that
  -- they do not name are served by turns, under the name of the first service.
  unfoldable pub select_among : List Service → Balancer → Option Service × Balancer
  unfolding select_round_robin select_least_connections
  select_among [] b = (none, b)
  select_among (v ∷ vs) b = elim b.strategy [
    | random ↦ (select_random intn (v ∷ vs), b)
    | least_connections ↦ select_least_connections rune_text (v ∷ vs) b
    | _ ↦ select_round_robin v.name (v ∷ vs) b
  ]

  unfoldable pub select_service_by_tags :
      ℕ → List String → Registry → Balancer → Option Service × Balancer
  unfolding select_among query_by_tags
  select_service_by_tags now tags s b = select_among (query_by_tags now tags s) b

  unfoldable pub select_service_by_metadata :
      ℕ → Dict String → Registry → Balancer → Option Service × Balancer
  unfolding select_among query_by_metadata
  select_service_by_metadata now filters s b = select_among (query_by_metadata now filters s) b

  unfoldable pub select_service_by_query :
      ℕ → Registry → ℕ → Registry → List String → Dict String → Balancer → Option Service × Balancer
  unfolding select_among query_by_tags_and_metadata
  select_service_by_query now s later s' tags filters b =
      select_among (query_by_tags_and_metadata now s later s' tags filters) b
