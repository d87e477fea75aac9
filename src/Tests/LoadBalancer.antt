-- ===== src/Tests/LoadBalancer.antt =====
-- The load balancer on concrete services.
use konsul.Prelude.{
  ℕ, zero, ◌-◌, ◌%◌, ◌<◌, false, ◌≡◌, refl, arith, some, String, List, [], ◌∷◌, All, map,
}
use konsul.Prelude.Dict.{find}
use konsul.Registry.{Registry, new_registry}
use konsul.Registry.Validate.{Service, ℤ, pos}
use konsul.Registry.Commands.{Command, register, apply_all, reached-Agrees}
use konsul.LoadBalancer.{
  Balancer, least_connections, or_zero, connections_of, select_least_connections,
  select_service_by_tags,
}
use konsul.LoadBalancer.Turns.{in_turn, rotated, in_turn-rotated}
use konsul.LoadBalancer.Fewest.{has_fewer, select_least_connections-fewest}
use konsul.LoadBalancer.Chosen.{IsChoice, select_service_by_tags-IsChoice}

abbrev instance_of : String → Service
instance_of name = record {
  name = name;
  address = "10.0.0.1";
  port = pos 80;
  tags = "api" ∷ [];
  meta = [];
}

abbrev instances : List Service
instances = instance_of "a" ∷ instance_of "b" ∷ instance_of "c" ∷ []

abbrev balancer : Balancer
balancer = record {
  strategy = least_connections;
  counters = ("api", 7) ∷ [];
  connections = ("a:10.0.0.1:P", 2) ∷ ("b:10.0.0.1:P", 1) ∷ [];
}

abbrev as_letter : ℤ → String
as_letter n = "P"

abbrev last : ℕ → ℕ
last n = n - 1

last-below : (n : ℕ) → zero < n → last n < n
last-below n h = omega (arith, h)

in_turn-rotated_example :
    let i = or_zero (find "api" balancer.counters) % 3 in
    in_turn 3 "api" instances balancer ≡ map (λ v. some v) (rotated i instances)
unfolding find
in_turn-rotated_example = in_turn-rotated "api" instances balancer (omega arith) (omega arith)

abbrev IsNamed : Service → Type 0
IsNamed v = v.address ≡ "10.0.0.1"

select_least_connections-fewest_example :
    (chosen : Service) × ((select_least_connections as_letter instances balancer).0 ≡ some chosen)
    × IsNamed chosen
    × All (λ w. has_fewer as_letter balancer w chosen ≡ false) instances
    × ((u : Service)
        → connections_of as_letter (select_least_connections as_letter instances balancer).1 u
          ≡ connections_of as_letter balancer u)
select_least_connections-fewest_example =
    select_least_connections-fewest as_letter IsNamed (instance_of "a")
      (instance_of "b" ∷ instance_of "c" ∷ []) balancer (refl, (refl, (refl, tt)))

abbrev commands : List Command
commands = register 0 (instance_of "a") ∷ register 5 (instance_of "b") ∷ []

abbrev reached : Registry
reached = apply_all commands (new_registry 30)

select_service_by_tags-IsChoice_example :
    IsChoice 10
      ("api" ∷ [])
      reached
      (select_service_by_tags last as_letter 10 ("api" ∷ []) reached balancer).0
select_service_by_tags-IsChoice_example =
    select_service_by_tags-IsChoice last as_letter last-below 10 "api" [] reached balancer
      (reached-Agrees 30 commands)
