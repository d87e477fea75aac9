-- ===== src/LoadBalancer/Chosen.antt =====
-- What internal/loadbalancer/balancer.go chooses among the services of the registry.
use mathlib.Core.Path.{subst}
use native.Mathlib.Nat.{mod-lt}
use konsul.Prelude.{
  ℕ, zero, suc, ◌%◌, ◌<◌, true, String, Option, none, some, List, [], ◌∷◌, ◌++◌, ◌≡◌, refl, sym, ap,
  ◌∙◌, arith, ltb, map, All, length, eq_iff, eq_refl, if◌then◌else◌, Bool-cases, inl, inr,
}
use konsul.Prelude.Dict.{Dict, find}
use konsul.Prelude.Names.{has, sort, has-sort}
use konsul.Registry.{Entry, Registry, or_empty}
use konsul.Registry.Validate.{Service, ℤ}
use konsul.Registry.Agrees.{Agrees, is_named}
use konsul.Registry.Query.{offered, intersect, offer_names, query_by_tags}
use konsul.Registry.Query.Answers.{
  has_tags, live, named, has-intersect, in_all-tags, query_by_tags-live,
}
use konsul.LoadBalancer.{
  Balancer, Strategy, round_robin, weighted_round_robin, random, weighted_random, least_connections,
  ip_hash, ring_hash, latency_based, nth, select_round_robin, select_among, select_service_by_tags,
}
use konsul.LoadBalancer.Fewest.{select_least_connections-fewest}

-- The registry offers the service: it stands under its name, has the tags and has not expired.
abbrev pub IsOffered : ℕ → List String → Registry → Service → Type 0
IsOffered now tags s v =
    (e : Entry) × (find v.name s.data_ ≡ some e)
    × (e.service ≡ v)
    × (now < e.expires_at)
    × (has_tags tags (some e) ≡ true)

module _ (now : ℕ) (tags : List String) (s : Registry) (a : Agrees s) where
  -- The names of services that have the tags.
  abbrev HasTags : String → Type 0
  HasTags n = has_tags tags (find n s.data_) ≡ true

  offered-IsOffered :
      (n : String) (o : Option Entry) (vs : List Service)
      → find n s.data_ ≡ o
      → has_tags tags o ≡ true
      → All (IsOffered now tags s) vs
      → All (IsOffered now tags s) (offered now o ++ vs)
  offered-IsOffered n none vs h t rest = rest
  offered-IsOffered n (some e) vs h t rest = elim (Bool-cases (ltb now e.expires_at)) [
    | inl live_ ↦
        rw live_ ((e, ap (λ m. find m s.data_) named_ ∙ h, refl, ground (arith, live_), t), rest)
    | inr over ↦ rw over rest
  ]
    where
      named_ : e.service.name ≡ n
      named_ = (eq_iff e.service.name n).0 (sym (ap (is_named n) h) ∙ a.by_name n)

  offer_names-IsOffered :
      (names : List String)
      → All HasTags names
      → All (IsOffered now tags s) (offer_names now s.data_ names)
  unfolding offer_names
  offer_names-IsOffered [] h = tt
  offer_names-IsOffered (n ∷ names) (t, h) =
      offered-IsOffered n (find n s.data_) _ refl t (offer_names-IsOffered names h)

All-has {κ} :
    (P : String → Type κ) (ns : List String) → ((n : String) → has n ns ≡ true → P n) → All P ns
unfolding has
All-has P [] h = tt
All-has P (n ∷ ns) h =
    (h n (ground (arith, eq_refl n)), All-has P ns (λ m k. h m (ground (arith, k))))

query_by_tags-IsOffered :
    (now : ℕ) (tag : String) (tags : List String) (s : Registry)
    → Agrees s
    → All (IsOffered now (tag ∷ tags) s) (query_by_tags now (tag ∷ tags) s)
unfolding query_by_tags
query_by_tags-IsOffered now tag tags s a =
    offer_names-IsOffered now (tag ∷ tags) s a (sort candidates) (
      All-has (HasTags now (tag ∷ tags) s a) (sort candidates) (λ n h. ground (
        arith,
        h,
        has-sort n candidates,
        a.by_tag tag n,
        in_all-tags n tags s a,
        has-intersect n sets (or_empty (find tag s.tag_index)),
      )))
  where
    sets : List (Option (List String))
    sets = map (λ t. find t s.tag_index) tags

    candidates : List String
    candidates = intersect (map (λ t. find t s.tag_index) tags) (or_empty (find tag s.tag_index))

-- The choice from a list gives one of its services.
abbrev Chooses : (Service → Type 0) → Option Service → Type 0
Chooses P o = (w : Service) × (o ≡ some w) × P w

nth-Chooses :
    (P : Service → Type 0) (i : ℕ) (vs : List Service)
    → i < length vs
    → All P vs
    → Chooses P (nth i vs)
nth-Chooses P i [] h ps = absurd (omega (arith, h))
nth-Chooses P zero (v ∷ vs) h (p, ps) = (v, refl, p)
nth-Chooses P (suc i) (v ∷ vs) h (p, ps) = nth-Chooses P i vs (omega (arith, h)) ps

by_turns :
    (P : Service → Type 0) (v : Service) (vs : List Service) (i : ℕ)
    → All P (v ∷ vs)
    → Chooses P (nth (i % length (v ∷ vs)) (v ∷ vs))
by_turns P v vs i ps = nth-Chooses P (i % length (v ∷ vs)) (v ∷ vs) (mod-lt i (omega arith)) ps

-- What may be chosen for tags: a service that the registry offers, or none where it offers none.
abbrev pub IsChoice : ℕ → List String → Registry → Option Service → Type 0
IsChoice now tags s none =
    (n : String)
    → (if has_tags tags (find n s.data_) then live now (find n s.data_) else none) ≡ none
IsChoice now tags s (some v) = IsOffered now tags s v

module _ (intn : ℕ → ℕ) (rune_text : ℤ → String) (below : (n : ℕ) → 0 < n → intn n < n) where
  by_strategy :
      (P : Service → Type 0) (k : Strategy) (v : Service) (vs : List Service) (counters : Dict ℕ)
      (connections : Dict ℕ)
      → All P (v ∷ vs)
      → Chooses P
          (select_among intn rune_text
            (v ∷ vs)
            (record { strategy = k; counters = counters; connections = connections })).0
  unfolding select_among select_round_robin
  by_strategy P random v vs c d ps =
      nth-Chooses P (intn (length (v ∷ vs))) (v ∷ vs) (below (length (v ∷ vs)) (omega arith)) ps
  by_strategy P least_connections v vs c d ps =
      let (w, e, p, _, _) =
        select_least_connections-fewest rune_text P v vs
          (record { strategy = least_connections; counters = c; connections = d }) ps in
      (w, e, p)
  by_strategy P round_robin v vs c d ps = by_turns P v vs _ ps
  by_strategy P weighted_round_robin v vs c d ps = by_turns P v vs _ ps
  by_strategy P weighted_random v vs c d ps = by_turns P v vs _ ps
  by_strategy P ip_hash v vs c d ps = by_turns P v vs _ ps
  by_strategy P ring_hash v vs c d ps = by_turns P v vs _ ps
  by_strategy P latency_based v vs c d ps = by_turns P v vs _ ps

  among-IsChoice :
      (now : ℕ) (tags : List String) (s : Registry) (b : Balancer) (vs : List Service)
      → ((n : String)
          → named n vs
            ≡ (if has_tags tags (find n s.data_) then live now (find n s.data_) else none))
      → All (IsOffered now tags s) vs
      → IsChoice now tags s (select_among intn rune_text vs b).0
  unfolding select_among named
  among-IsChoice now tags s b [] h ps = λ n. sym (h n)
  among-IsChoice now tags s b (v ∷ vs) h ps =
      let (w, e, p) =
        by_strategy (IsOffered now tags s) b.strategy v vs b.counters b.connections ps in
      subst (IsChoice now tags s) (sym e) p

  -- With at least one tag, whatever the strategy, the choice is a service that the registry offers
  -- under its name, that has all the tags and has not expired; there is no choice exactly where
  -- the registry offers no such service. Random numbers are below their bound, and the indices of
  -- the registry agree with its entries.
  pub select_service_by_tags-IsChoice :
      (now : ℕ) (tag : String) (tags : List String) (s : Registry) (b : Balancer)
      → Agrees s
      → IsChoice now (tag ∷ tags) s (select_service_by_tags intn rune_text now (tag ∷ tags) s b).0
  unfolding select_service_by_tags
  select_service_by_tags-IsChoice now tag tags s b a =
      among-IsChoice now (tag ∷ tags) s b (query_by_tags now (tag ∷ tags) s)
        (λ n. query_by_tags-live now n (tag ∷ tags) s a) (query_by_tags-IsOffered now tag tags s a)
