-- ===== src/Registry/Fresh.antt =====
-- The indices that internal/store/service.go gives: what a compare-and-swap can rely on.
use mathlib.Core.Bool.{false≢true}
use konsul.Prelude.{
  is_some, ℕ, suc, ◌+◌, ◌^◌, ◌≤◌, ◌<◌, Bool, true, false, String, Option, none, some, List, [], ◌∷◌,
  ◌≡◌, ◌⊎◌, inl, inr, refl, sym, ap, ◌∙◌, arith, str_eq, eq_iff, if◌then◌else◌, Bool-cases,
}
use konsul.Prelude.Dict.{find, find-put, find-erase}
use konsul.Prelude.Keys.{keys}
use konsul.KvStore.{next_index}
use konsul.Registry.{
  Entry, Registry, leave_indices, created, store_service, unless_invalid, register_local,
  deregister_local, Refusal, unless_refused, register_cas_local, deregister_cas_local, extended,
  heartbeat_local, is_over, cleanup_one, cleanup_names, cleanup_expired,
}
use konsul.Registry.Validate.{Service, Invalid}
use konsul.Registry.Agrees.{leave_indices-data}
use konsul.Registry.Commands.{
  Command, register, deregister, heartbeat, register_cas, deregister_cas, cleanup, restore, apply,
  apply_all,
}

-- How many entries a command writes at most, and how many a log does.
abbrev pub writes : Command → ℕ
writes (register now service) = 1
writes (deregister name) = 0
writes (heartbeat now name) = 0
writes (register_cas now service expected) = 1
writes (deregister_cas name expected) = 0
writes (cleanup now) = 0
writes restore = 0

abbrev pub all_writes : List Command → ℕ
all_writes [] = 0
all_writes (c ∷ cs) = writes c + all_writes cs

abbrev pub is_restore : Command → Bool
is_restore restore = true
is_restore (register now service) = false
is_restore (deregister name) = false
is_restore (heartbeat now name) = false
is_restore (register_cas now service expected) = false
is_restore (deregister_cas name expected) = false
is_restore (cleanup now) = false

abbrev pub any_restore : List Command → Bool
any_restore [] = false
any_restore (c ∷ cs) = if is_restore c then true else any_restore cs

-- What a heartbeat leaves of an entry.
abbrev pub core : Entry → Service × ℕ × ℕ
core e = (e.service, e.modify_index, e.create_index)

-- Whether an entry was there, but for its time.
abbrev pub WasThere : Entry → Option Entry → Type 0
WasThere e o = (old : Entry) × (o ≡ some old) × (core old ≡ core e)

-- The registry went on by at most `n` indices, and an entry is as it was, but for its time, or has
-- a newer index.
pub record Newer (n : ℕ) (s s' : Registry) : Type 0 where
  pub grows : s.global_index ≤ s'.global_index
  pub bound : s'.global_index ≤ s.global_index + n
  pub fresh :
      (key : String) (e : Entry)
      → find key s'.data_ ≡ some e
      → WasThere e (find key s.data_)
        ⊎ ((s.global_index < e.modify_index) × (e.modify_index ≤ s'.global_index))

-- Room for `n` more indices in 64 bits.
abbrev pub HasRoom : ℕ → Registry → Type 0
HasRoom n s = s.global_index + n < 2 ^ 64

Newer-refl : (n : ℕ) (s : Registry) → Newer n s s
Newer-refl n s = record {
  grows = omega arith;
  bound = omega arith;
  fresh = λ key e h. inl (e, h, refl);
}

Newer-trans : (n m : ℕ) (s s' s'' : Registry) → Newer n s s' → Newer m s' s'' → Newer (n + m) s s''
Newer-trans n m s s' s'' a b = record {
  grows = omega (arith, a.grows, b.grows);
  bound = omega (arith, a.bound, b.bound);
  fresh = λ key e h. elim (b.fresh key e h) [
    | inl (old, k, same) ↦ elim (a.fresh key old k) [
      | inl (older, j, also) ↦ inl (older, j, also ∙ same)
      | inr (low, high) ↦
          let e_ : old.modify_index ≡ e.modify_index = ap (λ c. c.1) same in
          inr (omega (arith, e_, low), omega (arith, e_, b.grows, high))
    ]
    | inr (low, high) ↦ inr (omega (arith, a.grows, low), high)
  ];
}

either :
    (b : Bool) (x y : Option Entry) (e : Entry)
    → (if b then x else y) ≡ some e
    → (x ≡ some e) ⊎ (y ≡ some e)
either true x y e h = inl h
either false x y e h = inr h

abbrev pub or_entry : Entry → Option Entry → Entry
or_entry e none = e
or_entry e (some f) = f

abbrev index_of : Option Entry → ℕ
index_of none = 0
index_of (some e) = e.modify_index

leave_indices-index :
    (name : String) (o : Option Entry) (s : Registry)
    → (leave_indices name o s).global_index ≡ s.global_index
leave_indices-index name none s = refl
leave_indices-index name (some e) s = refl

-- The entry that a registration makes.
abbrev pub registered : ℕ → Service → Registry → Entry
registered now service s = record {
  service = service;
  expires_at = now + s.ttl;
  modify_index = next_index s.global_index;
  create_index = created (find service.name s.data_) (next_index s.global_index);
}

pub store_service-find :
    (now : ℕ) (service : Service) (s : Registry) (key : String)
    → find key (store_service now service s).data_
      ≡ (if str_eq service.name key then some (registered now service s) else find key s.data_)
unfolding store_service
store_service-find now service s key =
    rw (leave_indices-data service.name (find service.name s.data_) s)
      (find-put service.name (registered now service s) key s.data_)

store_service-Newer :
    (now : ℕ) (service : Service) (s : Registry)
    → HasRoom 1 s
    → Newer 1 s (store_service now service s)
unfolding store_service
store_service-Newer now service s h =
    let step : next_index s.global_index ≡ suc s.global_index = omega (arith, h) in
    record {
      grows = omega (arith, step);
      bound = omega (arith, step);
      fresh = λ key e found.
          elim (either (str_eq service.name key) (some (registered now service s))
            (find key s.data_) e (sym (store_service-find now service s key) ∙ found)) [
              | inl new ↦
                  let index = ap index_of new in
                  inr (omega (arith, step, index), omega (arith, step, index))
              | inr old ↦ inl (e, old, refl)
            ];
    }

deregister_local-Newer : (name : String) (s : Registry) → Newer 0 s (deregister_local name s)
unfolding deregister_local
deregister_local-Newer name s = record {
  grows = rw (leave_indices-index name (find name s.data_) s) (omega arith);
  bound = rw (leave_indices-index name (find name s.data_) s) (omega arith);
  fresh = λ key e found.
      elim (either (str_eq name key) none (find key s.data_) e
        (sym (find-erase name key s.data_) ∙ found)) [
          | inl gone ↦ absurd (false≢true (ap is_some gone))
          | inr old ↦ inl (e, old, refl)
        ];
}

extended-Newer :
    (now : ℕ) (name : String) (s : Registry) (o : Option Entry)
    → find name s.data_ ≡ o
    → Newer 0 s (extended now s o name).1
extended-Newer now name s none h = Newer-refl 0 s
extended-Newer now name s (some old) h =
    let longer = record old { expires_at = now + s.ttl } in
    record {
      grows = omega arith;
      bound = omega arith;
      fresh = λ key e found. elim (Bool-cases (str_eq name key)) [
        | inl same ↦ inl (
          old,
          ap (λ k. find k s.data_) (sym ((eq_iff name key).0 same)) ∙ h,
          ap (λ x. core (or_entry old x))
              (sym (rw same at (find-put name longer key s.data_)) ∙ found),
        )
        | inr other ↦ inl (e, sym (rw other at (find-put name longer key s.data_)) ∙ found, refl)
      ];
    }

cleanup_one-Newer :
    (b : Bool) (name : String) (r : ℕ × Registry) → Newer 0 r.1 (cleanup_one b name r).1
cleanup_one-Newer true name (n, s) = deregister_local-Newer name s
cleanup_one-Newer false name r = Newer-refl 0 r.1

cleanup_names-Newer :
    (now : ℕ) (names : List String) (r : ℕ × Registry) → Newer 0 r.1 (cleanup_names now names r).1
unfolding cleanup_names
cleanup_names-Newer now [] r = Newer-refl 0 r.1
cleanup_names-Newer now (name ∷ names) r =
    Newer-trans 0 0 r.1 _ _ (cleanup_one-Newer (is_over now (find name r.1.data_)) name r)
      (cleanup_names-Newer now names _)

unless_invalid-Newer :
    (n : ℕ) (o : Option Invalid) (changed s : Registry)
    → Newer n s changed
    → Newer n s (unless_invalid o changed s).1
unless_invalid-Newer n none changed s h = h
unless_invalid-Newer n (some f) changed s h = Newer-refl n s

unless_refused-Newer :
    {A : Type 0} (n : ℕ) (o : Option Refusal) (answer : A) (changed s : Registry)
    → Newer n s changed
    → Newer n s (unless_refused o answer changed s).1
unless_refused-Newer n none answer changed s h = h
unless_refused-Newer n (some f) answer changed s h = Newer-refl n s

apply-Newer :
    (c : Command) (s : Registry)
    → is_restore c ≡ false
    → HasRoom (writes c) s
    → Newer (writes c) s (apply c s)
unfolding apply register_local register_cas_local deregister_cas_local heartbeat_local
    cleanup_expired
apply-Newer (register now service) s l h =
    unless_invalid-Newer 1 _ _ s (store_service-Newer now service s h)
apply-Newer (deregister name) s l h = deregister_local-Newer name s
apply-Newer (heartbeat now name) s l h = extended-Newer now name s (find name s.data_) refl
apply-Newer (register_cas now service expected) s l h =
    unless_refused-Newer 1 _ _ _ s (store_service-Newer now service s h)
apply-Newer (deregister_cas name expected) s l h =
    unless_refused-Newer 0 _ _ _ s (deregister_local-Newer name s)
apply-Newer (cleanup now) s l h = cleanup_names-Newer now (keys s.data_) (0, s)
apply-Newer restore s l h = absurd (false≢true (sym l))

pub apply_all-Newer :
    (cs : List Command) (s : Registry)
    → any_restore cs ≡ false
    → HasRoom (all_writes cs) s
    → Newer (all_writes cs) s (apply_all cs s)
unfolding apply_all
apply_all-Newer [] s l h = Newer-refl 0 s
apply_all-Newer (c ∷ cs) s l h =
    let first = apply-Newer c s (ground (arith, l)) (omega (arith, h)) in
    Newer-trans (writes c) (all_writes cs) s _ _ first
      (apply_all-Newer cs _ (ground (arith, l)) (omega (arith, h, first.bound)))
