-- ===== src/Registry/Swap.antt =====
-- What compare-and-swap of internal/store/service.go promises.
use mathlib.Core.Bool.{false≢true}
use konsul.Prelude.{
  ℕ, ◌+◌, ◌<◌, ◌≤◌, true, false, String, Option, none, some, List, ◌≡◌, ◌↔◌, inl, inr, refl, sym,
  ap, ◌∙◌, arith, is_some,
}
use konsul.Prelude.Dict.{find}
use konsul.KvStore.Swap.{succeeds}
use konsul.Registry.{
  Entry, Registry, new_registry, Refusal, check_register, check_deregister, unless_refused,
  register_cas_local, deregister_cas_local,
}
use konsul.Registry.Validate.{Service, validate_service}
use konsul.Registry.Commands.{Command, apply_all}
use konsul.Registry.Fresh.{
  any_restore, all_writes, Newer, HasRoom, WasThere, core, or_entry, apply_all-Newer,
}

both {ℓ κ μ} : {A : Type ℓ} {B : Type κ} {C : Type μ} → A ↔ B → B ↔ C → A ↔ C
both (f, g) (h, k) = (λ a. h (f a), λ c. g (k c))

-- An entry that was read has an index that was given.
abbrev IsGiven : Entry → Registry → Type 0
IsGiven e s = (0 < e.modify_index) × (e.modify_index ≤ s.global_index)

-- An entry with a given index is there.
abbrev HasIndex : ℕ → Option Entry → Type 0
HasIndex k o = (old : Entry) × (o ≡ some old) × (old.modify_index ≡ k)

check_register-HasIndex :
    (k : ℕ) (o : Option Entry) → 0 < k → (check_register k o ≡ none) ↔ HasIndex k o
check_register-HasIndex k none h = (
  λ c. absurd (false≢true (ground (arith, c))),
  λ (old, f, same). absurd (false≢true (ap is_some f)),
)
check_register-HasIndex k (some e) h =
    (λ c. (e, refl, ground (arith, c)), λ (old, f, same). ground (arith, f, same))

check_deregister-HasIndex :
    (k : ℕ) (o : Option Entry) → (check_deregister k o ≡ none) ↔ HasIndex k o
check_deregister-HasIndex k none = (
  λ c. absurd (false≢true (sym (ap is_some c))),
  λ (old, f, same). absurd (false≢true (ap is_some f)),
)
check_deregister-HasIndex k (some e) =
    (λ c. (e, refl, ground (arith, c)), λ (old, f, same). ground (arith, f, same))

unless_refused-succeeds {ℓ} :
    {A : Type ℓ} (f : Option Refusal) (a : A) (changed s : Registry)
    → (succeeds (unless_refused f a changed s).0 ≡ true) ↔ (f ≡ none)
unless_refused-succeeds none a changed s = (λ h. refl, λ h. refl)
unless_refused-succeeds (some f) a changed s =
    (λ h. absurd (false≢true h), λ h. absurd (false≢true (sym (ap is_some h))))

-- Commands without a restart run on a new registry, an entry is read, and further commands
-- without a restart run.
module _ (ttl : ℕ) (before after : List Command) (n : String) (e : Entry)
    (none_before : any_restore before ≡ false) (none_after : any_restore after ≡ false)
    (room : HasRoom (all_writes before + all_writes after) (new_registry ttl))
    (found : find n (apply_all before (new_registry ttl)).data_ ≡ some e) where
  abbrev now_ : Registry
  now_ = apply_all after (apply_all before (new_registry ttl))

  first : Newer (all_writes before) (new_registry ttl) (apply_all before (new_registry ttl))
  first = apply_all-Newer before (new_registry ttl) none_before (omega (arith, room))

  later : Newer (all_writes after) (apply_all before (new_registry ttl)) now_
  later =
      apply_all-Newer after (apply_all before (new_registry ttl)) none_after
        (omega (arith, room, first.bound))

  given : IsGiven e (apply_all before (new_registry ttl))
  unfolding find
  given = elim (first.fresh n e found) [
    | inl (old, nothing, same) ↦ absurd (false≢true (ap is_some nothing))
    | inr g ↦ g
  ]

  same_entry : HasIndex e.modify_index (find n now_.data_) ↔ WasThere e (find n now_.data_)
  same_entry = (
    λ (old, now, same). elim (later.fresh n old now) [
      | inl (older, there, alike) ↦
          (old, now, sym alike ∙ ap (λ o. core (or_entry e o)) (sym there ∙ found))
      | inr (low, high) ↦ absurd (omega (arith, low, given.1, same))
    ],
    λ (old, now, alike). (old, now, ap (λ c. c.1) alike),
  )

  -- Commands without a restart run on a new registry, an entry is read, and further commands
  -- without a restart run. While the indices have room in 64 bits, a deregistration that expects the
  -- index of the entry succeeds exactly if the registry still has that registration, which
  -- heartbeats may have prolonged.
  pub deregister_cas-WasThere :
      (succeeds (deregister_cas_local n e.modify_index now_).0 ≡ true)
      ↔ WasThere e (find n now_.data_)
  unfolding deregister_cas_local
  deregister_cas-WasThere =
      both (unless_refused-succeeds (check_deregister e.modify_index (find n now_.data_)) _ _ _)
        (both (check_deregister-HasIndex e.modify_index (find n now_.data_)) same_entry)

  -- Commands without a restart run on a new registry, an entry is read, and further commands
  -- without a restart run. While the indices have room in 64 bits, the registration of a valid service
  -- under the entry's name that expects the entry's index succeeds exactly if the registry still
  -- has that registration, which heartbeats may have prolonged.
  pub register_cas-WasThere :
      (now : ℕ) (v : Service)
      → v.name ≡ n
      → validate_service v ≡ none
      → (succeeds (register_cas_local now v e.modify_index now_).0 ≡ true)
        ↔ WasThere e (find n now_.data_)
  unfolding register_cas_local
  register_cas-WasThere now v named valid =
      rw (valid, named)
        (both (unless_refused-succeeds (check_register e.modify_index (find n now_.data_)) _ _ _)
          (both (check_register-HasIndex e.modify_index (find n now_.data_) given.0) same_entry))
