-- ===== src/KvStore/Index.antt =====
-- The indices of internal/store/kv.go: what a compare-and-swap can rely on.
use mathlib.Core.Bool.{false≢true}
use konsul.Prelude.{
  is_some, ℕ, suc, ◌+◌, ◌^◌, ◌≤◌, ◌<◌, Bool, true, false, String, Option, none, some, List, [], ◌∷◌,
  ◌≡◌, ◌⊎◌, inl, inr, sym, ap, ◌∙◌, arith, length, str_eq, if◌then◌else◌,
}
use konsul.Prelude.Dict.{find, find-put, find-erase}
use konsul.KvStore.{
  KvEntry, Store, CasFault, Command, set, set_with_flags, set_cas, delete, delete_cas, batch_set,
  batch_set_cas, batch_delete, batch_delete_cas, next_index, written, kept_flags, write, set_local,
  set_with_flags_local, unless, set_cas_local, delete_local, delete_cas_local, batch_set_local,
  batch_delete_local, batch_set_cas_local, batch_delete_cas_local, apply, apply_all,
}

-- How many entries a command writes at most, and how many a log does.
abbrev pub writes : Command → ℕ
writes (set key value) = 1
writes (set_with_flags key value flags) = 1
writes (set_cas key value expected) = 1
writes (delete key) = 0
writes (delete_cas key expected) = 0
writes (batch_set items) = length items
writes (batch_set_cas items expected) = length items
writes (batch_delete keys) = 0
writes (batch_delete_cas keys expected) = 0

abbrev pub all_writes : List Command → ℕ
all_writes [] = 0
all_writes (c ∷ cs) = writes c + all_writes cs

-- The store went on by at most `n` indices, and an entry is as it was or has a newer index.
pub record Newer (n : ℕ) (s s' : Store) : Type 0 where
  pub grows : s.global_index ≤ s'.global_index
  pub bound : s'.global_index ≤ s.global_index + n
  pub fresh :
      (key : String) (e : KvEntry)
      → find key s'.data_ ≡ some e
      → (find key s.data_ ≡ some e)
        ⊎ ((s.global_index < e.modify_index) × (e.modify_index ≤ s'.global_index))

-- Room for `n` more indices in 64 bits.
abbrev pub HasRoom : ℕ → Store → Type 0
HasRoom n s = s.global_index + n < 2 ^ 64

Newer-refl : (n : ℕ) (s : Store) → Newer n s s
Newer-refl n s = record { grows = omega arith; bound = omega arith; fresh = λ key e h. inl h }

Newer-trans : (n m : ℕ) (s s' s'' : Store) → Newer n s s' → Newer m s' s'' → Newer (n + m) s s''
Newer-trans n m s s' s'' a b = record {
  grows = omega (arith, a.grows, b.grows);
  bound = omega (arith, a.bound, b.bound);
  fresh = λ key e h. elim (b.fresh key e h) [
    | inl k ↦ elim (a.fresh key e k) [
      | inl j ↦ inl j
      | inr (low, high) ↦ inr (low, omega (arith, b.grows, high))
    ]
    | inr (low, high) ↦ inr (omega (arith, a.grows, low), high)
  ];
}

Newer-weaken : (n m : ℕ) (s s' : Store) → n ≤ m → Newer n s s' → Newer m s s'
Newer-weaken n m s s' h a = record {
  grows = a.grows;
  bound = omega (arith, h, a.bound);
  fresh = a.fresh;
}

next_index-suc : (s : Store) → HasRoom 1 s → next_index s.global_index ≡ suc s.global_index
next_index-suc s h = omega arith

abbrev pub index_of : Option KvEntry → ℕ
index_of none = 0
index_of (some e) = e.modify_index

either :
    (b : Bool) (x y : Option KvEntry) (e : KvEntry)
    → (if b then x else y) ≡ some e
    → (x ≡ some e) ⊎ (y ≡ some e)
either true x y e h = inl h
either false x y e h = inr h

write-Newer :
    (key value : String) (flags : ℕ) (s : Store) → HasRoom 1 s → Newer 1 s (write key value flags s)
write-Newer key value flags s h =
    let step = next_index-suc s h in
    record {
      grows = omega (arith, step);
      bound = omega (arith, step);
      fresh = λ k e found.
          elim (either (str_eq key k) (some (written key value flags s)) (find k s.data_) e
            (sym (find-put key (written key value flags s) k s.data_) ∙ found)) [
              | inl new ↦
                  inr (omega (arith, step, ap index_of new), omega (arith, step, ap index_of new))
              | inr old ↦ inl old
            ];
    }

delete-Newer : (key : String) (s : Store) → Newer 0 s (delete_local key s)
unfolding delete_local
delete-Newer key s = record {
  grows = omega arith;
  bound = omega arith;
  fresh = λ k e found.
      elim (either (str_eq key k) none (find k s.data_) e
        (sym (find-erase key k s.data_) ∙ found)) [
          | inl gone ↦ absurd (false≢true (ap is_some gone))
          | inr old ↦ inl old
        ];
}

batch_set-Newer :
    (items : List (String × String)) (s : Store)
    → HasRoom (length items) s
    → Newer (length items) s (batch_set_local items s)
unfolding batch_set_local set_local
batch_set-Newer [] s h = Newer-refl 0 s
batch_set-Newer ((key, value) ∷ items) s h =
    let first = write-Newer key value (kept_flags (find key s.data_)) s (omega arith) in
    Newer-weaken (1 + length items) (suc (length items)) s _ (omega arith) (
      Newer-trans 1 (length items) s _ _ first
        (batch_set-Newer items _ (omega (arith, first.bound))))

batch_delete-Newer : (keys : List String) (s : Store) → Newer 0 s (batch_delete_local keys s)
unfolding batch_delete_local
batch_delete-Newer [] s = Newer-refl 0 s
batch_delete-Newer (key ∷ keys) s =
    Newer-trans 0 0 s _ _ (delete-Newer key s) (batch_delete-Newer keys _)

unless-Newer {ℓ} :
    {A : Type ℓ} (n : ℕ) (f : Option CasFault) (answer : A) (changed s : Store)
    → Newer n s changed
    → Newer n s (unless f answer changed s).1
unless-Newer n none answer changed s h = h
unless-Newer n (some f) answer changed s h = Newer-refl n s

apply-Newer : (c : Command) (s : Store) → HasRoom (writes c) s → Newer (writes c) s (apply c s)
unfolding apply set_local set_with_flags_local set_cas_local delete_cas_local batch_set_cas_local
    batch_delete_cas_local
apply-Newer (set key value) s h = write-Newer key value (kept_flags (find key s.data_)) s h
apply-Newer (set_with_flags key value flags) s h = write-Newer key value flags s h
apply-Newer (set_cas key value expected) s h =
    unless-Newer 1 _ _ _ s (write-Newer key value (kept_flags (find key s.data_)) s h)
apply-Newer (delete key) s h = delete-Newer key s
apply-Newer (delete_cas key expected) s h = unless-Newer 0 _ _ _ s (delete-Newer key s)
apply-Newer (batch_set items) s h = batch_set-Newer items s h
apply-Newer (batch_set_cas items expected) s h =
    unless-Newer (length items) _ _ _ s (batch_set-Newer items s h)
apply-Newer (batch_delete keys) s h = batch_delete-Newer keys s
apply-Newer (batch_delete_cas keys expected) s h =
    unless-Newer 0 _ _ _ s (batch_delete-Newer keys s)

pub apply_all-Newer :
    (cs : List Command) (s : Store)
    → HasRoom (all_writes cs) s
    → Newer (all_writes cs) s (apply_all cs s)
unfolding apply_all
apply_all-Newer [] s h = Newer-refl 0 s
apply_all-Newer (c ∷ cs) s h =
    let first = apply-Newer c s (omega arith) in
    Newer-trans (writes c) (all_writes cs) s _ _ first
      (apply_all-Newer cs _ (omega (arith, first.bound)))
