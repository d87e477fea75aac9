-- ===== src/KvStore/Swap.antt =====
-- What compare-and-swap of internal/store/kv.go promises, and what a snapshot takes away.
use mathlib.Core.Bool.{false≢true}
use konsul.Prelude.{
  ℕ, ◌+◌, ◌<◌, ◌≤◌, true, false, String, Option, none, some, List, ◌≡◌, ◌↔◌, ◌⊎◌, inl, inr, refl,
  sym, ap, ◌∙◌, arith, ◌==◌, Bool, Bool-cases, eq_refl, is_some,
}
use konsul.Prelude.Dict.{find, find-put}
use konsul.KvStore.{
  KvEntry, Store, empty, CasFault, Command, written, check_set, unless, set_local, set_cas_local,
  delete_local, restore_from_snapshot, apply_all, next_index, max_index, kept_flags,
}
use konsul.KvStore.Index.{all_writes, Newer, HasRoom, apply_all-Newer}

-- An entry that was read has an index that was given.
abbrev IsGiven : KvEntry → Store → Type 0
IsGiven e s = (0 < e.modify_index) × (e.modify_index ≤ s.global_index)

read-IsGiven :
    (before : List Command) (key : String) (e : KvEntry)
    → HasRoom (all_writes before) empty
    → find key (apply_all before empty).data_ ≡ some e
    → IsGiven e (apply_all before empty)
unfolding find
read-IsGiven before key e room found =
    elim ((apply_all-Newer before empty room).fresh key e found) [
      | inl nothing ↦ absurd (false≢true (ap is_some nothing))
      | inr given ↦ given
    ]

-- The condition of a write with the index of an entry.
check_same :
    (key : String) (e : KvEntry) → 0 < e.modify_index → check_set key e.modify_index (some e) ≡ none
check_same key e h = ground arith

-- A write whose condition holds of an index that is not 0 found an entry with that index.
check_passes :
    (key : String) (n : ℕ) (o : Option KvEntry)
    → 0 < n
    → check_set key n o ≡ none
    → (old : KvEntry) × (o ≡ some old) × (old.modify_index ≡ n)
check_passes key n none h c = elim (Bool-cases (n == 0)) [
  | inl e ↦ absurd (false≢true (ground arith))
  | inr e ↦ absurd (false≢true (sym (ap is_some (rw e at c))))
]
check_passes key n (some old) h c = elim (Bool-cases (old.modify_index == n)) [
  | inl e ↦ (old, refl, ground arith)
  | inr e ↦ absurd (false≢true (sym (ap is_some (rw (positive, e) at c))))
]
  where
    positive : n == 0 ≡ false
    positive = ground arith

abbrev pub succeeds {ℓ κ} : {F : Type κ} {A : Type ℓ} → F ⊎ A → Bool
succeeds (inl f) = false
succeeds (inr a) = true

unless-none {ℓ} :
    {A : Type ℓ} (f : Option CasFault) (a : A) (changed s : Store)
    → succeeds (unless f a changed s).0 ≡ true
    → f ≡ none
unless-none none a changed s h = refl
unless-none (some f) a changed s h = absurd (false≢true h)

same_entry :
    (s t : Store) (n : ℕ) (key : String) (e old : KvEntry)
    → Newer n s t
    → IsGiven e s
    → find key s.data_ ≡ some e
    → find key t.data_ ≡ some old
    → old.modify_index ≡ e.modify_index
    → find key t.data_ ≡ some e
same_entry s t n key e old newer given found now same = elim (newer.fresh key old now) [
  | inl kept ↦ now ∙ sym kept ∙ found
  | inr (low, high) ↦ absurd (omega (arith, low, given.1, same))
]

-- Commands run on the empty store; an entry is read and further commands run. While the indices
-- have room in 64 bits, a write that expects the index of the entry succeeds exactly if the key
-- still has this entry.
pub swap_read-find :
    (before after : List Command) (key value : String) (e : KvEntry)
    → HasRoom (all_writes before + all_writes after) empty
    → find key (apply_all before empty).data_ ≡ some e
    → let t = apply_all after (apply_all before empty) in
      (succeeds (set_cas_local key value e.modify_index t).0 ≡ true) ↔ (find key t.data_ ≡ some e)
unfolding set_cas_local
swap_read-find before after key value e room found =
    let s = apply_all before empty in
    let t = apply_all after s in
    let first = apply_all-Newer before empty (omega arith) in
    let given = read-IsGiven before key e (omega arith) found in
    let later = apply_all-Newer after s (omega (arith, first.bound)) in
    (
      λ h.
          let (old, now, same) =
            check_passes key e.modify_index (find key t.data_) given.0 (unless-none _ _ _ _ h) in
          same_entry s t (all_writes after) key e old later given found now same,
      λ now. rw (now, check_same key e given.0) refl,
    )

-- A write that expects the index of the entry which is there.
swap_found :
    (key value : String) (n : ℕ) (e : KvEntry) (s : Store)
    → find key s.data_ ≡ some e
    → e.modify_index ≡ n
    → 0 < n
    → succeeds (set_cas_local key value n s).0 ≡ true
unfolding set_cas_local
swap_found key value n e s found same positive =
    rw (found, sym same, check_same key e (omega (arith, same, positive))) refl

-- A key is set and deleted, the store is restored from its own snapshot, whose largest index is the
-- one before that write, and the key is set again: the second entry has the index of the first, so
-- that a write which expects the first succeeds. The next index is not 0.
pub restore-swap :
    (key v w x : String) (s : Store)
    → 0 < next_index s.global_index
    → max_index (delete_local key (set_local key v s)).data_ ≡ s.global_index
    → let first = set_local key v s in
      let deleted = delete_local key first in
      let again = set_local key w (restore_from_snapshot deleted.data_ deleted) in
      (e f : KvEntry) × (find key first.data_ ≡ some e)
      × (find key again.data_ ≡ some f)
      × (e.value ≡ v)
      × (f.value ≡ w)
      × (f.modify_index ≡ e.modify_index)
      × (succeeds (set_cas_local key x e.modify_index again).0 ≡ true)
unfolding set_local restore_from_snapshot
restore-swap key v w x s positive largest =
    let first = set_local key v s in
    let deleted = delete_local key first in
    let restored = restore_from_snapshot deleted.data_ deleted in
    let e = written key v (kept_flags (find key s.data_)) s in
    let f = written key w (kept_flags (find key deleted.data_)) restored in
    let second : find key (set_local key w restored).data_ ≡ some f =
      ground (arith, eq_refl key, find-put key f key restored.data_) in
    let same : f.modify_index ≡ e.modify_index = ap next_index largest in
    (
      e,
      f,
      ground (arith, eq_refl key, find-put key e key s.data_),
      second,
      refl,
      refl,
      same,
      swap_found key x e.modify_index f (set_local key w restored) second same positive,
    )
