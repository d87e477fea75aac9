-- ===== src/Watch/Kept.antt =====
-- What internal/watch/manager.go keeps: the lists of the patterns, and the counts of the clients.
use konsul.Prelude.{
  ℕ, suc, ◌+◌, ◌-◌, ◌≤◌, ◌<◌, true, false, ◌&&◌, String, Option, none, some, List, [], ◌∷◌, ◌++◌,
  ◌≡◌, refl, arith, str_eq, eq_iff, if◌then◌else◌,
}
use konsul.Prelude.Dict.{Dict, find, put, erase, find-put, find-erase}
use konsul.Prelude.Names.{has, count, remove_first, count-append, count-remove_first}
use konsul.Prelude.Text.{nonempty}
use konsul.Prelude.Keys.{keys, differ, distinct, find-has, distinct-put, distinct-erase}
use konsul.Registry.{or_empty, put_unless_empty}
use konsul.Registry.Index.{stored}
use konsul.Watch.{
  Watcher, Manager, new_manager, count_or_zero, count_of, is_over_limit, with_watcher, drop_count,
  removed,
}
use konsul.Watch.Delivery.{IsIndexed}

-- The watchers of a user.
abbrev pub number : String → Dict Watcher → ℕ
number user [] = 0
number user ((id, w) ∷ ws) = (if str_eq w.user_id user then 1 else 0) + number user ws

abbrev pub is_of : String → Option Watcher → ℕ
is_of user none = 0
is_of user (some w) = if str_eq w.user_id user then 1 else 0

number-erase :
    (user id : String) (ws : Dict Watcher)
    → distinct ws ≡ true
    → number user ws ≡ number user (erase id ws) + is_of user (find id ws)
unfolding erase find keys differ has
number-erase user id [] d = ground arith
number-erase user id ((k, w) ∷ ws) d =
    ground (arith, d, number-erase user id ws, eq_iff k id, find-has k ws)

-- Each user's count is the number of their watchers, and within the limit, where there is one.
pub record IsKept (m : Manager) : Type 0 where
  pub indexed : IsIndexed m
  pub distinct_ids : distinct m.watchers ≡ true
  pub counts : (user : String) → nonempty user ≡ true → count_of user m ≡ number user m.watchers
  pub limited :
      (user : String)
      → 0 < m.max_per_client
      → nonempty user ≡ true
      → number user m.watchers ≤ m.max_per_client

pub new_manager-IsKept : (size limit : ℕ) → IsKept (new_manager size limit)
unfolding find keys differ count
new_manager-IsKept size limit = record {
  indexed = record { listing = λ id p. refl; differing = refl };
  distinct_ids = refl;
  counts = λ user n. refl;
  limited = λ user l n. omega arith;
}

-- A watcher whose pattern and user stay what they were.
one : (id j : String) → count j (id ∷ []) ≡ (if str_eq id j then 1 else 0)
unfolding count
one id j = ground arith

pub change-IsKept :
    (m : Manager) (id : String) (w w' : Watcher)
    → find id m.watchers ≡ some w
    → w'.pattern ≡ w.pattern
    → w'.user_id ≡ w.user_id
    → IsKept m
    → IsKept (record m { watchers = put id w' m.watchers })
unfolding put
change-IsKept m id w w' h pattern user k =
    let same : (u : String) → number u (put id w' m.watchers) ≡ number u m.watchers =
      (λ u. ground (arith, h, user, number-erase u id m.watchers k.distinct_ids)) in
    record {
      indexed = record {
        listing = λ j p.
            ground
              (arith, k.indexed.listing j p, h, pattern, find-put id w' j m.watchers, eq_iff id j);
        differing = k.indexed.differing;
      };
      distinct_ids = distinct-put id w' m.watchers k.distinct_ids;
      counts = λ u n. ground (arith, k.counts u n, same u);
      limited = λ u l n. ground (arith, k.limited u l n, same u);
    }

pub with_watcher-IsKept :
    (m : Manager) (id : String) (w : Watcher)
    → find id m.watchers ≡ none
    → is_over_limit w.user_id m ≡ false
    → IsKept m
    → IsKept (with_watcher id w m)
unfolding put
with_watcher-IsKept m id w fresh room k =
    let more : (u : String)
        → number u (put id w m.watchers)
          ≡ number u m.watchers + (if str_eq w.user_id u then 1 else 0) =
      (λ u. ground (arith, fresh, number-erase u id m.watchers k.distinct_ids)) in
    let names = or_empty (find w.pattern m.patterns) in
    record {
      indexed = record {
        listing = λ j p. ground (
          arith,
          k.indexed.listing j p,
          k.indexed.listing j w.pattern,
          fresh,
          find-put id w j m.watchers,
          eq_iff id j,
          eq_iff w.pattern p,
          find-put w.pattern (names ++ id ∷ []) p m.patterns,
          count-append j names (id ∷ []),
          one id j,
        );
        differing = distinct-put w.pattern (names ++ id ∷ []) m.patterns k.indexed.differing;
      };
      distinct_ids = distinct-put id w m.watchers k.distinct_ids;
      counts = λ u n. ground (
        arith,
        n,
        k.counts u n,
        more u,
        eq_iff w.user_id u,
        find-put w.user_id (suc (count_or_zero (find w.user_id m.client_counts))) u m.client_counts,
      );
      limited = λ u l n.
          ground (arith, l, n, k.limited u l n, more u, eq_iff w.user_id u, room, k.counts u n);
    }

distinct-put_unless_empty :
    (p : String) (ids : List String) (ps : Dict (List String))
    → distinct ps ≡ true
    → distinct (put_unless_empty p ids ps) ≡ true
distinct-put_unless_empty p [] ps d = distinct-erase p ps d
distinct-put_unless_empty p (i ∷ ids) ps d = distinct-put p (i ∷ ids) ps d

-- A count after one of the user's watchers has gone.
dropped :
    (user u : String) (counts : Dict ℕ)
    → count_or_zero (find u (drop_count user counts))
      ≡ count_or_zero (find u counts) - (if nonempty user && str_eq user u then 1 else 0)
dropped user u counts = ground (
  arith,
  eq_iff user u,
  find-erase user u counts,
  find-put user (count_or_zero (find user counts) - 1) u counts,
)

pub removed-IsKept :
    (m : Manager) (id : String) (o : Option Watcher)
    → find id m.watchers ≡ o
    → IsKept m
    → IsKept (removed id o m)
removed-IsKept m id none h k = k
removed-IsKept m id (some w) h k =
    let fewer : (u : String)
        → number u (erase id m.watchers)
          ≡ number u m.watchers - (if str_eq w.user_id u then 1 else 0) =
      (λ u. ground (arith, h, number-erase u id m.watchers k.distinct_ids)) in
    let names = or_empty (find w.pattern m.patterns) in
    record {
      indexed = record {
        listing = λ j p. ground (
          arith,
          k.indexed.listing j p,
          k.indexed.listing j w.pattern,
          h,
          find-erase id j m.watchers,
          eq_iff id j,
          eq_iff w.pattern p,
          stored w.pattern p (remove_first id names) m.patterns,
          count-remove_first j id names,
        );
        differing =
            distinct-put_unless_empty w.pattern (remove_first id names) m.patterns
              k.indexed.differing;
      };
      distinct_ids = distinct-erase id m.watchers k.distinct_ids;
      counts = λ u n. ground (
        arith,
        n,
        k.counts u n,
        fewer u,
        eq_iff w.user_id u,
        dropped w.user_id u m.client_counts,
      );
      limited = λ u l n. ground (arith, l, n, k.limited u l n, fewer u);
    }
