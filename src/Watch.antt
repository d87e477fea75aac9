-- ===== src/Watch.antt =====
-- internal/watch/manager.go and types.go: watchers, and the delivery of the changes of keys to those
-- whose pattern matches and whose policies allow it. A channel is a list of events of bounded
-- length; its reader takes the first one. `path_match` is `filepath.Match` without its error, and
-- the numbers of watchers stay below the machine's bound.
pub mod Delivery
pub mod Kept
pub mod Reached
use konsul.Prelude.{
  is_some, ℕ, zero, suc, ◌-◌, Bool, true, false, not, ◌&&◌, ◌||◌, String, Option, none, some, List,
  [], ◌∷◌, ◌++◌, ◌==◌, ltb, leb, length, str_eq, if◌then◌else◌,
}
use Prim.Native.String
use konsul.Acl.{Evaluator, evaluate, kv}
use konsul.Prelude.Dict.{Dict, find, put, erase}
use konsul.Prelude.Names.{remove_first}
use konsul.Prelude.Text.{nonempty, starts_with, includes}
use konsul.Registry.{or_empty, put_unless_empty}

pub data EventType : Type 0 where
  set delete : EventType

pub record Event : Type 0 where
  pub type_ : EventType
  pub key : String
  pub value : String
  pub old_value : String

-- `user_id` is empty for a watcher of nobody.
pub record Watcher : Type 0 where
  pub pattern : String
  pub events : List Event
  pub policies : List String
  pub user_id : String

-- A limit of 0 is none.
pub record Manager : Type 0 where
  pub watchers : Dict Watcher
  pub patterns : Dict (List String)
  pub buffer_size : ℕ
  pub max_per_client : ℕ
  pub client_counts : Dict ℕ

abbrev pub new_manager : ℕ → ℕ → Manager
new_manager buffer_size max_per_client = record {
  watchers = [];
  patterns = [];
  buffer_size = buffer_size;
  max_per_client = max_per_client;
  client_counts = [];
}

-- A missing count is 0.
abbrev pub count_or_zero : Option ℕ → ℕ
count_or_zero none = 0
count_or_zero (some n) = n

abbrev pub count_of : String → Manager → ℕ
count_of user m = count_or_zero (find user m.client_counts)

abbrev pub add_count : String → Dict ℕ → Dict ℕ
add_count user counts =
    if nonempty user then put user (suc (count_or_zero (find user counts))) counts else counts

abbrev pub is_over_limit : String → Manager → Bool
is_over_limit user m =
    (ltb 0 m.max_per_client && nonempty user) && leb m.max_per_client (count_of user m)

abbrev pub with_watcher : String → Watcher → Manager → Manager
with_watcher id w m = record m {
  watchers = put id w m.watchers;
  patterns = put w.pattern (or_empty (find w.pattern m.patterns) ++ id ∷ []) m.patterns;
  client_counts = add_count w.user_id m.client_counts;
}

abbrev pub new_watcher : String → List String → String → Watcher
new_watcher pattern policies user = record {
  pattern = pattern;
  events = [];
  policies = policies;
  user_id = user;
}

abbrev pub unless_over : Bool → String → Watcher → Manager → Option Watcher × Manager
unless_over true id w m = (none, m)
unless_over false id w m = (some w, with_watcher id w m)

-- `AddWatcher`; `id` is the new identifier. `none` is `ErrTooManyWatchers`.
unfoldable pub add_watcher :
    String → String → List String → String → Manager → Option Watcher × Manager
unfolding find put
add_watcher id pattern policies user m =
    unless_over (is_over_limit user m) id (new_watcher pattern policies user) m

abbrev pub drop_count : String → Dict ℕ → Dict ℕ
drop_count user counts =
    let left = count_or_zero (find user counts) - 1 in
    if nonempty user then if left == 0 then erase user counts else put user left counts else counts

abbrev pub removed : String → Option Watcher → Manager → Manager
removed id none m = m
removed id (some w) m = record m {
  watchers = erase id m.watchers;
  patterns =
      put_unless_empty w.pattern (remove_first id (or_empty (find w.pattern m.patterns)))
        m.patterns;
  client_counts = drop_count w.user_id m.client_counts;
}

unfoldable pub remove_watcher : String → Manager → Manager
unfolding find put erase remove_first
remove_watcher id m = removed id (find id m.watchers) m

-- `strings.TrimSuffix(s, "**")`.
unfoldable pub trim_stars : String → String
trim_stars String.[] = ""
trim_stars (String.◌∷◌ c s) =
    let rest = trim_stars s in if str_eq (String.◌∷◌ c s) "**" then "" else String.◌∷◌ c rest

-- What ends the sending to one watcher whose channel is full: the event is dropped.
abbrev pub send_event : ℕ → Event → Watcher → Watcher
send_event size e w =
    if ltb (length w.events) size then record w { events = w.events ++ e ∷ [] } else w

unfoldable pub matches_pattern : (String → String → Bool) → String → String → Bool
unfolding trim_stars starts_with includes
matches_pattern path_match key pattern =
    if str_eq key pattern
    then true
    else if not (includes pattern "*")
    then false
    else if includes pattern "**"
    then starts_with key (trim_stars pattern)
    else path_match pattern key

module _ (path_match : String → String → Bool) (may_read : List String → String → Bool) where
  abbrev pub notified : String → Option Watcher → ℕ → Event → Dict Watcher → Dict Watcher
  notified id none size e ws = ws
  notified id (some w) size e ws =
      if may_read w.policies e.key then put id (send_event size e w) ws else ws

  -- The watchers of one pattern.
  unfoldable pub notify_ids : List String → ℕ → Event → Dict Watcher → Dict Watcher
  unfolding find put
  notify_ids [] size e ws = ws
  notify_ids (id ∷ ids) size e ws = notify_ids ids size e (notified id (find id ws) size e ws)

  unfoldable pub notify_patterns : Dict (List String) → ℕ → Event → Dict Watcher → Dict Watcher
  unfolding notify_ids matches_pattern
  notify_patterns [] size e ws = ws
  notify_patterns ((pattern, ids) ∷ patterns) size e ws =
      notify_patterns patterns size e
        (if matches_pattern path_match e.key pattern then notify_ids ids size e ws else ws)

  -- `Notify`.
  unfoldable pub notify : Event → Manager → Manager
  unfolding notify_patterns
  notify e m = record m { watchers = notify_patterns m.patterns m.buffer_size e m.watchers }

-- `canWatch`: the policies of a watcher allow to read the key, where there are access control lists.
unfoldable pub can_watch :
    (String → Option (String → Bool)) → Option Evaluator → List String → String → Bool
unfolding evaluate
can_watch regexp none policies key = true
can_watch regexp (some acl) policies key =
    evaluate regexp acl policies (record { type_ = kv; path = key }) "read"

-- The reader of a watcher takes an event.
abbrev pub take_event : String → Option Watcher → Dict Watcher → Dict Watcher
take_event id none ws = ws
take_event id (some w) ws = elim w.events [
  | [] ↦ ws
  | (e ∷ es) ↦ put id (record w { events = es }) ws
]

unfoldable pub receive : String → Manager → Manager
unfolding find put
receive id m = record m { watchers = take_event id (find id m.watchers) m.watchers }

-- `Close`.
abbrev pub close : Manager → Manager
close m = record m { watchers = []; patterns = []; client_counts = [] }

-- The calls; the identifier of a new watcher comes with the call.
pub data ManagerCall : Type 0 where
  adds : String → String → List String → String → ManagerCall
  removes receives : String → ManagerCall
  notifies : Event → ManagerCall
  closes : ManagerCall

module _ (path_match : String → String → Bool) (may_read : List String → String → Bool) where
  unfoldable pub step : ManagerCall → Manager → Manager
  unfolding add_watcher remove_watcher receive notify
  step (adds id pattern policies user) m = (add_watcher id pattern policies user m).1
  step (removes id) m = remove_watcher id m
  step (receives id) m = receive id m
  step (notifies e) m = notify path_match may_read e m
  step closes m = close m

  -- An identifier is new: `uuid.New` gives none twice.
  abbrev pub is_new : ManagerCall → Manager → Bool
  is_new (adds id pattern policies user) m = not (is_some (find id m.watchers))
  is_new (removes id) m = true
  is_new (receives id) m = true
  is_new (notifies e) m = true
  is_new closes m = true

  unfoldable pub run : List ManagerCall → Manager → Manager
  unfolding step
  run [] m = m
  run (c ∷ cs) m = run cs (step c m)

  -- All identifiers of a run are new when they come.
  abbrev pub all_new : List ManagerCall → Manager → Bool
  all_new [] m = true
  all_new (c ∷ cs) m = is_new c m && all_new cs (step c m)
