-- ===== src/Tests/Registry.antt =====
-- The service registry on concrete commands.
use konsul.Prelude.{
  ◌≡◌, ◌↔◌, inl, inr, ◌&&◌, refl, arith, true, some, none, List, [], ◌∷◌, ltb, is_some,
  if◌then◌else◌,
}
use konsul.Prelude.Dict.{find}
use konsul.Prelude.Keys.{keys, differ}
use konsul.KvStore.Swap.{succeeds}
use konsul.Registry.{
  Entry, Registry, not_found, new_registry, register_local, register_cas_local,
  deregister_cas_local, cleanup_expired, get,
}
use konsul.Registry.Validate.{Service, pos, validate_service}
use konsul.Registry.Agrees.{Agrees}
use konsul.Registry.Cleanup.{cleanup_expired-deregister_cas}
use konsul.Registry.Commands.{
  Command, register, deregister, heartbeat, cleanup, restore, apply_all, reached-Agrees,
}
use konsul.Registry.Fresh.{WasThere}
use konsul.Registry.Swap.{register_cas-WasThere}
use konsul.Registry.Lease.{register_local-get}
use konsul.Registry.Query.{query_by_tags_and_metadata}
use konsul.Registry.Query.Answers.{named, live, has_tags}
use konsul.Registry.Query.Filters.{has_pairs}
use konsul.Registry.Query.Both.{query_by_tags_and_metadata-live}

abbrev web : Service
web = record {
  name = "web";
  address = "10.0.0.1";
  port = pos 80;
  tags = "http" ∷ "v1" ∷ [];
  meta = ("zone", "a") ∷ [];
}

abbrev db : Service
db = record {
  name = "db";
  address = "10.0.0.2";
  port = pos 5432;
  tags = "v1" ∷ [];
  meta = ("zone", "a") ∷ [];
}

abbrev commands : List Command
commands = register 0 web ∷ register 5 db ∷ heartbeat 10 "web" ∷ []

abbrev later_commands : List Command
later_commands = heartbeat 20 "web" ∷ cleanup 36 ∷ restore ∷ deregister "db" ∷ []

abbrev reached : Registry
reached = apply_all commands (new_registry 30)

reached-Agrees_example : Agrees reached
reached-Agrees_example = reached-Agrees 30 commands

query_by_tags_and_metadata-live_example :
    named "db" (query_by_tags_and_metadata 12 reached 13 reached ("v1" ∷ []) (("zone", "a") ∷ []))
    ≡ (if (has_tags ("v1" ∷ []) (find "db" reached.data_)
            && is_some (live 12 (find "db" reached.data_)))
          && has_pairs (("zone", "a") ∷ []) (find "db" reached.data_)
        then live 13 (find "db" reached.data_)
        else none)
unfolding keys differ
query_by_tags_and_metadata-live_example =
    query_by_tags_and_metadata-live 12 13 "db" "v1" "zone" "a" [] [] reached reached
      (reached-Agrees 30 commands) (reached-Agrees 30 commands) refl

abbrev db_entry : Entry
db_entry = record { service = db; expires_at = 35; modify_index = 2; create_index = 2 }

cleanup_expired-deregister_cas_example :
    ((deregister_cas_local "db" 2 reached).0 ≡ inr tt)
    × ((deregister_cas_local "db" 2 (cleanup_expired 36 reached).1).0 ≡ inl not_found)
unfolding apply_all register_local find validate_service
cleanup_expired-deregister_cas_example =
    cleanup_expired-deregister_cas 36 "db" db_entry reached refl (omega arith)

abbrev web_entry : Entry
web_entry = record { service = web; expires_at = 40; modify_index = 1; create_index = 1 }

register_cas-WasThere_example :
    (succeeds (register_cas_local 40 web 1 (apply_all (heartbeat 30 "web" ∷ []) reached)).0 ≡ true)
    ↔ WasThere web_entry (find "web" (apply_all (heartbeat 30 "web" ∷ []) reached).data_)
unfolding apply_all register_local find validate_service
register_cas-WasThere_example =
    register_cas-WasThere 30 commands (heartbeat 30 "web" ∷ []) "web" web_entry refl refl
      (omega arith) refl 40 web refl refl

register_local-get_example :
    get 45 "web" (apply_all later_commands (register_local 0 web (new_registry 30)).1)
    ≡ (if ltb 50 45 then none else some web)
unfolding validate_service
register_local-get_example =
    register_local-get 0 45 50 web later_commands (new_registry 30) refl refl
