-- ===== src/Servers/Runs.antt =====
-- The registry server at concrete requests.
use mathlib.Core.List.{Perm}
use pbuf_registry.Prelude.{
  String, false, none, some, ◌≡◌, ◌≢◌, refl, ==_iff, ◌==◌, string_eq, if◌then◌else◌, inr, List, [],
  ◌∷◌, arith,
}
use pbuf_registry.Database.Tables.{ProtoFile, Module, empty_db}
use pbuf_registry.Database.Errors.{Result, ok, err, message}
use pbuf_registry.Database.Io.{
  World, pure, raise, execute, scan, scan_unordered, query, query_row, attempt, on_error,
  transaction, ◌>>=◌,
}
use pbuf_registry.Database.Queries.{order_desc}
use pbuf_registry.Registry.Modules.{register_module, get_module, get_found, delete_module}
use pbuf_registry.Registry.Tags.{
  push_module, push_found, push_rows, insert_files, pull_module, pull_found, get_module_tag_id,
  tag_id_found, require_tag, the_tag_id, delete_rows, delete_module_tag,
}
use pbuf_registry.Registry.Dependencies.{add_edges, add_module_dependencies}
use pbuf_registry.Registry.Drafts.{
  Json, push_draft_module, push_draft_found, or_fail, delete_obsolete_draft_tags,
}
use pbuf_registry.Registry.WellFormed.{WellFormed}
use pbuf_registry.Registry.Calls.{
  Call, registers, deletes, pushes, deletes_tag, pushes_draft, compacts, perform, run, AllSpare,
}
use pbuf_registry.Registry.Immutable.{run-WellFormed}
use pbuf_registry.Metadata.Parsers.{Parser, validate_proto_files}
use pbuf_registry.Servers.Registry.{
  PushModuleRequest, push_stable, serve_push_module, draft_pulled, stable_pulled, serve_pull_module,
}
use pbuf_registry.Servers.Pushes.{serve_push-serve_pull}

-- A parser that refuses one text only.
abbrev parser : Parser String
parser = record {
  parse = λ s. if s == "?" then err (message "syntax") else ok s;
  interpret = λ s. ok none;
  marshal = λ p. ok "{}";
  unmarshal = λ s. some none;
}

abbrev json : Json
json = record {
  marshal_files = λ _. some "[]";
  marshal_dependencies = λ _. some "[]";
  jsonb = λ s. s;
  unmarshal_files = λ _. some [];
}

abbrev fresh : World
fresh = record {
  db = empty_db;
  answers = λ n. record {
    fails = false;
    uuid = n;
    now = n;
    salt = "salt";
    uuids = λ i. i;
    cut = none;
    order = λ i. 0;
  };
  turn = 0;
}

abbrev pay : ProtoFile
pay = record { filename = "pay.proto"; content = "syntax = \"proto3\";" }

abbrev request : PushModuleRequest
request = record {
  module_name = "pay";
  tag = "v1";
  protofiles = pay ∷ [];
  dependencies = [];
  is_draft = false;
}

fresh-WellFormed : WellFormed fresh.db
fresh-WellFormed = record {
  modules = tt;
  tags = tt;
  files = tt;
  edges = tt;
  drafts = tt;
  tags_owned = refl;
  files_owned = refl;
}

abbrev registered : World
registered = run json fresh (registers "pay" ∷ registers "ship" ∷ [])

registered-WellFormed : WellFormed registered.db
registered-WellFormed =
    run-WellFormed json fresh (registers "pay" ∷ registers "ship" ∷ []) fresh-WellFormed

abbrev churn : List Call
churn =
    pushes "pay" "v1" []
    ∷ deletes_tag "pay" "v2"
    ∷ pushes_draft "pay" "v1" [] []
    ∷ deletes "ship"
    ∷ compacts
    ∷ []

differs : ◌≢◌ {A = String} "v1" "v2"
differs = ground (arith, ==_iff {A = String} "v1" "v2")

other : ◌≢◌ {A = String} "pay" "ship"
other = ground (arith, ==_iff {A = String} "pay" "ship")

churn-AllSpare : AllSpare "pay" "v1" churn
churn-AllSpare = (tt, (inr differs, (tt, (other, (tt, tt)))))

abbrev pay_module : List String → Module
pay_module drafts = record {
  id = 0;
  name = "pay";
  tags = "v1" ∷ [];
  draft_tags = drafts;
  packages = [];
}

-- Opens what a test runs.
served : World → Result Module
unfolding run perform register_module get_module get_found delete_module push_module push_found
    push_rows insert_files pull_module pull_found get_module_tag_id tag_id_found require_tag
    the_tag_id delete_rows delete_module_tag push_draft_module push_draft_found or_fail
    delete_obsolete_draft_tags pure raise execute scan scan_unordered query query_row attempt
    on_error transaction ◌>>=◌ order_desc validate_proto_files add_edges add_module_dependencies
    push_stable serve_push_module draft_pulled stable_pulled serve_pull_module
served w = (serve_push_module parser json request w).0

pushed_ok : served registered ≡ ok (pay_module [])
unfolding served
pushed_ok = refl

abbrev later : World
later = run json (serve_push_module parser json request registered).1 churn

abbrev settled : World
settled = record fresh { db = later.db }

serve_push-serve_pull_example :
    (r : Module × List ProtoFile) × ((serve_pull_module json "pay" "v1" settled).0 ≡ ok r)
    × Perm r.1 (pay ∷ [])
unfolding served
serve_push-serve_pull_example =
    serve_push-serve_pull parser json request registered settled churn (pay_module [])
      registered-WellFormed churn-AllSpare refl pushed_ok refl (λ n. (refl, refl))
