-- ===== src/Registry/Tests.antt =====
-- The registry at concrete inputs.
use mathlib.Core.List.{Perm}
use pbuf_registry.Prelude.{
  String, false, none, some, ◌≡◌, ◌≢◌, refl, inr, ==_iff, string_eq, List, [], ◌∷◌, arith,
}
use pbuf_registry.Database.Tables.{ProtoFile, Module, empty_db}
use pbuf_registry.Database.Errors.{Error, Result, ok, err}
use pbuf_registry.Database.Io.{
  World, pure, raise, execute, scan, scan_unordered, query, query_row, attempt, on_error,
  transaction, ◌>>=◌,
}
use pbuf_registry.Database.Queries.{order_desc}
use pbuf_registry.Registry.Modules.{register_module, get_module, get_found, delete_module}
use pbuf_registry.Registry.Tags.{
  push_module, push_found, push_rows, insert_files, pull_module, pull_found, get_module_tag_id,
  tag_id_found, require_tag, the_tag_id, delete_rows, delete_module_tag,
}
use pbuf_registry.Registry.Drafts.{
  Json, push_draft_module, push_draft_found, or_fail, delete_obsolete_draft_tags,
}
use pbuf_registry.Registry.WellFormed.{WellFormed}
use pbuf_registry.Registry.Calls.{
  Call, registers, deletes, pushes, deletes_tag, pushes_draft, compacts, perform, run, AllSpare,
}
use pbuf_registry.Registry.Frozen.{Stored}
use pbuf_registry.Registry.Pushed.{push-pull}
use pbuf_registry.Registry.Repushed.{push_module_again}
use pbuf_registry.Registry.Immutable.{run-WellFormed, run-Stored}

-- A database that answers every statement.
abbrev fresh : World
fresh = record {
  db = empty_db;
  answers = λ n. record {
    fails = false;
    uuid = n;
    now = n;
    salt = "salt";
    uuids = λ i. i;
    cut = none;
    order = λ i. 0;
  };
  turn = 0;
}

abbrev json : Json
json = record {
  marshal_files = λ _. some "[]";
  marshal_dependencies = λ _. some "[]";
  jsonb = λ s. s;
  unmarshal_files = λ _. some [];
}

abbrev pay : ProtoFile
pay = record { filename = "pay.proto"; content = "syntax = \"proto3\";" }

abbrev user : ProtoFile
user = record { filename = "user.proto"; content = "message User {}" }

abbrev history : List Call
history =
    registers "pay"
    ∷ pushes "pay" "v1" (pay ∷ user ∷ [])
    ∷ registers "ship"
    ∷ pushes "ship" "v1" (pay ∷ [])
    ∷ []

abbrev churn : List Call
churn =
    pushes "pay" "v2" (user ∷ [])
    ∷ pushes "pay" "v1" (user ∷ [])
    ∷ deletes_tag "pay" "v2"
    ∷ pushes_draft "pay" "v1" [] []
    ∷ deletes "ship"
    ∷ compacts
    ∷ []

empty_db-WellFormed : WellFormed empty_db
empty_db-WellFormed = record {
  modules = tt;
  tags = tt;
  files = tt;
  edges = tt;
  drafts = tt;
  tags_owned = refl;
  files_owned = refl;
}

run-WellFormed_example : WellFormed (run json fresh history).db
run-WellFormed_example = run-WellFormed json fresh history empty_db-WellFormed

abbrev stocked : World
stocked = run json fresh history

-- Opens what a test runs.
pulled : World → Result (Module × List ProtoFile)
unfolding run perform register_module get_module get_found delete_module push_module push_found
    push_rows insert_files pull_module pull_found get_module_tag_id tag_id_found require_tag
    the_tag_id delete_rows delete_module_tag push_draft_module push_draft_found or_fail
    delete_obsolete_draft_tags pure raise execute scan scan_unordered query query_row attempt
    on_error transaction ◌>>=◌ order_desc
pulled w = (pull_module "pay" "v1" w).0

abbrev pay_module : List String → List String → Module
pay_module tags drafts = record {
  id = 0;
  name = "pay";
  tags = tags;
  draft_tags = drafts;
  packages = [];
}

pulled_first : pulled stocked ≡ ok (pay_module ("v1" ∷ []) [], pay ∷ user ∷ [])
unfolding pulled
pulled_first = refl

abbrev churned : World
churned = run json (pull_module "pay" "v1" stocked).1 churn

pulled_again : pulled churned ≡ ok (pay_module ("v1" ∷ []) ("v1" ∷ []), pay ∷ user ∷ [])
unfolding pulled
pulled_again = refl

differs : ◌≢◌ {A = String} "v1" "v2"
differs = ground (arith, ==_iff {A = String} "v1" "v2")

other : ◌≢◌ {A = String} "pay" "ship"
other = ground (arith, ==_iff {A = String} "pay" "ship")

churn-AllSpare : AllSpare "pay" "v1" churn
churn-AllSpare = (tt, (tt, (inr differs, (tt, (other, (tt, tt))))))

stocked-Stored : Stored "pay" "v1" 0 5 (pay ∷ user ∷ []) stocked.db
unfolding pulled
stocked-Stored = record { found = refl; tagged = refl; content = refl }

run-Stored_example : Stored "pay" "v1" 0 5 (pay ∷ user ∷ []) (run json stocked churn).db
run-Stored_example =
    run-Stored "pay" "v1" 0 5 (pay ∷ user ∷ []) json stocked churn run-WellFormed_example
      stocked-Stored churn-AllSpare

abbrev registered : World
registered = run json fresh (registers "pay" ∷ [])

registered-WellFormed : WellFormed registered.db
registered-WellFormed = run-WellFormed json fresh (registers "pay" ∷ []) empty_db-WellFormed

abbrev pushed : World
pushed = (push_module "pay" "v1" (pay ∷ user ∷ []) registered).1

pushed_first :
    (push_module "pay" "v1" (pay ∷ user ∷ []) registered).0 ≡ ok (pay_module ("v1" ∷ []) [])
unfolding pulled
pushed_first = refl

abbrev later : World
later = record fresh { db = (run json pushed churn).db }

push-pull_example :
    (r : Module × List ProtoFile) × ((pull_module "pay" "v1" later).0 ≡ ok r)
    × Perm r.1 (pay ∷ user ∷ [])
push-pull_example =
    push-pull json "pay" "v1" registered later churn (pay_module ("v1" ∷ []) []) (pay ∷ user ∷ [])
      registered-WellFormed churn-AllSpare pushed_first refl (λ n. (refl, refl))

push_module_again_example :
    (e : Error) × ((push_module "pay" "v1" (user ∷ []) stocked).0 ≡ err e)
    × ((push_module "pay" "v1" (user ∷ []) stocked).1.db ≡ stocked.db)
push_module_again_example =
    push_module_again "pay" "v1" 0 5 (pay ∷ user ∷ []) (user ∷ []) stocked stocked-Stored
