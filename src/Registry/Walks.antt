-- ===== src/Registry/Walks.antt =====
-- The search for transitive dependencies at a concrete registry.
use mathlib.Core.Option
use pbuf_registry.Prelude.{
  ℕ, ◌+◌, ◌≤◌, length, String, false, Option, some, none, ◌≡◌, refl, List, [], ◌∷◌, arith,
}
use pbuf_registry.Database.Tables.{Dependency, empty_db}
use pbuf_registry.Database.Errors.{Result, ok}
use pbuf_registry.Database.Io.{
  World, pure, execute, scan, scan_unordered, query, query_row, attempt, on_error, transaction,
  ◌>>=◌,
}
use pbuf_registry.Database.Queries.{order_desc}
use pbuf_registry.Registry.Modules.{register_module, get_module, get_found}
use pbuf_registry.Registry.Tags.{
  push_module, push_found, push_rows, insert_files, get_module_tag_id, tag_id_found, require_tag,
  the_tag_id,
}
use pbuf_registry.Registry.Drafts.{Json}
use pbuf_registry.Registry.Dependencies.{
  add_module_dependencies, add_edges, get_module_dependencies, dependencies_at, name_edges,
  get_transitive_dependencies, search, start, after_lookup, offer_all, offer,
}
use pbuf_registry.Registry.Calls.{registers, pushes, adds_dependencies, perform, run}
use pbuf_registry.Registry.Ends.{get_transitive_dependencies_ends}

abbrev none_of_it : Json
none_of_it = record {
  marshal_files = λ _. none;
  marshal_dependencies = λ _. none;
  jsonb = λ s. s;
  unmarshal_files = λ _. none;
}

abbrev on : String → Dependency
on name = record { name = name; tag = "v1"; dependency_type = "" }

-- a needs b, b needs c, and c needs a.
abbrev ring : World
ring =
    run none_of_it
      (record {
        db = empty_db;
        answers = λ n. record {
          fails = false;
          uuid = n;
          now = n;
          salt = "";
          uuids = λ i. i;
          cut = none;
          order = λ i. 0;
        };
        turn = 0;
      })
      (registers "a"
        ∷ registers "b"
        ∷ registers "c"
        ∷ pushes "a" "v1" []
        ∷ pushes "b" "v1" []
        ∷ pushes "c" "v1" []
        ∷ adds_dependencies "a" "v1" (on "b" ∷ [])
        ∷ adds_dependencies "b" "v1" (on "c" ∷ [])
        ∷ adds_dependencies "c" "v1" (on "a" ∷ [])
        ∷ [])

-- Opens what a test runs.
walked : ℕ → World → Result (Option (List Dependency))
unfolding run perform register_module get_module get_found push_module push_found push_rows
    insert_files get_module_tag_id tag_id_found require_tag the_tag_id add_module_dependencies
    add_edges get_module_dependencies dependencies_at name_edges get_transitive_dependencies search
    start after_lookup offer_all offer pure execute scan scan_unordered query query_row attempt
    on_error transaction ◌>>=◌ order_desc Option.bind
walked fuel w = (get_transitive_dependencies fuel "a" "v1" w).0

direct_of_a : (get_module_dependencies "a" "v1" ring).0 ≡ ok (on "b" ∷ [])
unfolding walked
direct_of_a = refl

all_of_a :
    walked 4 ring
    ≡ ok (
        some (
          record { name = "b"; tag = "v1"; dependency_type = "direct" }
          ∷ record { name = "c"; tag = "v1"; dependency_type = "transitive" }
          ∷ []))
unfolding walked
all_of_a = refl

enough_fuel : 1 + length ring.db.tags ≤ 4
unfolding walked
enough_fuel = omega arith

get_transitive_dependencies_ends_example :
    (deps : List Dependency) × ((get_transitive_dependencies 4 "a" "v1" ring).0 ≡ ok (some deps))
get_transitive_dependencies_ends_example =
    get_transitive_dependencies_ends 4 "a" "v1" ring (on "b" ∷ []) direct_of_a enough_fuel
