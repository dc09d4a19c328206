-- ===== src/Registry/Dependencies.antt =====
-- internal/data/registry.go: AddModuleDependencies, GetModuleDependencies and the breadth-first
-- search of GetTransitiveDependencies.
use pbuf_registry.Prelude.{
  ℕ, zero, suc, String, Bool, true, concat, Option, none, some, List, [], ◌∷◌, ◌++◌, map, any,
  first, select, ◌==◌, nat_eq, string_eq, ◌&&◌, if◌then◌else◌,
}
use mathlib.Core.Option
use pbuf_registry.Database.Tables.{Dependency, ModuleRow, TagRow, DependencyRow, Db}
use pbuf_registry.Database.Errors.{wrapped, is_no_rows, Result, ok, err}
use pbuf_registry.Database.Io.{
  scan_unordered, Answer, Io, pure, raise, execute, query_row, attempt, wrap, ◌>>=◌, ◌>>◌,
}
use pbuf_registry.Database.Queries.{module_id_by_name, is_id, tag_id_by_name, order_desc}
use pbuf_registry.Registry.Tags.{the_tag_id}

abbrev pub same_edge : ℕ → ℕ → DependencyRow → Bool
same_edge t u e = e.tag_id == t && e.dependency_tag_id == u

-- INSERT INTO dependencies (tag_id, dependency_tag_id) VALUES ($1, $2), under the unique index
abbrev pub insert_edge : ℕ → ℕ → Answer → Db → Option (Unit {0} × Db)
insert_edge t u n d =
    if any (same_edge t u) d.dependencies
    then none
    else some (
      tt,
      record d {
        dependencies = d.dependencies ++ record { tag_id = t; dependency_tag_id = u } ∷ [];
      },
    )

-- no transaction: the edges before a failure stay
unfoldable pub add_edges : ℕ → List Dependency → Io (Unit {0})
add_edges t [] = pure tt
add_edges t (e ∷ es) = do
  u ←
      wrap (concat ("could not find tag " ∷ e.tag ∷ " for module " ∷ e.name ∷ []))
        (query_row (tag_id_by_name e.name e.tag))
  wrap "could not insert dependency into database" (execute (insert_edge t u))
  add_edges t es

unfoldable pub add_module_dependencies : String → String → List Dependency → Io (Unit {0})
add_module_dependencies name tag deps = do t ← the_tag_id name tag; add_edges t deps

-- SELECT tag FROM tags WHERE module_id = (...) ORDER BY updated_at DESC LIMIT 1
abbrev pub latest_tag : String → Db → Option String
latest_tag name d =
    Option.map (λ (t : TagRow). t.tag)
      (first (λ t. true)
        (order_desc (λ (t : TagRow). t.updated_at)
          (select (λ (t : TagRow). is_id (module_id_by_name name d) t.module_id) d.tags)))

-- SELECT dependency_tag_id FROM dependencies WHERE tag_id = $1
abbrev pub edges_of : ℕ → Db → List ℕ
edges_of t d =
    map (λ (e : DependencyRow). e.dependency_tag_id)
      (select (λ (e : DependencyRow). e.tag_id == t) d.dependencies)

-- SELECT modules.name, tags.tag FROM modules JOIN tags ON modules.id = tags.module_id
-- WHERE tags.id = $1
abbrev pub join_module : Db → TagRow → Option Dependency
join_module d t =
    Option.map (λ (m : ModuleRow). record { name = m.name; tag = t.tag; dependency_type = "" })
      (first (λ m. m.id == t.module_id) d.modules)

abbrev pub dependency_by_tag_id : ℕ → Db → Option Dependency
dependency_by_tag_id t d = Option.bind (first (λ u. u.id == t) d.tags) (join_module d)

-- the loop over the rows of `dependencies`
unfoldable pub name_edges : List ℕ → Io (List Dependency)
name_edges [] = pure []
name_edges (t ∷ ts) = do
  e ← wrap "could not find module and tag for dependency" (query_row (dependency_by_tag_id t))
  es ← name_edges ts
  pure (e ∷ es)

unfoldable pub dependencies_at : String → String → Io (List Dependency)
dependencies_at name tag = do
  t ← the_tag_id name tag
  edges ← wrap "could not select dependencies from database" (scan_unordered (edges_of t))
  name_edges edges

unfoldable pub at_latest : String → Result String → Io (List Dependency)
at_latest name (err e) =
    if is_no_rows e then pure [] else raise (wrapped "could not select tag from database" e)
at_latest name (ok tag) = dependencies_at name tag

unfoldable pub get_module_dependencies : String → String → Io (List Dependency)
get_module_dependencies name tag =
    if tag == ""
    then (do latest ← attempt (query_row (latest_tag name)); at_latest name latest)
    else dependencies_at name tag

-- depKey
pub record DepKey : Type 0 where
  pub name : String
  pub tag : String

abbrev pub dep_key : Dependency → DepKey
dep_key e = record { name = e.name; tag = e.tag }

abbrev pub same_key : DepKey → DepKey → Bool
same_key k l = k.name == l.name && k.tag == l.tag

-- the map `visited`, its keys in the order of insertion
abbrev pub visited_has : List DepKey → Dependency → Bool
visited_has visited e = any (same_key (dep_key e)) visited

abbrev pub typed : String → Dependency → Dependency
typed type e = record { name = e.name; tag = e.tag; dependency_type = type }

pub record Search : Type 0 where
  pub result : List Dependency
  pub visited : List DepKey
  pub queue : List Dependency

-- the body of the inner loop
unfoldable pub offer : Search → Dependency → Search
offer s e = if visited_has s.visited e then s else record {
  result = s.result ++ typed "transitive" e ∷ [];
  visited = s.visited ++ dep_key e ∷ [];
  queue = s.queue ++ e ∷ [];
}

unfoldable pub offer_all : Search → List Dependency → Search
offer_all s [] = s
offer_all s (e ∷ es) = offer_all (offer s e) es

-- a failed lookup is logged and skipped
unfoldable pub after_lookup : Search → Result (List Dependency) → Search
after_lookup s (err e) = s
after_lookup s (ok es) = offer_all s es

-- The loop; `none` if the queue is not empty when the fuel runs out.
unfoldable pub search : ℕ → Search → Io (Option (List Dependency))
search zero s = elim s.queue [ [] ↦ pure (some s.result) | _ ∷ _ ↦ pure none ]
search (suc fuel) s = elim s.queue [
  | [] ↦ pure (some s.result)
  | e ∷ rest ↦ do
    found ← attempt (get_module_dependencies e.name e.tag)
    search fuel (after_lookup (record s { queue = rest }) found)
]

unfoldable pub start : String → String → List Dependency → Search
start name tag direct = record {
  result = map (typed "direct") direct;
  visited = record { name = name; tag = tag } ∷ map dep_key direct;
  queue = direct;
}

unfoldable pub get_transitive_dependencies : ℕ → String → String → Io (Option (List Dependency))
get_transitive_dependencies fuel name tag = do
  direct ← wrap "could not get direct dependencies" (get_module_dependencies name tag)
  search fuel (start name tag direct)
