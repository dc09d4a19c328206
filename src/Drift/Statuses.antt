-- ===== src/Drift/Statuses.antt =====
-- GetModuleDependencyDriftStatuses of internal/data/drift.go.
use mathlib.Core.Option
use pbuf_registry.Prelude.{
  ℕ, String, ◌&&◌, ◌==◌, nat_eq, string_eq, ltb, Option, none, some, List, [], ◌∷◌, ◌++◌, any,
  first, select, if◌then◌else◌,
}
use pbuf_registry.Database.Tables.{
  ModuleRow, TagRow, DependencyRow, DriftRow, DriftSeverity, info, warning, critical, Db,
}
use pbuf_registry.Database.Errors.{Result, ok, err, is_no_rows, tag_not_found}
use pbuf_registry.Database.Io.{Io, pure, raise, query, query_row, attempt, ◌>>=◌}
use pbuf_registry.Database.Queries.{order_desc}
use pbuf_registry.Drift.Store.{head}

-- model.DependencyDriftRecommendation and model.DependencyDriftStatus
pub data DependencyDriftRecommendation : Type 0 where
  suggest_update alert_review : DependencyDriftRecommendation

pub record DependencyDriftStatus : Type 0 where
  pub dependency_name : String
  pub current_tag : String
  pub target_tag : String
  pub severity : DriftSeverity
  pub recommendation : DependencyDriftRecommendation

-- dependencyRef
pub record DependencyRef : Type 0 where
  pub module_id : ℕ
  pub name : String
  pub tag_id : ℕ
  pub tag_name : String

abbrev pub rank_severity : ℕ → DriftSeverity
rank_severity rank = if rank == 3 then critical else if rank == 2 then warning else info

abbrev pub recommendation_from_severity : DriftSeverity → DependencyDriftRecommendation
recommendation_from_severity critical = alert_review
recommendation_from_severity warning = alert_review
recommendation_from_severity info = suggest_update

-- tags t JOIN modules m ON t.module_id = m.id WHERE m.name = $1
abbrev pub versions_of : String → Db → List TagRow
versions_of name d =
    select
      (λ (t : TagRow). any (λ (m : ModuleRow). m.id == t.module_id && m.name == name) d.modules)
      d.tags

-- ... ORDER BY t.updated_at DESC LIMIT 1
abbrev pub latest_version : String → Db → Option ℕ
latest_version name d =
    Option.map (λ (t : TagRow). t.id)
      (head (order_desc (λ (t : TagRow). t.updated_at) (versions_of name d)))

-- ... AND t.tag = $2
abbrev pub given_version : String → String → Db → Option ℕ
given_version name tag d =
    Option.map (λ (t : TagRow). t.id) (first (λ (t : TagRow). t.tag == tag) (versions_of name d))

-- `none` stands for the early return without statuses.
unfoldable pub latest_found : Result ℕ → Io (Option ℕ)
latest_found (ok t) = pure (some t)
latest_found (err e) = if is_no_rows e then pure none else raise e

unfoldable pub given_found : Result ℕ → Io (Option ℕ)
given_found (ok t) = pure (some t)
given_found (err e) = if is_no_rows e then raise tag_not_found else raise e

unfoldable pub resolve_version : (name tag : String) → Io (Option ℕ)
resolve_version name tag =
    if tag == ""
    then (do r ← attempt (query_row (latest_version name)); latest_found r)
    else (do r ← attempt (query_row (given_version name tag)); given_found r)

abbrev pub ref_at : Db → DependencyRow → Option DependencyRef
ref_at d e = Option.bind (first (λ (t : TagRow). t.id == e.dependency_tag_id) d.tags) λ t.
    Option.map
      (λ (m : ModuleRow). record {
        module_id = m.id;
        name = m.name;
        tag_id = t.id;
        tag_name = t.tag;
      })
      (first (λ (m : ModuleRow). m.id == t.module_id) d.modules)

abbrev pub refs_at : Db → List DependencyRow → List DependencyRef
refs_at d [] = []
refs_at d (e ∷ es) =
    let rest = refs_at d es in elim (ref_at d e) [ some r ↦ r ∷ rest | none ↦ rest ]

-- ... WHERE dep.tag_id = $1
abbrev pub dependency_refs : ℕ → Db → List DependencyRef
dependency_refs t d = refs_at d (select (λ (e : DependencyRow). e.tag_id == t) d.dependencies)

abbrev pub insert_asc : TagRow → List TagRow → List TagRow
insert_asc t [] = t ∷ []
insert_asc t (u ∷ us) =
    let rest = insert_asc t us in if ltb u.updated_at t.updated_at then u ∷ rest else t ∷ u ∷ us

-- ORDER BY t.updated_at ASC
unfoldable pub order_asc : List TagRow → List TagRow
order_asc [] = []
order_asc (t ∷ ts) = insert_asc t (order_asc ts)

abbrev pub later_tags : ℕ → Option ℕ → Db → List TagRow
later_tags m none d = []
later_tags m (some time) d =
    order_asc (select (λ (t : TagRow). t.module_id == m && ltb time t.updated_at) d.tags)

-- WHERE t.module_id = $1 AND t.updated_at > (SELECT updated_at FROM tags WHERE id = $2)
abbrev pub newer_tags : DependencyRef → Db → List TagRow
newer_tags dep d =
    later_tags dep.module_id
      (Option.map (λ (t : TagRow). t.updated_at)
        (first (λ (t : TagRow). t.id == dep.tag_id) d.tags))
      d

abbrev pub severity_rank : DriftSeverity → ℕ
severity_rank critical = 3
severity_rank warning = 2
severity_rank info = 1

-- COALESCE(MAX(...), 0)
abbrev pub max_rank : List DriftRow → ℕ
max_rank [] = 0
max_rank (e ∷ es) =
    let rest = max_rank es in
    if ltb rest (severity_rank e.severity) then severity_rank e.severity else rest

abbrev pub events_at : ℕ → ℕ → Db → List DriftRow
events_at m t d = select (λ (e : DriftRow). e.module_id == m && e.tag_id == t) d.drift_events

abbrev pub status_at : DependencyRef → TagRow → DriftSeverity → DependencyDriftStatus
status_at dep t severity = record {
  dependency_name = dep.name;
  current_tag = dep.tag_name;
  target_tag = t.tag;
  severity = severity;
  recommendation = recommendation_from_severity severity;
}

-- `if maxSeverityRank == 0 { continue }`, and the status
abbrev pub ranked : DependencyRef → TagRow → ℕ → List DependencyDriftStatus
ranked dep t rank = if rank == 0 then [] else status_at dep t (rank_severity rank) ∷ []

unfoldable pub tag_statuses : DependencyRef → List TagRow → Io (List DependencyDriftStatus)
tag_statuses dep [] = pure []
tag_statuses dep (t ∷ ts) = do
  rank ← query_row (λ d. some (max_rank (events_at dep.module_id t.id d)))
  rest ← tag_statuses dep ts
  pure (ranked dep t rank ++ rest)

unfoldable pub dependency_statuses : List DependencyRef → Io (List DependencyDriftStatus)
dependency_statuses [] = pure []
dependency_statuses (dep ∷ deps) = do
  newer ← query (newer_tags dep)
  here ← tag_statuses dep newer
  rest ← dependency_statuses deps
  pure (here ++ rest)

unfoldable pub version_statuses : Option ℕ → Io (List DependencyDriftStatus)
version_statuses none = pure []
version_statuses (some t) = do refs ← query (dependency_refs t); dependency_statuses refs

unfoldable pub get_module_dependency_drift_statuses :
    (name tag : String) → Io (List DependencyDriftStatus)
get_module_dependency_drift_statuses name tag = do
  version ← resolve_version name tag
  version_statuses version
