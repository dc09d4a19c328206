-- ===== src/Registry/Modules.antt =====
-- internal/data/registry.go: RegisterModule, GetModule, DeleteModule. Query reports no pgx.ErrNoRows
-- (only QueryRow does), so the branches that test for it after a Query are not taken.
use pbuf_registry.Prelude.{
  ℕ, String, Option, none, some, List, [], ◌∷◌, ◌++◌, map, any, select, take, ◌==◌, nat_eq,
  string_eq, ◌&&◌, if◌then◌else◌,
}
use pbuf_registry.Database.Tables.{
  Module, ModuleRow, TagRow, FileRow, DependencyRow, DraftRow, DriftRow, Db,
}
use pbuf_registry.Database.Errors.{message, wrapped, is_no_rows, Result, ok, err}
use pbuf_registry.Database.Io.{
  scan, Answer, Io, pure, raise, execute, query_row, attempt, wrap, ◌>>=◌, ◌>>◌,
}
use pbuf_registry.Database.Queries.{
  module_by_name, module_id_by_name, is_id, is_tag_of, order_desc, without, affected, delete_tags,
}

-- INSERT INTO modules (name) VALUES ($1) ON CONFLICT (name) DO NOTHING
abbrev pub insert_module : String → Answer → Db → Option (Unit {0} × Db)
insert_module name n d =
    if any (λ m. m.name == name) d.modules
    then some (tt, d)
    else if any (λ m. m.id == n.uuid) d.modules
    then none
    else some (tt, record d { modules = d.modules ++ record { id = n.uuid; name = name } ∷ [] })

unfoldable pub register_module : String → Io (Unit {0})
register_module name = wrap "could not insert module into database" (execute (insert_module name))

-- SELECT tag FROM tags WHERE module_id = $1 ORDER BY updated_at DESC LIMIT 10
abbrev pub latest_tags : ℕ → Db → List String
latest_tags m d =
    map (λ (t : TagRow). t.tag)
      (take 10 (
        order_desc (λ (t : TagRow). t.updated_at)
          (select (λ (t : TagRow). t.module_id == m) d.tags)))

-- SELECT tag FROM draft_tags WHERE module_id = $1 ORDER BY updated_at DESC LIMIT 10
abbrev pub latest_draft_tags : ℕ → Db → List String
latest_draft_tags m d =
    map (λ (t : DraftRow). t.tag)
      (take 10 (
        order_desc (λ (t : DraftRow). t.updated_at)
          (select (λ (t : DraftRow). t.module_id == m) d.draft_tags)))

-- `none` is the nil module of an unknown name.
unfoldable pub get_found : Result ModuleRow → Io (Option Module)
get_found (err e) =
    if is_no_rows e then pure none else raise (wrapped "could not select module from database" e)
get_found (ok m) = do
  tags ← wrap "could not select tags from database" (scan (latest_tags m.id))
  drafts ← wrap "could not select draft tags from database" (scan (latest_draft_tags m.id))
  pure (some (record { id = m.id; name = m.name; tags = tags; draft_tags = drafts; packages = [] }))

unfoldable pub get_module : String → Io (Option Module)
get_module name = do row ← attempt (query_row (module_by_name name)); get_found row

-- DELETE FROM protofiles WHERE tag_id IN (the tags of the module)
abbrev pub delete_module_files : String → Answer → Db → Option (ℕ × Db)
delete_module_files name n d =
    let gone = λ (f : FileRow). is_tag_of (module_id_by_name name d) d.tags f.tag_id in
    some (affected gone d.protofiles, record d { protofiles = without gone d.protofiles })

-- DELETE FROM dependencies WHERE tag_id IN (the tags of the module)
abbrev pub delete_module_dependencies : String → Answer → Db → Option (ℕ × Db)
delete_module_dependencies name n d =
    let gone = λ (e : DependencyRow). is_tag_of (module_id_by_name name d) d.tags e.tag_id in
    some (affected gone d.dependencies, record d { dependencies = without gone d.dependencies })

abbrev pub delete_module_tags : String → Answer → Db → Option (ℕ × Db)
delete_module_tags name n d =
    let gone = λ (t : TagRow). is_id (module_id_by_name name d) t.module_id in
    some (affected gone d.tags, delete_tags gone d)

abbrev pub delete_module_draft_tags : String → Answer → Db → Option (ℕ × Db)
delete_module_draft_tags name n d =
    let gone = λ (t : DraftRow). is_id (module_id_by_name name d) t.module_id in
    some (affected gone d.draft_tags, record d { draft_tags = without gone d.draft_tags })

-- DELETE FROM modules WHERE name = $1, with drift_events' ON DELETE CASCADE
abbrev pub delete_module_row : String → Answer → Db → Option (ℕ × Db)
delete_module_row name n d =
    let gone = λ (m : ModuleRow). m.name == name in
    some (
      affected gone d.modules,
      record d {
        modules = without gone d.modules;
        drift_events =
            without (λ (e : DriftRow). any (λ m. gone m && m.id == e.module_id) d.modules)
              d.drift_events;
      },
    )

-- Five statements with no transaction around them. The counts of the first four are only logged.
unfoldable pub delete_module : String → Io (Unit {0})
delete_module name = do
  wrap "could not delete protofiles from database" (execute (delete_module_files name))
  wrap "could not delete module dependencies from database"
      (execute (delete_module_dependencies name))
  wrap "could not delete module tags from database" (execute (delete_module_tags name))
  wrap "could not delete module draft tags from database" (execute (delete_module_draft_tags name))
  count ← wrap "could not delete module from database" (execute (delete_module_row name))
  if count == 0 then raise (message "module not found") else pure tt
