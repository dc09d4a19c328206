-- ===== src/Registry/Tags.antt =====
-- internal/data/registry.go: PushModule, PullModule, GetModuleTagId, DeleteModuleTag.
use pbuf_registry.Prelude.{
  ℕ, String, Bool, false, Option, none, some, List, [], ◌∷◌, ◌++◌, map, any, select, ◌==◌, nat_eq,
  string_eq, ◌&&◌, ◌||◌, if◌then◌else◌,
}
use pbuf_registry.Database.Tables.{ProtoFile, Module, TagRow, FileRow, DependencyRow, Db}
use pbuf_registry.Database.Errors.{
  refused, tag_not_found, message, wrapped, is_no_rows, Result, ok, err,
}
use pbuf_registry.Database.Io.{
  scan_unordered, Answer, Io, pure, raise, execute, query_row, attempt, wrap, transaction, ◌>>=◌,
  ◌>>◌,
}
use pbuf_registry.Database.Queries.{tag_id_in, tag_id_by_name, without, affected, delete_tags}
use pbuf_registry.Registry.Modules.{get_module}

-- PRIMARY KEY (id), UNIQUE (module_id, tag)
abbrev pub same_tag : TagRow → TagRow → Bool
same_tag t u = u.id == t.id || (u.module_id == t.module_id && u.tag == t.tag)

abbrev pub new_tag : ℕ → String → Answer → TagRow
new_tag m tag n = record {
  id = n.uuid;
  module_id = m;
  tag = tag;
  updated_at = n.now;
  is_processed = false;
}

-- INSERT INTO tags (module_id, tag) VALUES ($1, $2)
abbrev pub insert_tag : ℕ → String → Answer → Db → Option (Unit {0} × Db)
insert_tag m tag n d =
    if any (same_tag (new_tag m tag n)) d.tags
    then none
    else some (tt, record d { tags = d.tags ++ new_tag m tag n ∷ [] })

-- PRIMARY KEY (id), UNIQUE (tag_id, filename)
abbrev pub same_file : FileRow → FileRow → Bool
same_file f g = g.id == f.id || (g.tag_id == f.tag_id && g.filename == f.filename)

abbrev pub new_file : ℕ → ProtoFile → Answer → FileRow
new_file t f n = record {
  id = n.uuid;
  tag_id = t;
  filename = f.filename;
  content = f.content;
  content_hash = none;
}

-- INSERT INTO protofiles (tag_id, filename, content) VALUES ($1, $2, $3)
abbrev pub insert_file : ℕ → ProtoFile → Answer → Db → Option (Unit {0} × Db)
insert_file t f n d =
    if any (same_file (new_file t f n)) d.protofiles
    then none
    else some (tt, record d { protofiles = d.protofiles ++ new_file t f n ∷ [] })

unfoldable pub insert_files : ℕ → List ProtoFile → Io (Unit {0})
insert_files t [] = pure tt
insert_files t (f ∷ fs) = do
  wrap "could not insert protofile into database" (execute (insert_file t f))
  insert_files t fs

-- the statements of the transaction
unfoldable pub push_rows : ℕ → String → List ProtoFile → Io (Unit {0})
push_rows m tag files = do
  wrap "could not insert tag into database" (execute (insert_tag m tag))
  t ← wrap "could not select tag from database" (query_row (tag_id_in (some m) tag))
  insert_files t files

unfoldable pub push_found : Option Module → String → List ProtoFile → Io Module
push_found none tag files = raise (message "module not found")
push_found (some m) tag files =
    if any (λ t. t == tag) m.tags then raise (message "tag already exists") else do
      transaction (wrapped "could not begin transaction" refused)
          (message "could not push the module. internal error") (push_rows m.id tag files)
      pure (record m { tags = m.tags ++ tag ∷ [] })

unfoldable pub push_module : String → String → List ProtoFile → Io Module
push_module name tag files = do
  found ← wrap "could not get module" (get_module name)
  push_found found tag files

unfoldable pub tag_id_found : Result ℕ → Io (Option ℕ)
tag_id_found (err e) =
    if is_no_rows e then pure none else raise (wrapped "could not select tag from database" e)
tag_id_found (ok t) = pure (some t)

-- `none` is the empty id of an unknown tag: no UUID is empty.
unfoldable pub get_module_tag_id : String → String → Io (Option ℕ)
get_module_tag_id name tag = do
  row ← attempt (query_row (tag_id_by_name name tag))
  tag_id_found row

-- `tagId, err := r.GetModuleTagId(...)` with the two tests that follow it in each of its callers
unfoldable pub require_tag : Option ℕ → Io ℕ
require_tag none = raise tag_not_found
require_tag (some t) = pure t

unfoldable pub the_tag_id : String → String → Io ℕ
the_tag_id name tag = do
  found ← wrap "could not get tag id" (get_module_tag_id name tag)
  require_tag found

-- SELECT filename, content FROM protofiles WHERE tag_id = $1
abbrev pub files_of : ℕ → Db → List ProtoFile
files_of t d =
    map (λ (f : FileRow). record { filename = f.filename; content = f.content })
      (select (λ (f : FileRow). f.tag_id == t) d.protofiles)

unfoldable pub pull_found : Option Module → String → String → Io (Module × List ProtoFile)
pull_found none name tag = raise (message "module not found")
pull_found (some m) name tag = do
  t ← the_tag_id name tag
  files ← wrap "could not select protofiles from database" (scan_unordered (files_of t))
  pure (m, files)

unfoldable pub pull_module : String → String → Io (Module × List ProtoFile)
pull_module name tag = do
  found ← wrap "could not get module" (get_module name)
  pull_found found name tag

-- DELETE FROM protofiles WHERE tag_id = $1
abbrev pub delete_tag_files : ℕ → Answer → Db → Option (ℕ × Db)
delete_tag_files t n d =
    let gone = λ (f : FileRow). f.tag_id == t in
    some (affected gone d.protofiles, record d { protofiles = without gone d.protofiles })

-- DELETE FROM dependencies WHERE tag_id = $1 OR dependency_tag_id = $1
abbrev pub delete_tag_dependencies : ℕ → Answer → Db → Option (ℕ × Db)
delete_tag_dependencies t n d =
    let gone = λ (e : DependencyRow). e.tag_id == t || e.dependency_tag_id == t in
    some (affected gone d.dependencies, record d { dependencies = without gone d.dependencies })

-- DELETE FROM tags WHERE id = $1
abbrev pub delete_tag_row : ℕ → Answer → Db → Option (ℕ × Db)
delete_tag_row t n d =
    let gone = λ (u : TagRow). u.id == t in some (affected gone d.tags, delete_tags gone d)

-- the statements of DeleteModuleTag, with no transaction around them
unfoldable pub delete_rows : ℕ → Io (Unit {0})
delete_rows t = do
  wrap "could not delete protofiles from database" (execute (delete_tag_files t))
  wrap "could not delete dependencies from database" (execute (delete_tag_dependencies t))
  count ← wrap "could not delete tag from database" (execute (delete_tag_row t))
  if count == 0 then raise tag_not_found else pure tt

unfoldable pub delete_module_tag : String → String → Io (Unit {0})
delete_module_tag name tag = do t ← the_tag_id name tag; delete_rows t
