-- ===== src/Registry/Drafts.antt =====
-- internal/data/registry.go: PushDraftModule, PullDraftModule, DeleteObsoleteDraftTags.
-- The files and the dependencies of a draft are stored as JSON in JSONB columns: the encoders, the
-- decoder and what PostgreSQL gives back for a stored text are parameters, the record `Json`.
use pbuf_registry.Prelude.{
  ℕ, ◌+◌, String, Bool, Option, none, some, List, [], ◌∷◌, ◌++◌, map, any, first, ltb, ◌≡◌, ◌==◌,
  nat_eq, string_eq, ◌&&◌, if◌then◌else◌,
}
use mathlib.Core.Option
use pbuf_registry.Database.Tables.{ProtoFile, Dependency, Module, DraftRow, Db}
use pbuf_registry.Database.Errors.{message, wrapped, is_no_rows, Result, ok, err}
use pbuf_registry.Database.Io.{
  Answer, Io, pure, raise, execute, query_row, attempt, wrap, ◌>>=◌, ◌>>◌,
}
use pbuf_registry.Database.Queries.{without, affected}
use pbuf_registry.Registry.Modules.{get_module}

-- encoding/json at []*v1.ProtoFile and []*v1.Dependency, and the text of a JSONB column
pub record Json : Type 0 where
  pub marshal_files : List ProtoFile → Option String
  pub marshal_dependencies : List Dependency → Option String
  pub jsonb : String → String
  pub unmarshal_files : String → Option (List ProtoFile)

-- What the code relies on: a stored list of files reads back as the same list.
pub record RoundTrips (j : Json) : Type 0 where
  pub files_back :
      (files : List ProtoFile) (s : String)
      → j.marshal_files files ≡ some s
      → j.unmarshal_files (j.jsonb s) ≡ some files

-- 7 days, in microseconds
abbrev pub week : ℕ
week = 604_800_000_000

abbrev pub is_draft : ℕ → String → DraftRow → Bool
is_draft m tag r = r.module_id == m && r.tag == tag

-- SET proto_files = $3, dependencies = $4, updated_at = NOW() on the row in conflict
abbrev pub update_drafts : ℕ → String → String → String → ℕ → List DraftRow → List DraftRow
update_drafts m tag files deps now = map λ (r : DraftRow).
    if is_draft m tag r
    then record r { proto_files = files; dependencies = deps; updated_at = now }
    else r

-- INSERT INTO draft_tags ... ON CONFLICT (module_id, tag) DO UPDATE
abbrev pub upsert_draft : ℕ → String → String → String → Answer → Db → Option (Unit {0} × Db)
upsert_draft m tag files deps n d =
    if any (is_draft m tag) d.draft_tags
    then some (tt, record d { draft_tags = update_drafts m tag files deps n.now d.draft_tags })
    else if any (λ r. r.id == n.uuid) d.draft_tags
    then none
    else some (
      tt,
      record d {
        draft_tags =
            d.draft_tags
            ++ record {
              id = n.uuid;
              module_id = m;
              tag = tag;
              proto_files = files;
              dependencies = deps;
              updated_at = n.now;
            }
              ∷ [];
      },
    )

unfoldable pub or_fail : Option String → String → Io String
or_fail none s = raise (message s)
or_fail (some t) s = pure t

abbrev pub add_draft_tag : String → List String → List String
add_draft_tag tag tags = if any (λ t. t == tag) tags then tags else tags ++ tag ∷ []

-- SELECT proto_files FROM draft_tags WHERE module_id = $1 AND tag = $2
abbrev pub draft_files : ℕ → String → Db → Option String
draft_files m tag d =
    Option.map (λ (r : DraftRow). r.proto_files) (first (is_draft m tag) d.draft_tags)

module _ (j : Json) where
  unfoldable pub push_draft_found :
      Option Module → String → List ProtoFile → List Dependency → Io Module
  push_draft_found none tag files deps = raise (message "module not found")
  push_draft_found (some m) tag files deps = do
    f ← or_fail (j.marshal_files files) "could not serialize protofiles"
    e ← or_fail (j.marshal_dependencies deps) "could not serialize dependencies"
    wrap "could not insert draft tag into database"
        (execute (upsert_draft m.id tag (j.jsonb f) (j.jsonb e)))
    pure (record m { draft_tags = add_draft_tag tag m.draft_tags })

  unfoldable pub push_draft_module : String → String → List ProtoFile → List Dependency → Io Module
  push_draft_module name tag files deps = do
    found ← wrap "could not get module" (get_module name)
    push_draft_found found tag files deps

  unfoldable pub decoded : Module → Option (List ProtoFile) → Io (Module × List ProtoFile)
  decoded m none = raise (message "could not unmarshal protofiles")
  decoded m (some files) = pure (m, files)

  unfoldable pub draft_row_found : Module → Result String → Io (Module × List ProtoFile)
  draft_row_found m (err e) =
      if is_no_rows e
      then raise (message "draft tag not found")
      else raise (wrapped "could not select draft tag from database" e)
  draft_row_found m (ok s) = decoded m (j.unmarshal_files s)

  unfoldable pub pull_draft_found : Option Module → String → Io (Module × List ProtoFile)
  pull_draft_found none tag = raise (message "module not found")
  pull_draft_found (some m) tag = do
    row ← attempt (query_row (draft_files m.id tag))
    draft_row_found m row

  unfoldable pub pull_draft_module : String → String → Io (Module × List ProtoFile)
  pull_draft_module name tag = do
    found ← wrap "could not get module" (get_module name)
    pull_draft_found found tag

-- DELETE FROM draft_tags WHERE updated_at < NOW() - INTERVAL '7 days'
abbrev pub delete_obsolete : Answer → Db → Option (ℕ × Db)
delete_obsolete n d =
    let gone = λ (r : DraftRow). ltb (r.updated_at + week) n.now in
    some (affected gone d.draft_tags, record d { draft_tags = without gone d.draft_tags })

unfoldable pub delete_obsolete_draft_tags : Io (Unit {0})
delete_obsolete_draft_tags = do
  wrap "could not delete draft tags from database" (execute delete_obsolete)
  pure tt
