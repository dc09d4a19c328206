-- ===== src/Servers/Registry.antt =====
-- RegistryServer of internal/server/registry.go, but ListModules. What is logged is left out.
use pbuf_registry.Prelude.{
  ℕ, String, Bool, ◌==◌, string_eq, Option, none, some, List, [], ◌∷◌, concat, if◌then◌else◌,
}
use pbuf_registry.Database.Tables.{ProtoFile, Dependency, Module, TagMeta}
use pbuf_registry.Database.Errors.{Error, Result, ok, err, message, is_tag_not_found}
use pbuf_registry.Database.Io.{Io, pure, raise, attempt, unless, ◌>>=◌, ◌>>◌}
use pbuf_registry.Registry.Modules.{register_module, get_module, delete_module}
use pbuf_registry.Registry.Tags.{push_module, pull_module, get_module_tag_id, delete_module_tag}
use pbuf_registry.Registry.Drafts.{Json, push_draft_module, pull_draft_module}
use pbuf_registry.Registry.Dependencies.{
  add_module_dependencies, get_module_dependencies, get_transitive_dependencies,
}
use pbuf_registry.Metadata.Parsers.{Parser, validate_proto_files}
use pbuf_registry.Metadata.Store.{get_tag_meta_by_tag_id}

pub record PushModuleRequest : Type 0 where
  pub module_name : String
  pub tag : String
  pub protofiles : List ProtoFile
  pub dependencies : List Dependency
  pub is_draft : Bool

abbrev pub no_name : Error
no_name = message "name cannot be empty"

abbrev pub no_tag : Error
no_tag = message "tag cannot be empty"

-- The module that RegisterModule returns has its name only.
unfoldable pub serve_register_module : String → Io Module
serve_register_module name = do
  unless (name == "") no_name
  register_module name
  pure (record { id = 0; name = name; tags = []; draft_tags = []; packages = [] })

abbrev pub with_packages : Module → Option TagMeta → Module
with_packages m none = m
with_packages m (some meta) = record m { packages = meta.packages }

-- `none` is the empty id of a tag that was not found, which is no UUID: the query is refused.
unfoldable pub meta_at : Option ℕ → Io (Option TagMeta)
meta_at none = raise (message "invalid input syntax for type uuid")
meta_at (some t) = get_tag_meta_by_tag_id t

unfoldable pub fill_packages : String → Module → List String → Io Module
fill_packages name m [] = pure m
fill_packages name m (tag ∷ tags) = do
  t ← get_module_tag_id name tag
  meta ← meta_at t
  pure (with_packages m meta)

unfoldable pub module_found : String → Option Module → Io Module
module_found name none = raise (message "module not found")
module_found name (some m) = fill_packages name m m.tags

unfoldable pub serve_get_module : String → Io Module
serve_get_module name = do unless (name == "") no_name; m ← get_module name; module_found name m

unfoldable pub serve_delete_module : String → Io String
serve_delete_module name = do unless (name == "") no_name; delete_module name; pure name

abbrev pub refuse_invalid : Option Error → Io (Unit {0})
refuse_invalid none = pure tt
refuse_invalid (some e) = raise e

unfoldable pub push_stable : PushModuleRequest → Io Module
push_stable q = do
  m ← push_module q.module_name q.tag q.protofiles
  add_module_dependencies q.module_name q.tag q.dependencies
  pure m

module _ {Ast : Type 0} (parser : Parser Ast) (j : Json) where
  unfoldable pub serve_push_module : PushModuleRequest → Io Module
  serve_push_module q = do
    unless (q.module_name == "") no_name
    unless (q.tag == "") no_tag
    refuse_invalid (validate_proto_files parser q.protofiles)
    if q.is_draft
        then push_draft_module j q.module_name q.tag q.protofiles q.dependencies
        else push_stable q

module _ (j : Json) where
  unfoldable pub draft_pulled :
      String → String → Result (Module × List ProtoFile) → Io (Module × List ProtoFile)
  draft_pulled name tag (ok r) = pure r
  draft_pulled name tag (err e) =
      if is_tag_not_found e
      then raise (message (concat ("tag " ∷ tag ∷ " not found for module " ∷ name ∷ [])))
      else raise e

  -- The draft is looked for if there is no stable tag.
  unfoldable pub stable_pulled :
      String → String → Result (Module × List ProtoFile) → Io (Module × List ProtoFile)
  stable_pulled name tag (ok r) = pure r
  stable_pulled name tag (err e) =
      if is_tag_not_found e
      then (do r ← attempt (pull_draft_module j name tag); draft_pulled name tag r)
      else raise e

  unfoldable pub serve_pull_module : String → String → Io (Module × List ProtoFile)
  serve_pull_module name tag = do
    unless (name == "") no_name
    unless (tag == "") no_tag
    r ← attempt (pull_module name tag)
    stable_pulled name tag r

unfoldable pub serve_delete_module_tag : String → String → Io (String × String)
serve_delete_module_tag name tag = do
  unless (name == "") no_name
  unless (tag == "") no_tag
  delete_module_tag name tag
  pure (name, tag)

-- The search for transitive dependencies runs on `fuel` rounds; `none` says that they are spent.
unfoldable pub serve_get_module_dependencies :
    (fuel : ℕ) (name tag : String) (transitive : Bool) → Io (Option (List Dependency))
serve_get_module_dependencies fuel name tag transitive = do
  unless (name == "") no_name
  if transitive
      then get_transitive_dependencies fuel name tag
      else (do deps ← get_module_dependencies name tag; pure (some deps))
