-- ===== src/Servers/Metadata.antt =====
-- MetadataServer of internal/server/metadata.go.
use pbuf_registry.Prelude.{String, ◌==◌, string_eq, Option, List}
use pbuf_registry.Database.Errors.{message, nil_dereference}
use pbuf_registry.Database.Io.{Io, unless, ◌>>=◌, ◌>>◌}
use pbuf_registry.Drift.Protos.{Proto}
use pbuf_registry.Registry.Tags.{get_module_tag_id}
use pbuf_registry.Metadata.Store.{get_tag_meta_by_tag_id, get_parsed_proto_files}
use pbuf_registry.Metadata.Metadata.{Package, to_metadata}
use pbuf_registry.Servers.Api.{require}

unfoldable pub serve_get_metadata :
    (String → Option (Option Proto)) → (name tag : String) → Io (List Package)
serve_get_metadata unmarshal name tag = do
  unless (name == "") (message "module name is required")
  unless (tag == "") (message "tag is required")
  found ← get_module_tag_id name tag
  t ← require (message "module tag not found") found
  meta ← get_tag_meta_by_tag_id t
  require (message "tag meta not found") meta
  files ← get_parsed_proto_files unmarshal t
  require nil_dereference (to_metadata files)
