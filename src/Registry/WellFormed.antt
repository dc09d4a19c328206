-- ===== src/Registry/WellFormed.antt =====
-- The constraints of the schema on the registry's tables, and the two references between tables
-- that the schema does not enforce and the code keeps.
pub mod Inserts
pub mod Deletes
use pbuf_registry.Prelude.{
  ℕ, String, Bool, true, ◌≡◌, ◌&&◌, ◌||◌, ◌==◌, nat_eq, string_eq, any, all, List, Distinct,
}
use pbuf_registry.Database.Tables.{ModuleRow, TagRow, FileRow, DependencyRow, DraftRow, Db}
use pbuf_registry.Registry.Tags.{same_tag, same_file}
use pbuf_registry.Registry.Dependencies.{same_edge}
use pbuf_registry.Registry.Drafts.{is_draft}

-- PRIMARY KEY (id), name UNIQUE
abbrev pub same_module : ModuleRow → ModuleRow → Bool
same_module m n = n.id == m.id || n.name == m.name

-- PRIMARY KEY (id), UNIQUE (module_id, tag)
abbrev pub same_draft : DraftRow → DraftRow → Bool
same_draft r s = s.id == r.id || is_draft r.module_id r.tag s

abbrev pub same_edge_row : DependencyRow → DependencyRow → Bool
same_edge_row e f = same_edge e.tag_id e.dependency_tag_id f

abbrev pub has_module : List ModuleRow → TagRow → Bool
has_module ms t = any (λ m. m.id == t.module_id) ms

abbrev pub has_tag : List TagRow → FileRow → Bool
has_tag ts f = any (λ t. t.id == f.tag_id) ts

pub record WellFormed (d : Db) : Type 0 where
  pub modules : Distinct same_module d.modules
  pub tags : Distinct same_tag d.tags
  pub files : Distinct same_file d.protofiles
  pub edges : Distinct same_edge_row d.dependencies
  pub drafts : Distinct same_draft d.draft_tags
  pub tags_owned : all (has_module d.modules) d.tags ≡ true
  pub files_owned : all (has_tag d.tags) d.protofiles ≡ true
