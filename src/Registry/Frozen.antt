-- ===== src/Registry/Frozen.antt =====
-- A stable tag and its files, as the tables hold them: what an immutable tag means.
pub mod Inserts
pub mod Deletes
pub mod Operations
use pbuf_registry.Prelude.{ℕ, String, Option, some, ◌≡◌, List, Distinct}
use pbuf_registry.Database.Tables.{ProtoFile, Db}
use pbuf_registry.Database.Queries.{module_id_by_name, tag_id_in}
use pbuf_registry.Registry.Tags.{same_tag, files_of}
use pbuf_registry.Registry.WellFormed.{same_module}

-- Module `name` has the id `m`, its tag `tag` the id `t`, and the files of `t` are `files`.
pub record Stored (name tag : String) (m t : ℕ) (files : List ProtoFile) (d : Db) : Type 0 where
  pub found : module_id_by_name name d ≡ some m
  pub tagged : tag_id_in (some m) tag d ≡ some t
  pub content : files_of t d ≡ files

-- ... and the rows of modules and tags are told apart.
pub record Apart (name tag : String) (m t : ℕ) (files : List ProtoFile) (d : Db) : Type 0 where
  pub modules : Distinct same_module d.modules
  pub tags : Distinct same_tag d.tags
  pub stored : Stored name tag m t files d
