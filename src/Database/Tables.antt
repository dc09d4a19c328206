-- ===== src/Database/Tables.antt =====
-- The tables of migrations/*.sql and the Go structs of internal/model and of the generated v1
-- package that the repositories read rows into. A UUID is a number, and a time is a number of
-- microseconds, the resolution of a PostgreSQL timestamp. The column `updated_at` of `modules` and
-- of `protofiles`, and the generated `id` of `dependencies`, are not read by the code and have no
-- field.
use pbuf_registry.Prelude.{ℕ, String, Bool, Option, List, []}

-- v1.ProtoFile
pub record ProtoFile : Type 0 where
  pub filename : String
  pub content : String

-- v1.Dependency
pub record Dependency : Type 0 where
  pub name : String
  pub tag : String
  pub dependency_type : String

-- v1.Module
pub record Module : Type 0 where
  pub id : ℕ
  pub name : String
  pub tags : List String
  pub draft_tags : List String
  pub packages : List String

pub record ModuleRow : Type 0 where
  pub id : ℕ
  pub name : String

pub record TagRow : Type 0 where
  pub id : ℕ
  pub module_id : ℕ
  pub tag : String
  pub updated_at : ℕ
  pub is_processed : Bool

pub record FileRow : Type 0 where
  pub id : ℕ
  pub tag_id : ℕ
  pub filename : String
  pub content : String
  pub content_hash : Option String

pub record DependencyRow : Type 0 where
  pub tag_id : ℕ
  pub dependency_tag_id : ℕ

pub record DraftRow : Type 0 where
  pub id : ℕ
  pub module_id : ℕ
  pub tag : String
  pub proto_files : String
  pub dependencies : String
  pub updated_at : ℕ

-- model.DriftEventType and model.DriftSeverity
pub data DriftEventType : Type 0 where
  added modified deleted : DriftEventType

pub data DriftSeverity : Type 0 where
  info warning critical : DriftSeverity

pub record DriftRow : Type 0 where
  pub id : ℕ
  pub module_id : ℕ
  pub tag_id : ℕ
  pub filename : String
  pub event_type : DriftEventType
  pub previous_hash : Option String
  pub current_hash : Option String
  pub severity : DriftSeverity
  pub detected_at : ℕ
  pub acknowledged : Bool
  pub acknowledged_at : Option ℕ
  pub acknowledged_by : Option String

-- model.Permission, a Go string with three constants
abbrev pub Permission : Type 0
Permission = String

abbrev pub permission_read : Permission
permission_read = "read"

abbrev pub permission_write : Permission
permission_write = "write"

abbrev pub permission_admin : Permission
permission_admin = "admin"

pub record AclRow : Type 0 where
  pub id : ℕ
  pub user_id : ℕ
  pub module_name : String
  pub permission : Permission
  pub created_at : ℕ

-- model.User, whose `token` column holds the crypt hash; `kind` is its `type`.
pub record UserRow : Type 0 where
  pub id : ℕ
  pub name : String
  pub token : String
  pub kind : String
  pub is_active : Bool
  pub created_at : ℕ
  pub updated_at : ℕ

-- A row of proto_parsed_data
pub record ParsedRow : Type 0 where
  pub tag_id : ℕ
  pub filename : String
  pub json : String

-- model.FileMeta and model.TagMeta
pub record FileMeta : Type 0 where
  pub filename : String
  pub packages : List String
  pub imports : List String
  pub ref_packages : List String

pub record TagMeta : Type 0 where
  pub packages : List String
  pub imports : List String
  pub ref_packages : List String
  pub files_meta : List FileMeta

-- A row of tag_meta, whose column `meta` holds the JSON of a TagMeta; the driver writes and reads it
-- as the struct.
pub record MetaRow : Type 0 where
  pub tag_id : ℕ
  pub meta : TagMeta

pub record Db : Type 0 where
  pub modules : List ModuleRow
  pub tags : List TagRow
  pub protofiles : List FileRow
  pub dependencies : List DependencyRow
  pub draft_tags : List DraftRow
  pub drift_events : List DriftRow
  pub acl : List AclRow
  pub users : List UserRow
  pub parsed : List ParsedRow
  pub tag_meta : List MetaRow

abbrev pub empty_db : Db
empty_db = record {
  modules = [];
  tags = [];
  protofiles = [];
  dependencies = [];
  draft_tags = [];
  drift_events = [];
  acl = [];
  users = [];
  parsed = [];
  tag_meta = [];
}
