-- ===== src/Registry/WellFormed/Deletes.antt =====
-- Deletes of one statement keep the tables well formed, and what the deletes that come first leave
-- for those that follow.
use pbuf_registry.Prelude.{
  ℕ, String, Bool, true, false, not, ◌≡◌, ◌&&◌, ◌==◌, ==_iff, nat_eq, string_eq, any, all, select,
  Option-cases, inl, inr, arith, all-select, all-of_select, all-and, all_mono, any-none,
  any-select_other, first-none, Distinct-select, Distinct-any, any_mono, first-passes,
}
use pbuf_registry.Database.Tables.{ModuleRow, TagRow, FileRow, DependencyRow, DraftRow, Db}
use pbuf_registry.Database.Io.{Answer, After}
use pbuf_registry.Database.Queries.{
  module_by_name, module_id_by_name, is_id, is_tag_of, without, delete_tags,
}
use pbuf_registry.Registry.Modules.{
  delete_module_files, delete_module_dependencies, delete_module_tags, delete_module_draft_tags,
  delete_module_row,
}
use pbuf_registry.Registry.Tags.{
  same_tag, same_file, delete_tag_files, delete_tag_dependencies, delete_tag_row,
}
use pbuf_registry.Registry.Drafts.{delete_obsolete}
use pbuf_registry.Registry.WellFormed.{
  WellFormed, same_module, same_draft, same_edge_row, has_module, has_tag,
}

abbrev pub outside : String → Db → FileRow → Bool
outside name d f = not (is_tag_of (module_id_by_name name d) d.tags f.tag_id)

abbrev pub elsewhere : String → Db → TagRow → Bool
elsewhere name d t = not (is_id (module_id_by_name name d) t.module_id)

-- No file of the module's tags is left.
pub record NoFiles (name : String) (d : Db) : Type 0 where
  pub well : WellFormed d
  pub gone : all (outside name d) d.protofiles ≡ true

-- No tag of the module is left.
pub record NoTags (name : String) (d : Db) : Type 0 where
  pub well : WellFormed d
  pub gone : all (elsewhere name d) d.tags ≡ true

pub delete_module_files-NoFiles :
    (name : String) (n : Answer) (d : Db)
    → WellFormed d
    → After (λ _. NoFiles name) (delete_module_files name n d)
delete_module_files-NoFiles name n d h = record {
  well = record {
    modules = h.modules;
    tags = h.tags;
    files = Distinct-select same_file (outside name d) d.protofiles h.files;
    edges = h.edges;
    drafts = h.drafts;
    tags_owned = h.tags_owned;
    files_owned = all-select (outside name d) (has_tag d.tags) d.protofiles h.files_owned;
  };
  gone = all-of_select (outside name d) d.protofiles;
}

edges_deleted :
    (d : Db) (p : DependencyRow → Bool)
    → WellFormed d
    → WellFormed (record d { dependencies = select p d.dependencies })
edges_deleted d p h = record {
  modules = h.modules;
  tags = h.tags;
  files = h.files;
  edges = Distinct-select same_edge_row p d.dependencies h.edges;
  drafts = h.drafts;
  tags_owned = h.tags_owned;
  files_owned = h.files_owned;
}

drafts_deleted :
    (d : Db) (p : DraftRow → Bool)
    → WellFormed d
    → WellFormed (record d { draft_tags = select p d.draft_tags })
drafts_deleted d p h = record {
  modules = h.modules;
  tags = h.tags;
  files = h.files;
  edges = h.edges;
  drafts = Distinct-select same_draft p d.draft_tags h.drafts;
  tags_owned = h.tags_owned;
  files_owned = h.files_owned;
}

pub delete_module_dependencies-NoFiles :
    (name : String) (n : Answer) (d : Db)
    → NoFiles name d
    → After (λ _. NoFiles name) (delete_module_dependencies name n d)
delete_module_dependencies-NoFiles name n d h = record {
  well = edges_deleted d _ h.well;
  gone = h.gone;
}

abbrev free_of : (TagRow → Bool) → Db → FileRow → Bool
free_of g d f = not (any (λ t. g t && t.id == f.tag_id) d.tags)

still_tagged :
    (d : Db) (g : TagRow → Bool) (f : FileRow)
    → (has_tag d.tags f && free_of g d f) ≡ true
    → has_tag (without g d.tags) f ≡ true
still_tagged d g f h =
    any-select_other g (λ t. t.id == f.tag_id) d.tags (ground arith) (ground arith)

-- Tags go that no file stands under.
tags_deleted :
    (d : Db) (g : TagRow → Bool)
    → WellFormed d
    → all (free_of g d) d.protofiles ≡ true
    → WellFormed (delete_tags g d)
tags_deleted d g h k = record {
  modules = h.modules;
  tags = Distinct-select same_tag (λ t. not (g t)) d.tags h.tags;
  files = h.files;
  edges = h.edges;
  drafts = h.drafts;
  tags_owned = all-select (λ t. not (g t)) (has_module d.modules) d.tags h.tags_owned;
  files_owned =
      all_mono (λ f. has_tag d.tags f && free_of g d f) (has_tag (without g d.tags)) d.protofiles
        (still_tagged d g) (all-and (has_tag d.tags) (free_of g d) d.protofiles h.files_owned k);
}

pub delete_module_tags-NoTags :
    (name : String) (n : Answer) (d : Db)
    → NoFiles name d
    → After (λ _. NoTags name) (delete_module_tags name n d)
delete_module_tags-NoTags name n d h = record {
  well = tags_deleted d (λ t. is_id (module_id_by_name name d) t.module_id) h.well h.gone;
  gone = all-of_select (elsewhere name d) d.tags;
}

pub delete_module_draft_tags-NoTags :
    (name : String) (n : Answer) (d : Db)
    → NoTags name d
    → After (λ _. NoTags name) (delete_module_draft_tags name n d)
delete_module_draft_tags-NoTags name n d h = record {
  well = drafts_deleted d _ h.well;
  gone = h.gone;
}

namesakes :
    (name : String) (m n : ModuleRow)
    → (m.name == name) ≡ true
    → (n.name == name) ≡ true
    → (same_module m n ≡ true) × (same_module n m ≡ true)
namesakes name m n h k =
    ground
      (arith, ==_iff m.name name, ==_iff n.name name, ==_iff m.name n.name, ==_iff n.name m.name)

-- A tag outside the module of that name does not refer to it, since names are unique.
not_referred :
    (name : String) (d : Db) (t : TagRow)
    → WellFormed d
    → elsewhere name d t ≡ true
    → any (λ m. m.name == name && m.id == t.module_id) d.modules ≡ false
not_referred name d t h e = elim (Option-cases (module_by_name name d)) [
  | inl o ↦
      any_mono (λ m. m.name == name && m.id == t.module_id) (λ m. m.name == name) d.modules
        (λ m f. ground arith) (first-none _ d.modules o)
  | inr (r, o) ↦
      Distinct-any same_module (λ m. m.name == name) (λ m. m.name == name && m.id == t.module_id)
        d.modules r (λ u k. namesakes name r u (first-passes _ d.modules r o) (ground arith))
        h.modules o (let e' : not (t.module_id == r.id) ≡ true = rw o at e in ground arith)
]

still_owned :
    (name : String) (d : Db) (t : TagRow)
    → WellFormed d
    → (has_module d.modules t && elsewhere name d t) ≡ true
    → has_module (without (λ m. m.name == name) d.modules) t ≡ true
still_owned name d t h k =
    any-select_other (λ m. m.name == name) (λ m. m.id == t.module_id) d.modules (ground arith)
      (not_referred name d t h (ground arith))

pub delete_module_row-WellFormed :
    (name : String) (n : Answer) (d : Db)
    → NoTags name d
    → After (λ _. WellFormed) (delete_module_row name n d)
delete_module_row-WellFormed name n d h = record {
  modules = Distinct-select same_module (λ m. not (m.name == name)) d.modules h.well.modules;
  tags = h.well.tags;
  files = h.well.files;
  edges = h.well.edges;
  drafts = h.well.drafts;
  tags_owned =
      all_mono (λ t. has_module d.modules t && elsewhere name d t)
        (has_module (without (λ m. m.name == name) d.modules)) d.tags
        (λ t. still_owned name d t h.well)
        (all-and (has_module d.modules) (elsewhere name d) d.tags h.well.tags_owned h.gone);
  files_owned = h.well.files_owned;
}

-- No file of the tag is left.
pub record NoTagFiles (t : ℕ) (d : Db) : Type 0 where
  pub well : WellFormed d
  pub gone : all (λ f. not (f.tag_id == t)) d.protofiles ≡ true

pub delete_tag_files-NoTagFiles :
    (t : ℕ) (n : Answer) (d : Db)
    → WellFormed d
    → After (λ _. NoTagFiles t) (delete_tag_files t n d)
delete_tag_files-NoTagFiles t n d h = record {
  well = record {
    modules = h.modules;
    tags = h.tags;
    files = Distinct-select same_file (λ f. not (f.tag_id == t)) d.protofiles h.files;
    edges = h.edges;
    drafts = h.drafts;
    tags_owned = h.tags_owned;
    files_owned = all-select (λ f. not (f.tag_id == t)) (has_tag d.tags) d.protofiles h.files_owned;
  };
  gone = all-of_select (λ f. not (f.tag_id == t)) d.protofiles;
}

pub delete_tag_dependencies-NoTagFiles :
    (t : ℕ) (n : Answer) (d : Db)
    → NoTagFiles t d
    → After (λ _. NoTagFiles t) (delete_tag_dependencies t n d)
delete_tag_dependencies-NoTagFiles t n d h = record {
  well = edges_deleted d _ h.well;
  gone = h.gone;
}

pub delete_tag_row-WellFormed :
    (t : ℕ) (n : Answer) (d : Db) → NoTagFiles t d → After (λ _. WellFormed) (delete_tag_row t n d)
delete_tag_row-WellFormed t n d h =
    tags_deleted d (λ u. u.id == t) h.well
      (all_mono (λ f. not (f.tag_id == t)) (free_of (λ u. u.id == t) d) d.protofiles
        (λ f k. other f (ground arith)) h.gone)
  where
    other : (f : FileRow) → (f.tag_id == t) ≡ false → free_of (λ u. u.id == t) d f ≡ true
    other f k = rw (any-none (λ u. u.id == t && u.id == f.tag_id) d.tags (λ u. ground arith))

pub delete_obsolete-WellFormed :
    (n : Answer) (d : Db) → WellFormed d → After (λ _. WellFormed) (delete_obsolete n d)
delete_obsolete-WellFormed n d h = drafts_deleted d _ h
