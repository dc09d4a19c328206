-- ===== src/Registry/WellFormed/Inserts.antt =====
-- Inserts and updates of one statement keep the tables well formed.
use pbuf_registry.Prelude.{
  ℕ, String, true, false, ◌≡◌, ◌==◌, ==_iff, nat_eq, string_eq, any, [], ◌∷◌, ◌++◌, Bool-cases, inl,
  inr, arith, all_mono, any-or, any-append_left, all-concat, Distinct-concat, Distinct-map,
}
use pbuf_registry.Database.Tables.{
  ProtoFile, ModuleRow, TagRow, FileRow, DependencyRow, DraftRow, Db,
}
use pbuf_registry.Database.Io.{Answer, After}
use pbuf_registry.Registry.Modules.{insert_module}
use pbuf_registry.Registry.Tags.{same_tag, same_file, insert_tag, insert_file, new_tag, new_file}
use pbuf_registry.Registry.Dependencies.{same_edge, insert_edge}
use pbuf_registry.Registry.Drafts.{is_draft, upsert_draft}
use pbuf_registry.Registry.WellFormed.{
  WellFormed, same_module, same_draft, same_edge_row, has_module, has_tag,
}

same_tag_sym : (t u : TagRow) → same_tag t u ≡ false → same_tag u t ≡ false
same_tag_sym t u h = ground (arith, ==_iff t.tag u.tag, ==_iff u.tag t.tag)

same_file_sym : (f g : FileRow) → same_file f g ≡ false → same_file g f ≡ false
same_file_sym f g h = ground (arith, ==_iff f.filename g.filename, ==_iff g.filename f.filename)

same_module_sym : (m n : ModuleRow) → same_module m n ≡ false → same_module n m ≡ false
same_module_sym m n h = ground (arith, ==_iff m.name n.name, ==_iff n.name m.name)

same_draft_sym : (r s : DraftRow) → same_draft r s ≡ false → same_draft s r ≡ false
same_draft_sym r s h = ground (arith, ==_iff r.tag s.tag, ==_iff s.tag r.tag)

same_edge_sym : (e f : DependencyRow) → same_edge_row e f ≡ false → same_edge_row f e ≡ false
same_edge_sym e f h = ground arith

pub insert_module-WellFormed :
    (name : String) (n : Answer) (d : Db)
    → WellFormed d
    → After (λ _. WellFormed) (insert_module name n d)
insert_module-WellFormed name n d h = elim (Bool-cases (any (λ m. m.name == name) d.modules)) [
  | inl e ↦ rw e h
  | inr e ↦ elim (Bool-cases (any (λ m. m.id == n.uuid) d.modules)) [
    | inl f ↦ rw (e, f) tt
    | inr f ↦
        rw (e, f)
          (record {
            modules =
                Distinct-concat same_module d.modules row (same_module_sym row)
                  (any-or (λ m. m.id == n.uuid) (λ m. m.name == name) d.modules f e) h.modules;
            tags = h.tags;
            files = h.files;
            edges = h.edges;
            drafts = h.drafts;
            tags_owned =
                all_mono (has_module d.modules) (has_module (d.modules ++ row ∷ [])) d.tags
                  (λ t. any-append_left (λ m. m.id == t.module_id) d.modules (row ∷ []))
                  h.tags_owned;
            files_owned = h.files_owned;
          })
  ]
]
  where
    row : ModuleRow
    row = record { id = n.uuid; name = name }

-- A tag of a module that is there.
pub insert_tag-WellFormed :
    (m : ℕ) (tag : String) (n : Answer) (d : Db)
    → WellFormed d
    → any (λ x. x.id == m) d.modules ≡ true
    → After (λ _. WellFormed) (insert_tag m tag n d)
insert_tag-WellFormed m tag n d h o = elim (Bool-cases (any (same_tag row) d.tags)) [
  | inl e ↦ rw e tt
  | inr e ↦ rw e (record {
    modules = h.modules;
    tags = Distinct-concat same_tag d.tags row (same_tag_sym row) e h.tags;
    files = h.files;
    edges = h.edges;
    drafts = h.drafts;
    tags_owned = all-concat (has_module d.modules) d.tags row h.tags_owned o;
    files_owned =
        all_mono (has_tag d.tags) (has_tag (d.tags ++ row ∷ [])) d.protofiles
          (λ f. any-append_left (λ t. t.id == f.tag_id) d.tags (row ∷ [])) h.files_owned;
  })
]
  where
    row : TagRow
    row = new_tag m tag n

-- A file of a tag that is there.
pub insert_file-WellFormed :
    (t : ℕ) (f : ProtoFile) (n : Answer) (d : Db)
    → WellFormed d
    → any (λ u. u.id == t) d.tags ≡ true
    → After (λ _. WellFormed) (insert_file t f n d)
insert_file-WellFormed t f n d h o = elim (Bool-cases (any (same_file row) d.protofiles)) [
  | inl e ↦ rw e tt
  | inr e ↦ rw e (record {
    modules = h.modules;
    tags = h.tags;
    files = Distinct-concat same_file d.protofiles row (same_file_sym row) e h.files;
    edges = h.edges;
    drafts = h.drafts;
    tags_owned = h.tags_owned;
    files_owned = all-concat (has_tag d.tags) d.protofiles row h.files_owned o;
  })
]
  where
    row : FileRow
    row = new_file t f n

pub insert_edge-WellFormed :
    (t u : ℕ) (n : Answer) (d : Db) → WellFormed d → After (λ _. WellFormed) (insert_edge t u n d)
insert_edge-WellFormed t u n d h = elim (Bool-cases (any (same_edge t u) d.dependencies)) [
  | inl e ↦ rw e tt
  | inr e ↦ rw e (record {
    modules = h.modules;
    tags = h.tags;
    files = h.files;
    edges = Distinct-concat same_edge_row d.dependencies row (same_edge_sym row) e h.edges;
    drafts = h.drafts;
    tags_owned = h.tags_owned;
    files_owned = h.files_owned;
  })
]
  where
    row : DependencyRow
    row = record { tag_id = t; dependency_tag_id = u }

pub upsert_draft-WellFormed :
    (m : ℕ) (tag files deps : String) (n : Answer) (d : Db)
    → WellFormed d
    → After (λ _. WellFormed) (upsert_draft m tag files deps n d)
upsert_draft-WellFormed m tag files deps n d h =
    elim (Bool-cases (any (is_draft m tag) d.draft_tags)) [
      | inl e ↦ rw e (record {
        modules = h.modules;
        tags = h.tags;
        files = h.files;
        edges = h.edges;
        drafts = Distinct-map _ same_draft same_draft d.draft_tags (λ r s k. ground arith) h.drafts;
        tags_owned = h.tags_owned;
        files_owned = h.files_owned;
      })
      | inr e ↦ elim (Bool-cases (any (λ r. r.id == n.uuid) d.draft_tags)) [
        | inl f ↦ rw (e, f) tt
        | inr f ↦
            rw (e, f)
              (record {
                modules = h.modules;
                tags = h.tags;
                files = h.files;
                edges = h.edges;
                drafts =
                    Distinct-concat same_draft d.draft_tags row (same_draft_sym row)
                      (any-or (λ r. r.id == n.uuid) (is_draft m tag) d.draft_tags f e) h.drafts;
                tags_owned = h.tags_owned;
                files_owned = h.files_owned;
              })
      ]
    ]
  where
    row : DraftRow
    row = record {
      id = n.uuid;
      module_id = m;
      tag = tag;
      proto_files = files;
      dependencies = deps;
      updated_at = n.now;
    }
