-- ===== src/Registry/Frozen/Operations.antt =====
-- Every operation of the repository but the deletion of a tag or its module keeps the tag as stored.
use pbuf_registry.Prelude.{
  ℕ, String, Option, none, some, ◌≢◌, ◌⊎◌, ap, ◌∙◌, ◌==◌, string_eq, nat_eq, any, List, [], ◌∷◌,
  Bool-cases, inl, inr,
}
use pbuf_registry.Database.Tables.{ProtoFile, Dependency, Module, Db}
use pbuf_registry.Database.Io.{Answer, After, After-mono}
use pbuf_registry.Database.Keeps.{
  Leads, Keeps, Keeps-execute, Keeps-on_error, Keeps-bind, keeps_rules,
}
use pbuf_registry.Database.Triples.{
  Triple, Triple-execute, Triple-on_error, Triple-bind, Triple-query_row, Triple-weaken,
  Triple-of-Keeps, Leads-bind, Leads-from, Leads-to, Leads-then, Leads-statement, Leads-transaction,
}
use pbuf_registry.Registry.Modules.{register_module, delete_module, insert_module}
use pbuf_registry.Registry.Tags.{
  insert_file, insert_files, push_rows, push_found, push_module, delete_rows, delete_module_tag,
}
use pbuf_registry.Registry.Dependencies.{same_edge, insert_edge, add_edges, add_module_dependencies}
use pbuf_registry.Registry.Drafts.{
  Json, is_draft, or_fail, upsert_draft, push_draft_found, push_draft_module,
  delete_obsolete_draft_tags,
}
use pbuf_registry.Registry.Reads.{get_module-Keeps, the_tag_id-Keeps, the_tag_id-TagOf}
use pbuf_registry.Registry.WellFormed.{WellFormed}
use pbuf_registry.Registry.Frozen.{Stored, Apart}
use pbuf_registry.Registry.Frozen.Inserts.{
  OtherTag, insert_module-Stored, insert_tag-OtherTag, insert_file-Stored,
}
use pbuf_registry.Registry.Frozen.Deletes.{
  other_tag_id, delete_module_files-Apart, delete_module_dependencies-Apart,
  delete_module_tags-Apart, delete_module_draft_tags-Apart, delete_module_row-Apart,
  delete_tag_files-Apart, delete_tag_dependencies-Apart, delete_tag_row-Apart,
}

module _ (name tag : String) (m t : ℕ) (files : List ProtoFile) where
  abbrev pub Here : Db → Type 0
  Here = Stored name tag m t files

  abbrev pub Rows : Db → Type 0
  Rows = Apart name tag m t files

  pub register_module-Stored : (other : String) → Keeps Here (register_module other)
  unfolding register_module
  register_module-Stored other =
      Keeps-on_error _ _
        (Keeps-execute (insert_module other) (insert_module-Stored name tag m t files other))

  record Beside (t' : ℕ) (d : Db) : Type 0 where
    stored : Here d
    differs : t' ≢ t

  insert_files-Beside : (t' : ℕ) (fs : List ProtoFile) → Keeps (Beside t') (insert_files t' fs)
  unfolding insert_files
  insert_files-Beside t' [] = search keeps_rules
  insert_files-Beside t' (f ∷ fs) =
      Leads-statement {Q = λ _. Beside t'} _ _ _ (λ d h. h)
        (λ n d h.
          After-mono (insert_file t' f n d) (λ _ d' k. record { stored = k; differs = h.differs })
            (insert_file-Stored name tag m t files t' f n d h.differs h.stored))
        λ _. insert_files-Beside t' fs

  pub push_rows-Stored :
      (k : ℕ) (other : String) (fs : List ProtoFile)
      → Triple Here (push_rows k other fs) (λ _. Here)
  unfolding push_rows
  push_rows-Stored k other fs =
      Triple-bind _ _
        (Triple-on_error _ _ (
          Triple-execute {Q = λ _. OtherTag name tag m t files k other} _
            (insert_tag-OtherTag name tag m t files k other)))
        λ _. Triple-bind _ _ (Triple-on_error _ _ (Triple-query_row _)) λ t'.
          Triple-weaken _
            (λ d h. record { stored = h.0.stored; differs = λ e. h.0.differs (h.1 ∙ ap some e) })
            (λ _ d h. h.stored) (Triple-of-Keeps _ (insert_files-Beside t' fs))

  pub push_found-Stored :
      (found : Option Module) (other : String) (fs : List ProtoFile)
      → Keeps Here (push_found found other fs)
  unfolding push_found
  push_found-Stored none other fs = search keeps_rules
  push_found-Stored (some x) other fs = elim (Bool-cases (any (λ s. s == other) x.tags)) [
    | inl old ↦ rw old (search keeps_rules)
    | inr new ↦ rw new (
        Leads-then _ _ (Leads-transaction _ _ _ (λ d h. h) (push_rows-Stored x.id other fs))
          (λ _. search keeps_rules))
  ]

  pub push_module-Stored :
      (other other_tag : String) (fs : List ProtoFile) → Keeps Here (push_module other other_tag fs)
  unfolding push_module
  push_module-Stored other other_tag fs = search (keeps_rules, get_module-Keeps, push_found-Stored)

  -- Draft tags and dependencies are other tables.
  pub upsert_draft-Stored :
      (k : ℕ) (other fs deps : String) (n : Answer) (d : Db)
      → Here d
      → After (λ _. Here) (upsert_draft k other fs deps n d)
  upsert_draft-Stored k other fs deps n d h =
      elim (Bool-cases (any (is_draft k other) d.draft_tags)) [
        | inl e ↦ rw e (record { found = h.found; tagged = h.tagged; content = h.content })
        | inr e ↦ elim (Bool-cases (any (λ r. r.id == n.uuid) d.draft_tags)) [
          | inl f ↦ rw (e, f) tt
          | inr f ↦ rw (e, f) (record { found = h.found; tagged = h.tagged; content = h.content })
        ]
      ]

  pub or_fail-Stored : (o : Option String) (s : String) → Keeps Here (or_fail o s)
  unfolding or_fail
  or_fail-Stored none s = search keeps_rules
  or_fail-Stored (some x) s = search keeps_rules

  pub push_draft_found-Stored :
      (j : Json) (found : Option Module) (other : String) (fs : List ProtoFile)
      (deps : List Dependency)
      → Keeps Here (push_draft_found j found other fs deps)
  unfolding push_draft_found
  push_draft_found-Stored j none other fs deps = search keeps_rules
  push_draft_found-Stored j (some x) other fs deps = Keeps-bind _ _ (or_fail-Stored _ _) λ f.
      Keeps-bind _ _ (or_fail-Stored _ _) λ e.
        Leads-statement {Q = λ _. Here} _ _ _ (λ d h. h)
          (upsert_draft-Stored x.id other (j.jsonb f) (j.jsonb e)) λ _. search keeps_rules

  pub push_draft_module-Stored :
      (j : Json) (other other_tag : String) (fs : List ProtoFile) (deps : List Dependency)
      → Keeps Here (push_draft_module j other other_tag fs deps)
  unfolding push_draft_module
  push_draft_module-Stored j other other_tag fs deps =
      search (keeps_rules, get_module-Keeps, push_draft_found-Stored)

  pub insert_edge-Stored :
      (a b : ℕ) (n : Answer) (d : Db) → Here d → After (λ _. Here) (insert_edge a b n d)
  insert_edge-Stored a b n d h = elim (Bool-cases (any (same_edge a b) d.dependencies)) [
    | inl e ↦ rw e tt
    | inr e ↦ rw e (record { found = h.found; tagged = h.tagged; content = h.content })
  ]

  pub add_edges-Stored : (a : ℕ) (deps : List Dependency) → Keeps Here (add_edges a deps)
  unfolding add_edges
  add_edges-Stored a [] = search keeps_rules
  add_edges-Stored a (e ∷ es) = Keeps-bind _ _ (search keeps_rules) λ b.
      Leads-statement {Q = λ _. Here} _ _ _ (λ d h. h) (insert_edge-Stored a b)
        λ _. add_edges-Stored a es

  pub add_module_dependencies-Stored :
      (other other_tag : String) (deps : List Dependency)
      → Keeps Here (add_module_dependencies other other_tag deps)
  unfolding add_module_dependencies
  add_module_dependencies-Stored other other_tag deps =
      search (keeps_rules, the_tag_id-Keeps, add_edges-Stored)

  pub delete_obsolete_draft_tags-Stored : Keeps Here delete_obsolete_draft_tags
  unfolding delete_obsolete_draft_tags
  delete_obsolete_draft_tags-Stored =
      Leads-statement {Q = λ _. Here} _ _ _ (λ d h. h)
        (λ n d h. record { found = h.found; tagged = h.tagged; content = h.content })
        λ _. search keeps_rules

  apart_of : (d : Db) → WellFormed d × Here d → Rows d
  apart_of d h = record { modules = h.0.modules; tags = h.0.tags; stored = h.1 }

  pub delete_module-Stored :
      (other : String)
      → name ≢ other
      → Leads (λ d. WellFormed d × Here d) (delete_module other) Here
  unfolding delete_module
  delete_module-Stored other ne = Leads-from _ apart_of (
      Leads-statement {Q = λ _. Rows} _ _ _ (λ d h. h.stored)
        (λ n d h. delete_module_files-Apart name tag m t files other n d ne h)
        λ _.
          Leads-statement {Q = λ _. Rows} _ _ _ (λ d h. h.stored)
            (λ n d h. delete_module_dependencies-Apart name tag m t files other n d h)
            λ _.
              Leads-statement {Q = λ _. Rows} _ _ _ (λ d h. h.stored)
                (λ n d h. delete_module_tags-Apart name tag m t files other n d ne h)
                λ _.
                  Leads-statement {Q = λ _. Rows} _ _ _ (λ d h. h.stored)
                    (λ n d h. delete_module_draft_tags-Apart name tag m t files other n d h)
                    λ _.
                      Leads-statement {Q = λ _. Rows} _ _ _ (λ d h. h.stored)
                        (λ n d h. delete_module_row-Apart name tag m t files other n d ne h)
                        λ _. Leads-from _ (λ d h. h.stored) (search keeps_rules))

  record RowsBeside (t' : ℕ) (d : Db) : Type 0 where
    rows : Rows d
    differs : t' ≢ t

  delete_rows-Stored : (t' : ℕ) → Leads (RowsBeside t') (delete_rows t') Here
  unfolding delete_rows
  delete_rows-Stored t' =
      Leads-statement {Q = λ _. RowsBeside t'} _ _ _ (λ d h. h.rows.stored)
        (λ n d h. record {
          rows = delete_tag_files-Apart name tag m t files t' n d h.differs h.rows;
          differs = h.differs;
        })
        λ _.
          Leads-statement {Q = λ _. RowsBeside t'} _ _ _ (λ d h. h.rows.stored)
            (λ n d h. record {
              rows = delete_tag_dependencies-Apart name tag m t files t' n d h.rows;
              differs = h.differs;
            })
            λ _.
              Leads-statement {Q = λ _. Rows} _ _ _ (λ d h. h.rows.stored)
                (λ n d h. delete_tag_row-Apart name tag m t files t' n d h.differs h.rows)
                λ _. Leads-from _ (λ d h. h.stored) (search keeps_rules)

  pub delete_module_tag-Stored :
      (other other_tag : String)
      → (name ≢ other) ⊎ (tag ≢ other_tag)
      → Leads (λ d. WellFormed d × Here d) (delete_module_tag other other_tag) Here
  unfolding delete_module_tag
  delete_module_tag-Stored other other_tag ne =
      Leads-bind _ _ (the_tag_id-TagOf _ other other_tag)
        (Leads-to _ (λ d h. h.1) (the_tag_id-Keeps _ other other_tag))
        λ t'.
          Leads-from _
            (λ d h.
              let rows = apart_of d h.0 in
              record {
                rows = rows;
                differs = other_tag_id name tag m t files other other_tag t' d ne rows h.1;
              })
            (delete_rows-Stored t')
