-- ===== src/Registry/Invariant.antt =====
-- Every operation of the repository keeps the tables well formed, whatever fails and wherever.
use pbuf_registry.Prelude.{
  ℕ, String, true, Option, none, some, ◌≡◌, ◌==◌, ==_iff, nat_eq, string_eq, any, List, [], ◌∷◌,
  Bool-cases, inl, inr, first-any, map-first,
}
use pbuf_registry.Database.Tables.{ProtoFile, Dependency, Module, ModuleRow, TagRow, Db}
use pbuf_registry.Database.Io.{Answer, After}
use pbuf_registry.Database.Queries.{tag_id_in}
use pbuf_registry.Database.Keeps.{
  Leads, Keeps, Keeps-execute, Keeps-on_error, Keeps-bind, keeps_rules,
}
use pbuf_registry.Database.Triples.{
  Triple, Triple-execute, Triple-on_error, Triple-bind, Triple-query_row, Triple-of-Keeps,
  Triple-weaken, Leads-from, Leads-then, Leads-transaction, Leads-bind, Leads-statement,
}
use pbuf_registry.Registry.Modules.{register_module, get_module, delete_module, insert_module}
use pbuf_registry.Registry.Tags.{
  same_file, new_file, insert_tag, insert_file, insert_files, push_rows, push_found, push_module,
  delete_rows, delete_module_tag,
}
use pbuf_registry.Registry.Dependencies.{add_edges, add_module_dependencies}
use pbuf_registry.Registry.Drafts.{
  Json, or_fail, push_draft_found, push_draft_module, delete_obsolete_draft_tags,
}
use pbuf_registry.Registry.Reads.{get_module-Keeps, the_tag_id-Keeps, get_module-IdOf, IdOf}
use pbuf_registry.Registry.WellFormed.{WellFormed}
use pbuf_registry.Registry.WellFormed.Inserts.{
  insert_module-WellFormed, insert_tag-WellFormed, insert_file-WellFormed, insert_edge-WellFormed,
  upsert_draft-WellFormed,
}
use pbuf_registry.Registry.WellFormed.Deletes.{
  delete_module_files-NoFiles, delete_module_dependencies-NoFiles, delete_module_tags-NoTags,
  delete_module_draft_tags-NoTags, delete_module_row-WellFormed, delete_tag_files-NoTagFiles,
  delete_tag_dependencies-NoTagFiles, delete_tag_row-WellFormed, delete_obsolete-WellFormed,
}

pub register_module-WellFormed : (name : String) → Keeps WellFormed (register_module name)
unfolding register_module
register_module-WellFormed name =
    Keeps-on_error _ _ (Keeps-execute (insert_module name) (insert_module-WellFormed name))

-- The five deletes may stop anywhere; the tables are well formed after each of them.
pub delete_module-WellFormed : (name : String) → Keeps WellFormed (delete_module name)
unfolding delete_module
delete_module-WellFormed name =
    Leads-statement _ _ _ (λ d h. h) (delete_module_files-NoFiles name)
      λ _.
        Leads-statement _ _ _ (λ d h. h.well) (delete_module_dependencies-NoFiles name)
          λ _.
            Leads-statement _ _ _ (λ d h. h.well) (delete_module_tags-NoTags name)
              λ _.
                Leads-statement _ _ _ (λ d h. h.well) (delete_module_draft_tags-NoTags name)
                  λ _.
                    Leads-statement {Q = λ _. WellFormed} _ _ _ (λ d h. h.well)
                      (delete_module_row-WellFormed name) λ _. search keeps_rules

pub delete_module_tag-WellFormed :
    (name tag : String) → Keeps WellFormed (delete_module_tag name tag)
unfolding delete_module_tag delete_rows
delete_module_tag-WellFormed name tag = Keeps-bind _ _ (the_tag_id-Keeps WellFormed name tag) λ t.
    Leads-statement _ _ _ (λ d h. h) (delete_tag_files-NoTagFiles t)
      λ _.
        Leads-statement _ _ _ (λ d h. h.well) (delete_tag_dependencies-NoTagFiles t)
          λ _.
            Leads-statement {Q = λ _. WellFormed} _ _ _ (λ d h. h.well)
              (delete_tag_row-WellFormed t) λ _. search keeps_rules

add_edges-WellFormed : (t : ℕ) (deps : List Dependency) → Keeps WellFormed (add_edges t deps)
unfolding add_edges
add_edges-WellFormed t [] = search keeps_rules
add_edges-WellFormed t (e ∷ es) = Keeps-bind _ _ (search keeps_rules) λ u.
    Leads-statement {Q = λ _. WellFormed} _ _ _ (λ d h. h) (insert_edge-WellFormed t u)
      λ _. add_edges-WellFormed t es

pub add_module_dependencies-WellFormed :
    (name tag : String) (deps : List Dependency)
    → Keeps WellFormed (add_module_dependencies name tag deps)
unfolding add_module_dependencies
add_module_dependencies-WellFormed name tag deps =
    search (keeps_rules, the_tag_id-Keeps, add_edges-WellFormed)

or_fail-Keeps {κ} : (P : Db → Type κ) (o : Option String) (s : String) → Keeps P (or_fail o s)
unfolding or_fail
or_fail-Keeps P none s = search keeps_rules
or_fail-Keeps P (some t) s = search keeps_rules

push_draft_found-WellFormed :
    (j : Json) (found : Option Module) (tag : String) (files : List ProtoFile)
    (deps : List Dependency)
    → Keeps WellFormed (push_draft_found j found tag files deps)
unfolding push_draft_found
push_draft_found-WellFormed j none tag files deps = search keeps_rules
push_draft_found-WellFormed j (some m) tag files deps = Keeps-bind _ _ (or_fail-Keeps _ _ _) λ f.
    Keeps-bind _ _ (or_fail-Keeps _ _ _) λ e.
      Leads-statement {Q = λ _. WellFormed} _ _ _ (λ d h. h)
        (upsert_draft-WellFormed m.id tag (j.jsonb f) (j.jsonb e)) λ _. search keeps_rules

pub push_draft_module-WellFormed :
    (j : Json) (name tag : String) (files : List ProtoFile) (deps : List Dependency)
    → Keeps WellFormed (push_draft_module j name tag files deps)
unfolding push_draft_module
push_draft_module-WellFormed j name tag files deps =
    search (keeps_rules, get_module-Keeps, push_draft_found-WellFormed)

pub delete_obsolete_draft_tags-WellFormed : Keeps WellFormed delete_obsolete_draft_tags
unfolding delete_obsolete_draft_tags
delete_obsolete_draft_tags-WellFormed =
    Leads-statement {Q = λ _. WellFormed} _ _ _ (λ d h. h) delete_obsolete-WellFormed
      λ _. search keeps_rules

-- What a push relies on: the module is there, and later the tag.
record WithModule (m : ℕ) (d : Db) : Type 0 where
  well : WellFormed d
  there : any (λ x. x.id == m) d.modules ≡ true

record WithTag (t : ℕ) (d : Db) : Type 0 where
  well : WellFormed d
  there : any (λ u. u.id == t) d.tags ≡ true

insert_tag-WithModule :
    (m : ℕ) (tag : String) (n : Answer) (d : Db)
    → WithModule m d
    → After (λ _. WellFormed) (insert_tag m tag n d)
insert_tag-WithModule m tag n d h = insert_tag-WellFormed m tag n d h.well h.there

insert_file-WithTag :
    (t : ℕ) (f : ProtoFile) (n : Answer) (d : Db)
    → WithTag t d
    → After (λ _. WithTag t) (insert_file t f n d)
insert_file-WithTag t f n d h = elim (Bool-cases (any (same_file (new_file t f n)) d.protofiles)) [
  | inl e ↦ rw e tt
  | inr e ↦
      rw e
        (record { well = rw e at (insert_file-WellFormed t f n d h.well h.there); there = h.there })
]

insert_files-WithTag : (t : ℕ) (fs : List ProtoFile) → Keeps (WithTag t) (insert_files t fs)
unfolding insert_files
insert_files-WithTag t [] = search keeps_rules
insert_files-WithTag t (f ∷ fs) =
    Leads-statement {Q = λ _. WithTag t} _ _ _ (λ d h. h) (insert_file-WithTag t f)
      λ _. insert_files-WithTag t fs

tag_there :
    (m : Option ℕ) (tag : String) (t : ℕ) (d : Db)
    → tag_id_in m tag d ≡ some t
    → any (λ u. u.id == t) d.tags ≡ true
tag_there m tag t d h =
    let (u, found, e) = map-first (λ (u : TagRow). u.id) _ d.tags t h in
    first-any _ (λ u. u.id == t) d.tags u found ((==_iff u.id t).1 e)

push_rows-WellFormed :
    (m : ℕ) (tag : String) (files : List ProtoFile)
    → Triple (WithModule m) (push_rows m tag files) (λ _. WellFormed)
unfolding push_rows
push_rows-WellFormed m tag files =
    Triple-bind _ _ (Triple-on_error _ _ (Triple-execute _ (insert_tag-WithModule m tag))) λ _.
      Triple-bind _ _ (Triple-on_error _ _ (Triple-query_row _)) λ t.
        Triple-weaken _ (λ d h. record { well = h.0; there = tag_there (some m) tag t d h.1 })
          (λ _ d h. h.well) (Triple-of-Keeps _ (insert_files-WithTag t files))

abbrev Found : Option Module → Db → Type 0
Found none = WellFormed
Found (some m) = WithModule m.id

get_module-Found : (name : String) → Triple WellFormed (get_module name) Found
get_module-Found name = Triple-weaken _ (λ d h. h) there (get_module-IdOf WellFormed name)
  where
    there : (o : Option Module) (d : Db) → WellFormed d × IdOf name d o → Found o d
    there none d h = h.0
    there (some m) d h =
        let (x, found, e) = map-first (λ (x : ModuleRow). x.id) _ d.modules m.id h.1 in
        record {
          well = h.0;
          there = first-any _ (λ x. x.id == m.id) d.modules x found ((==_iff x.id m.id).1 e);
        }

push_found-WellFormed :
    (found : Option Module) (tag : String) (files : List ProtoFile)
    → Leads (Found found) (push_found found tag files) WellFormed
unfolding push_found
push_found-WellFormed none tag files = search keeps_rules
push_found-WellFormed (some m) tag files = elim (Bool-cases (any (λ t. t == tag) m.tags)) [
  | inl old ↦ rw old (Leads-from _ (λ d h. h.well) (search keeps_rules))
  | inr new ↦ rw new (
      Leads-then _ _ (Leads-transaction _ _ _ (λ d h. h.well) (push_rows-WellFormed m.id tag files))
        (λ _. search keeps_rules))
]

pub push_module-WellFormed :
    (name tag : String) (files : List ProtoFile) → Keeps WellFormed (push_module name tag files)
unfolding push_module
push_module-WellFormed name tag files =
    Leads-bind _ _ (Triple-on_error _ _ (get_module-Found name))
      (Keeps-on_error _ _ (get_module-Keeps WellFormed name))
      λ found. push_found-WellFormed found tag files
