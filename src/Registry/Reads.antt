-- ===== src/Registry/Reads.antt =====
-- The operations of the repository that only read: they change nothing, and what they return stands
-- in the tables.
use pbuf_registry.Prelude.{ℕ, String, Option, none, some, ◌≡◌, List, [], ◌∷◌, Bool-cases, inl, inr}
use pbuf_registry.Database.Tables.{ProtoFile, Module, ModuleRow, Db}
use pbuf_registry.Database.Errors.{Result, ok, err, is_no_rows}
use pbuf_registry.Database.Queries.{module_by_name, module_id_by_name, tag_id_by_name}
use pbuf_registry.Database.Keeps.{Keeps, Keeps-bind, keeps_rules}
use pbuf_registry.Database.Triples.{
  Triple, Triple-on_error, Triple-bind, Triple-pure, Triple-scan, Triple-raise, Triple-attempt_row,
  Triple-weaken, RowOf,
}
use pbuf_registry.Registry.Modules.{get_module, get_found}
use pbuf_registry.Registry.Tags.{
  get_module_tag_id, tag_id_found, require_tag, the_tag_id, pull_module, pull_found,
}
use pbuf_registry.Registry.Drafts.{
  Json, decoded, draft_row_found, pull_draft_found, pull_draft_module,
}
use pbuf_registry.Registry.Dependencies.{
  name_edges, dependencies_at, at_latest, get_module_dependencies,
}

module _ {κ} (P : Db → Type κ) where
  get_found-Keeps : (r : Result ModuleRow) → Keeps P (get_found r)
  unfolding get_found
  get_found-Keeps (ok m) = search keeps_rules
  get_found-Keeps (err e) = search keeps_rules

  pub get_module-Keeps : (name : String) → Keeps P (get_module name)
  unfolding get_module
  get_module-Keeps name = search (keeps_rules, get_found-Keeps)

  tag_id_found-Keeps : (r : Result ℕ) → Keeps P (tag_id_found r)
  unfolding tag_id_found
  tag_id_found-Keeps (ok t) = search keeps_rules
  tag_id_found-Keeps (err e) = search keeps_rules

  require_tag-Keeps : (o : Option ℕ) → Keeps P (require_tag o)
  unfolding require_tag
  require_tag-Keeps none = search keeps_rules
  require_tag-Keeps (some t) = search keeps_rules

  pub the_tag_id-Keeps : (name tag : String) → Keeps P (the_tag_id name tag)
  unfolding the_tag_id get_module_tag_id
  the_tag_id-Keeps name tag = search (keeps_rules, tag_id_found-Keeps, require_tag-Keeps)

  pull_found-Keeps : (o : Option Module) (name tag : String) → Keeps P (pull_found o name tag)
  unfolding pull_found
  pull_found-Keeps none name tag = search keeps_rules
  pull_found-Keeps (some m) name tag = search (keeps_rules, the_tag_id-Keeps)

  pub pull_module-Keeps : (name tag : String) → Keeps P (pull_module name tag)
  unfolding pull_module
  pull_module-Keeps name tag = search (keeps_rules, get_module-Keeps, pull_found-Keeps)

  decoded-Keeps : (j : Json) (m : Module) (o : Option (List ProtoFile)) → Keeps P (decoded j m o)
  unfolding decoded
  decoded-Keeps j m none = search keeps_rules
  decoded-Keeps j m (some files) = search keeps_rules

  draft_row_found-Keeps :
      (j : Json) (m : Module) (r : Result String) → Keeps P (draft_row_found j m r)
  unfolding draft_row_found
  draft_row_found-Keeps j m (ok s) = decoded-Keeps j m (j.unmarshal_files s)
  draft_row_found-Keeps j m (err e) = search keeps_rules

  pull_draft_found-Keeps :
      (j : Json) (o : Option Module) (tag : String) → Keeps P (pull_draft_found j o tag)
  unfolding pull_draft_found
  pull_draft_found-Keeps j none tag = search keeps_rules
  pull_draft_found-Keeps j (some m) tag = search (keeps_rules, draft_row_found-Keeps)

  pub pull_draft_module-Keeps :
      (j : Json) (name tag : String) → Keeps P (pull_draft_module j name tag)
  unfolding pull_draft_module
  pull_draft_module-Keeps j name tag =
      search (keeps_rules, get_module-Keeps, pull_draft_found-Keeps)

  name_edges-Keeps : (ts : List ℕ) → Keeps P (name_edges ts)
  unfolding name_edges
  name_edges-Keeps [] = search keeps_rules
  name_edges-Keeps (t ∷ ts) =
      Keeps-bind _ _ (search keeps_rules)
        λ e. Keeps-bind _ _ (name_edges-Keeps ts) λ es. search keeps_rules

  dependencies_at-Keeps : (name tag : String) → Keeps P (dependencies_at name tag)
  unfolding dependencies_at
  dependencies_at-Keeps name tag = search (keeps_rules, the_tag_id-Keeps, name_edges-Keeps)

  at_latest-Keeps : (name : String) (r : Result String) → Keeps P (at_latest name r)
  unfolding at_latest
  at_latest-Keeps name (ok tag) = dependencies_at-Keeps name tag
  at_latest-Keeps name (err e) = search keeps_rules

  pub get_module_dependencies-Keeps :
      (name tag : String) → Keeps P (get_module_dependencies name tag)
  unfolding get_module_dependencies
  get_module_dependencies-Keeps name tag =
      search (keeps_rules, at_latest-Keeps, dependencies_at-Keeps)

-- The module that was read is the one of that name.
abbrev pub IdOf : String → Db → Option Module → Type 0
IdOf name d none = Unit
IdOf name d (some m) = module_id_by_name name d ≡ some m.id

-- ... and so is the tag.
abbrev pub TagOf : String → String → Db → Option ℕ → Type 0
TagOf name tag d none = Unit
TagOf name tag d (some t) = tag_id_by_name name tag d ≡ some t

module _ {κ} (P : Db → Type κ) where
  get_found-IdOf :
      (name : String) (r : Result ModuleRow)
      → Triple
          (λ d. P d × RowOf (module_by_name name) d r)
          (get_found r)
          (λ o d. P d × IdOf name d o)
  unfolding get_found
  get_found-IdOf name (ok m) = Triple-bind _ _ (Triple-on_error _ _ (Triple-scan _)) λ tags.
      Triple-bind _ _ (Triple-on_error _ _ (Triple-scan _)) λ drafts.
        Triple-weaken _ (λ d h. h) (λ o d h. (h.0.0.0.0, rw (h.1) (rw (h.0.0.0.1)))) (Triple-pure _)
  get_found-IdOf name (err e) = elim (Bool-cases (is_no_rows e)) [
    | inl b ↦ rw b (Triple-weaken _ (λ d h. h) (λ o d h. (h.0.0, rw (h.1) tt)) (Triple-pure _))
    | inr b ↦ rw b (Triple-raise _)
  ]

  pub get_module-IdOf : (name : String) → Triple P (get_module name) (λ o d. P d × IdOf name d o)
  unfolding get_module
  get_module-IdOf name = Triple-bind _ _ (Triple-attempt_row _) (get_found-IdOf name)

  tag_id_found-TagOf :
      (name tag : String) (r : Result ℕ)
      → Triple
          (λ d. P d × RowOf (tag_id_by_name name tag) d r)
          (tag_id_found r)
          (λ o d. P d × TagOf name tag d o)
  unfolding tag_id_found
  tag_id_found-TagOf name tag (ok t) =
      Triple-weaken _ (λ d h. h) (λ o d h. (h.0.0, rw (h.1) (h.0.1))) (Triple-pure _)
  tag_id_found-TagOf name tag (err e) = elim (Bool-cases (is_no_rows e)) [
    | inl b ↦ rw b (Triple-weaken _ (λ d h. h) (λ o d h. (h.0.0, rw (h.1) tt)) (Triple-pure _))
    | inr b ↦ rw b (Triple-raise _)
  ]

  require_tag-TagOf :
      (name tag : String) (o : Option ℕ)
      → Triple
          (λ d. P d × TagOf name tag d o)
          (require_tag o)
          (λ t d. P d × (tag_id_by_name name tag d ≡ some t))
  unfolding require_tag
  require_tag-TagOf name tag none = Triple-raise _
  require_tag-TagOf name tag (some t) =
      Triple-weaken _ (λ d h. h) (λ u d h. (h.0.0, rw (h.1) (h.0.1))) (Triple-pure _)

  pub the_tag_id-TagOf :
      (name tag : String)
      → Triple P (the_tag_id name tag) (λ t d. P d × (tag_id_by_name name tag d ≡ some t))
  unfolding the_tag_id get_module_tag_id
  the_tag_id-TagOf name tag =
      Triple-bind _ _
        (Triple-on_error _ _ (Triple-bind _ _ (Triple-attempt_row _) (tag_id_found-TagOf name tag)))
        (require_tag-TagOf name tag)
