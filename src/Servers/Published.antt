-- ===== src/Servers/Published.antt =====
-- What the registry server publishes: pulls after a push.
use pbuf_registry.Prelude.{
  ℕ, String, true, false, ◌≡◌, refl, sym, ◌∙◌, ap, subst, Option, none, some, List, Bool-cases, inl,
  inr, ◌⊎◌, string_eq, arith,
}
use pbuf_registry.Database.Tables.{ProtoFile, Module, ModuleRow, Db}
use pbuf_registry.Database.Errors.{
  Error, Result, ok, err, refused, no_rows, is_no_rows, is_tag_not_found,
}
use pbuf_registry.Database.Queries.{tag_id_by_name}
use pbuf_registry.Database.Orders.{Part, read-Part}
use pbuf_registry.Database.Outcomes.{
  Outcome, Looked, Outcome-pure, Outcome-raise, Outcome-scan, Outcome-scan_unordered,
  Outcome-on_error, Outcome-look, Outcome-bind,
}
use pbuf_registry.Registry.Modules.{get_module, get_found}
use pbuf_registry.Registry.Tags.{
  get_module_tag_id, tag_id_found, require_tag, the_tag_id, pull_module, pull_found, files_of,
}
use pbuf_registry.Registry.Frozen.{Stored}

-- An error that does not say that the tag is missing
abbrev Other : Error → Type 0
Other e = is_tag_not_found e ≡ false

looked-Other : (e : Error) {X : Type 0} → (e ≡ refused) ⊎ ((e ≡ no_rows) × X) → Other e
looked-Other e (inl h) = rw h refl
looked-Other e (inr h) = rw (h.0) refl

module _ (name tag : String) (m t : ℕ) (files : List ProtoFile) where
  abbrev Here : Db → Type 0
  Here = Stored name tag m t files

  get_found-Outcome :
      (f : Db → Option ModuleRow) (r : Result ModuleRow)
      → Outcome (λ d. Here d × Looked f d r) (get_found r) (λ _. Here) Other
  unfolding get_found
  get_found-Outcome f (ok x) =
      Outcome-bind _ _
        (Outcome-on_error {E' = Other} _ _ (λ e k. k)
          (Outcome-scan {R = λ _. Here} _ refl (λ n d h. h.0)))
        λ tags.
          Outcome-bind _ _
            (Outcome-on_error {E' = Other} _ _ (λ e k. k)
              (Outcome-scan {R = λ _. Here} _ refl (λ n d h. h)))
            λ drafts. Outcome-pure _ (λ d h. h)
  get_found-Outcome f (err e) = elim (Bool-cases (is_no_rows e)) [
    | inl b ↦ rw b (Outcome-pure none (λ d h. h.0))
    | inr b ↦ rw b (Outcome-raise _ (λ d h. looked-Other e h.1))
  ]

  get_module-Outcome : Outcome Here (get_module name) (λ _. Here) Other
  unfolding get_module
  get_module-Outcome = Outcome-bind _ _ (Outcome-look _) λ r. get_found-Outcome _ r

  known : (d : Db) → Here d → tag_id_by_name name tag d ≡ some t
  known d h = rw h.found h.tagged

  tag_id_found-Outcome :
      (r : Result ℕ)
      → Outcome
          (λ d. Here d × Looked (tag_id_by_name name tag) d r)
          (tag_id_found r)
          (λ o d. Here d × (o ≡ some t))
          Other
  unfolding tag_id_found
  tag_id_found-Outcome (ok i) = Outcome-pure _ (λ d h. (h.0, sym (h.1) ∙ known d h.0))
  tag_id_found-Outcome (err e) = elim (Bool-cases (is_no_rows e)) [
    | inl b ↦ rw b (Outcome-pure none (λ d h. (h.0, missing d h.0 e h.1 b)))
    | inr b ↦ rw b (Outcome-raise _ (λ d h. looked-Other e h.1))
  ]
    where
      missing :
          (d : Db)
          → Here d
          → (e : Error) → (e ≡ refused) ⊎ ((e ≡ no_rows) × (tag_id_by_name name tag d ≡ none))
          → is_no_rows e ≡ true
          → none ≡ some t
      missing d h e (inl x) b =
          let bad : false ≡ true = ap is_no_rows (sym x) ∙ b in absurd (ground arith)
      missing d h e (inr x) b = sym (x.1) ∙ known d h

  required :
      (o : Option ℕ)
      → Outcome (λ d. Here d × (o ≡ some t)) (require_tag o) (λ i d. Here d × (i ≡ t)) Other
  unfolding require_tag
  required none = Outcome-raise _ (λ d h. absurd (ground arith))
  required (some i) = Outcome-pure i (λ d h. (h.0, ground arith))

  the_tag_id-Outcome : Outcome Here (the_tag_id name tag) (λ i d. Here d × (i ≡ t)) Other
  unfolding the_tag_id get_module_tag_id
  the_tag_id-Outcome =
      Outcome-bind _ _
        (Outcome-on_error {E' = Other} _ _ (λ e k. k)
          (Outcome-bind _ _ (Outcome-look _) tag_id_found-Outcome))
        required

  pull_found-Outcome :
      (o : Option Module) → Outcome Here (pull_found o name tag) (λ r d. Part r.1 files) Other
  unfolding pull_found
  pull_found-Outcome none = Outcome-raise _ (λ d h. refl)
  pull_found-Outcome (some x) = Outcome-bind _ _ the_tag_id-Outcome λ i.
      Outcome-bind _ _
        (Outcome-on_error {E' = Other} _ _ (λ e k. k)
          (Outcome-scan_unordered {R = λ fs _. Part fs files} (files_of i) refl λ n d h.
            subst (Part _) (ap (λ n. files_of n d) h.1 ∙ h.0.content)
              (read-Part n.cut n.order (files_of i d))))
        λ fs. Outcome-pure _ (λ d h. h)

  -- A pull of a stored tag gives some of its files, in some order, or an error that does not say
  -- that the tag is missing.
  pub pull_module-Outcome : Outcome Here (pull_module name tag) (λ r d. Part r.1 files) Other
  unfolding pull_module
  pull_module-Outcome =
      Outcome-bind _ _ (Outcome-on_error {E' = Other} _ _ (λ e k. k) get_module-Outcome)
        pull_found-Outcome
