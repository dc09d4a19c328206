-- ===== src/Sqlite/Removed.antt =====
-- DeleteModule over SQLite.
use pbuf_registry.Prelude.{
  String, Bool, first, Option, some, none, ◌≡◌, refl, sym, ◌∙◌, List, [], ◌∷◌, ◌==◌, string_eq,
  nat_eq, arith, Bool-cases, inl, inr,
}
use pbuf_registry.Database.Tables.{Module, ModuleRow, Db}
use pbuf_registry.Database.Errors.{Result, ok, err, is_no_rows}
use pbuf_registry.Database.Io.{World, Answer}
use pbuf_registry.Database.Queries.{module_by_name, without}
use pbuf_registry.Database.Triples.{
  Triple, Triple-bind, Triple-on_error, Triple-execute, Triple-return, Triple-raise,
}
use pbuf_registry.Database.Rows.{Triple-ok, Triple-attempt-Found, Found}
use pbuf_registry.Sqlite.Modules.{delete_module, get_found, get_module}

first-without : {A : Type 0} (p : A → Bool) (xs : List A) → first p (without p xs) ≡ none
first-without p [] = refl
first-without p (x ∷ xs) = ground (arith, first-without p xs)

abbrev Absent : String → Db → Type 0
Absent name d = module_by_name name d ≡ none

module _ (foreign_keys : Answer → Bool) (name : String) where
  delete_module-Absent : Triple (λ _. Unit {0}) (delete_module foreign_keys name) (λ _. Absent name)
  unfolding delete_module
  delete_module-Absent =
      Triple-bind _ _ (Triple-on_error _ _ (Triple-execute {Q = λ _ _. Unit {0}} _ λ n d h. tt))
        λ _.
          Triple-bind _ _ (Triple-on_error _ _ (Triple-execute {Q = λ _ _. Unit {0}} _ λ n d h. tt))
            λ _.
              Triple-bind _ _
                (Triple-on_error _ _ (Triple-execute {Q = λ _ _. Unit {0}} _ λ n d h. tt))
                λ _.
                  Triple-bind _ _
                    (Triple-on_error _ _ (Triple-execute {Q = λ _ _. Unit {0}} _ λ n d h. tt))
                    λ _.
                      Triple-bind _ _
                        (Triple-on_error _ _ (
                          Triple-execute {Q = λ _. Absent name} _
                            λ n d h. first-without (λ (m : ModuleRow). m.name == name) d.modules))
                        λ count. elim (Bool-cases (count == 0)) [
                          | inl z ↦ rw z (Triple-raise _)
                          | inr z ↦ rw z (Triple-return tt (λ d h. h))
                        ]

  get_found-none :
      (r : Result ModuleRow)
      → Triple
          (λ d. Absent name d × Found (module_by_name name) d r)
          (get_found r)
          (λ o _. o ≡ none)
  unfolding get_found
  get_found-none (ok m) = record {
    at = λ w h. let bad : none ≡ some m = sym (h.0) ∙ h.1 in absurd (ground arith);
  }
  get_found-none (err e) = elim (Bool-cases (is_no_rows e)) [
    | inl b ↦ rw b (Triple-return none (λ d h. refl))
    | inr b ↦ rw b (Triple-raise _)
  ]

  -- After a DeleteModule over SQLite that succeeds, whichever connections enforce foreign keys,
  -- GetModule on the tables that it left, when it returns a value, finds no module of the name.
  pub delete_module-get_module :
      (w v : World) (o : Option Module)
      → (delete_module foreign_keys name w).0 ≡ ok tt
      → v.db ≡ (delete_module foreign_keys name w).1.db
      → (get_module name v).0 ≡ ok o
      → o ≡ none
  unfolding get_module
  delete_module-get_module w v o deleted now found =
      let gone = Triple-ok _ w tt delete_module-Absent tt deleted in
      Triple-ok _ v o
        (Triple-bind _ _ (Triple-attempt-Found {P = Absent name} (module_by_name name))
          get_found-none)
        (rw now gone) found
