-- ===== src/Access/Checks.antt =====
-- CheckPermission against a description of who is allowed what.
use pbuf_registry.Prelude.{
  ℕ, String, Bool, false, Option, none, some, ◌≡◌, refl, Bool-cases, inl, inr,
}
use pbuf_registry.Database.Tables.{Permission, Db}
use pbuf_registry.Database.Errors.{Result, ok, err, is_no_rows}
use pbuf_registry.Database.Io.{World}
use pbuf_registry.Database.Keeps.{Keeps, keeps_rules}
use pbuf_registry.Database.Triples.{Triple, Triple-bind, Triple-pure, Triple-raise, Triple-weaken}
use pbuf_registry.Database.Rows.{Triple-ok, Triple-attempt-Found, Found}
use pbuf_registry.Access.Acl.{
  permission_of, has_required_permission, wildcard_found, entry_found, check_permission,
}

abbrev pub or_wildcard : Option Permission → Option Permission → Option Permission
or_wildcard (some p) wildcard = some p
or_wildcard none wildcard = wildcard

abbrev pub enough : Permission → Option Permission → Bool
enough required (some p) = has_required_permission p required
enough required none = false

-- The entry for the module decides if there is one, and else the entry for "*" does.
abbrev pub allowed : ℕ → String → Permission → Db → Bool
allowed user name required d =
    enough required (or_wildcard (permission_of user name d) (permission_of user "*" d))

module _ {κ} {P : Db → Type κ} (user : ℕ) (required : Permission) where
  wildcard_found-allowed :
      (name : String) (r : Result Permission)
      → Triple
          (λ d. (P d × (permission_of user name d ≡ none)) × Found (permission_of user "*") d r)
          (wildcard_found required r)
          (λ b d. P d × (b ≡ allowed user name required d))
  unfolding wildcard_found
  wildcard_found-allowed name (ok p) =
      Triple-weaken _ (λ d h. h) (λ b d h. (h.0.0.0, rw (h.0.0.1, h.0.1) h.1))
        (Triple-pure (has_required_permission p required))
  wildcard_found-allowed name (err e) = elim (Bool-cases (is_no_rows e)) [
    | inl n ↦ rw n (
        Triple-weaken _ (λ d h. h) (λ b d h. (h.0.0.0, rw (h.0.0.1, h.0.1 refl) h.1))
          (Triple-pure false))
    | inr n ↦ rw n (Triple-raise _)
  ]

  entry_found-allowed :
      (name : String) (r : Result Permission)
      → Triple
          (λ d. P d × Found (permission_of user name) d r)
          (entry_found user required r)
          (λ b d. P d × (b ≡ allowed user name required d))
  unfolding entry_found
  entry_found-allowed name (ok p) =
      Triple-weaken _ (λ d h. h) (λ b d h. (h.0.0, rw h.0.1 h.1))
        (Triple-pure (has_required_permission p required))
  entry_found-allowed name (err e) = elim (Bool-cases (is_no_rows e)) [
    | inl n ↦ rw n (
        Triple-weaken _ (λ d h. (h.0, h.1 refl)) (λ b d h. h)
          (Triple-bind _ _ (Triple-attempt-Found (permission_of user "*"))
            (wildcard_found-allowed name)))
    | inr n ↦ rw n (Triple-raise _)
  ]

  pub check_permission-Triple :
      (name : String)
      → Triple P
          (check_permission user name required)
          (λ b d. P d × (b ≡ allowed user name required d))
  unfolding check_permission
  check_permission-Triple name =
      Triple-bind _ _ (Triple-attempt-Found (permission_of user name)) (entry_found-allowed name)

module _ (user : ℕ) (name : String) (required : Permission) where
  -- Whatever the database answers, when CheckPermission returns a value, it is what the stored
  -- permissions say: the level of the entry for the module or, when there is none, of the entry
  -- for "*" is at least the required one.
  pub check_permission_lem :
      (w : World) (b : Bool)
      → (check_permission user name required w).0 ≡ ok b
      → b ≡ allowed user name required w.db
  check_permission_lem w b e =
      let (same, reads) =
        Triple-ok {P = λ d. d ≡ w.db} _ w b (check_permission-Triple user required name) refl e in
      rw same at reads

module _ {κ} {P : Db → Type κ} (user : ℕ) (required : Permission) where
  wildcard_found-Keeps : (r : Result Permission) → Keeps P (wildcard_found required r)
  unfolding wildcard_found
  wildcard_found-Keeps (ok p) = search keeps_rules
  wildcard_found-Keeps (err e) = search keeps_rules

  entry_found-Keeps : (r : Result Permission) → Keeps P (entry_found user required r)
  unfolding entry_found
  entry_found-Keeps (ok p) = search keeps_rules
  entry_found-Keeps (err e) = search (keeps_rules, wildcard_found-Keeps)

  pub check_permission-Keeps : (name : String) → Keeps P (check_permission user name required)
  unfolding check_permission
  check_permission-Keeps name = search (keeps_rules, entry_found-Keeps)
