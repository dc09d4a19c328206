-- ===== src/Sqlite/Granted.antt =====
-- Permissions in the SQLite repository, against those of the PostgreSQL repository.

use pbuf_registry.Prelude.{
  not, ℕ, String, Bool, true, false, some, none, ◌≡◌, ◌∙◌, refl, sym, ap, Bool-cases, Option-cases,
  inl, inr, List, [], ◌∷◌, ◌++◌, arith, ◌==◌, ==_refl, nat_eq, string_eq, first, any,
}
use pbuf_registry.Database.Tables.{Permission, AclRow, Db}
use pbuf_registry.Database.Errors.{Result, ok, err, is_no_rows}
use pbuf_registry.Database.Io.{After-guards, World, Answer, After, pure, attempt, ◌>>=◌}
use pbuf_registry.Database.Triples.{
  Triple, Triple-execute, Triple-on_error, Triple-bind, Triple-query_row, Triple-return,
}
use pbuf_registry.Database.Rows.{Triple-ok}
use pbuf_registry.Access.Acl
use pbuf_registry.Access.Grants.{entry_in-regrant, entry_in-added}
use pbuf_registry.Access.Checks.{check_permission_lem}
use pbuf_registry.Sqlite.Acl.{
  is_entry, is_permission, has_user, upsert_entry, grant_permission, permission_of,
  permission_level, has_required_permission, wildcard_found, entry_found, check_permission,
}

has_required_permission-same :
    (p q : Permission) → has_required_permission p q ≡ Acl.has_required_permission p q
unfolding has_required_permission permission_level Acl.has_required_permission Acl.permission_level
has_required_permission-same p q = refl

wildcard_found-same :
    (required : Permission) (r : Result Permission) (w : World)
    → wildcard_found required r w ≡ Acl.wildcard_found required r w
unfolding wildcard_found Acl.wildcard_found
wildcard_found-same required (ok p) w =
    ap (λ (b : Bool). pure b w) (has_required_permission-same p required)
wildcard_found-same required (err e) w = refl

entry_found-same :
    (user : ℕ) (required : Permission) (r : Result Permission) (w : World)
    → entry_found user required r w ≡ Acl.entry_found user required r w
unfolding entry_found Acl.entry_found attempt ◌>>=◌
entry_found-same user required (ok p) w =
    ap (λ (b : Bool). pure b w) (has_required_permission-same p required)
entry_found-same user required (err e) w = elim (Bool-cases (is_no_rows e)) [
  | inl b ↦ rw b (wildcard_found-same required _ _)
  | inr b ↦ rw b refl
]

-- On the same tables and answers the SQLite CheckPermission gives the result of the PostgreSQL one,
-- error or not, and leaves the same state.
pub check_permission-same :
    (user : ℕ) (name : String) (required : Permission) (w : World)
    → check_permission user name required w ≡ Acl.check_permission user name required w
unfolding check_permission Acl.check_permission attempt ◌>>=◌
check_permission-same user name required w = entry_found-same user required _ _

any-some : {A : Type 0} (p : A → Bool) (xs : List A) (x : A) → first p xs ≡ some x → any p xs ≡ true
any-some p [] x h = absurd (ground arith)
any-some p (y ∷ ys) x h = ground (arith, any-some p ys x)

any-none : {A : Type 0} (p : A → Bool) (xs : List A) → first p xs ≡ none → any p xs ≡ false
any-none p [] h = refl
any-none p (y ∷ ys) h = ground (arith, any-none p ys)

module _ (foreign_keys : Answer → Bool) (entry : AclRow) where
  abbrev Here : Db → Type 0
  Here d = permission_of entry.user_id entry.module_name d ≡ some entry.permission

  new_entry-Here :
      (n : Answer) (d : Db)
      → first (is_entry entry.user_id entry.module_name) d.acl ≡ none
      → Here (record d { acl = d.acl ++ record entry { id = n.uuid; created_at = n.now } ∷ [] })
  new_entry-Here n d h =
      let new = record entry { id = n.uuid; created_at = n.now } in
      let itself : is_entry entry.user_id entry.module_name new ≡ true =
        ground (arith, ==_refl entry.module_name) in
      entry_in-added entry.user_id entry.module_name entry.permission d.acl new h itself

  upsert_entry-Here :
      (n : Answer) (d : Db) → After (λ _. Here) (upsert_entry foreign_keys entry n d)
  upsert_entry-Here n d = elim (Bool-cases (is_permission entry.permission)) [
    | inr b ↦ rw b tt
    | inl b ↦ rw b (elim (Option-cases (first (is_entry entry.user_id entry.module_name) d.acl)) [
      | inr (r, e) ↦
          rw (any-some _ d.acl r e)
            (entry_in-regrant entry.user_id entry.module_name entry.permission d.acl r e)
      | inl e ↦ rw (any-none _ d.acl e) (
          After-guards (λ (_ : Unit {0}). Here) (any (λ (r : AclRow). r.id == n.uuid) d.acl)
            (not (has_user foreign_keys entry n d)) (new_entry-Here n d e))
    ])
  ]

  grant_permission-Here : Triple (λ _. Unit {0}) (grant_permission foreign_keys entry) (λ _. Here)
  unfolding grant_permission
  grant_permission-Here =
      Triple-bind _ _
        (Triple-on_error _ _ (
          Triple-execute {Q = λ _. Here} (upsert_entry foreign_keys entry)
            (λ n d h. upsert_entry-Here n d)))
        λ _.
          Triple-bind _ _ (Triple-on_error _ _ (Triple-query_row _))
            λ r. Triple-return _ (λ d h. h.0)

  -- After a grant in the SQLite tables that succeeds, whether or not the connection enforces
  -- foreign keys, CheckPermission there, when it returns a value, decides by the level just
  -- granted for that user and module, whatever was granted before.
  pub sqlite_grant-check :
      (w v : World) (e : AclRow) (required : Permission) (b : Bool)
      → (grant_permission foreign_keys entry w).0 ≡ ok e
      → v.db ≡ (grant_permission foreign_keys entry w).1.db
      → (check_permission entry.user_id entry.module_name required v).0 ≡ ok b
      → b ≡ has_required_permission entry.permission required
  sqlite_grant-check w v e required b granted now checked =
      let here = Triple-ok _ w e grant_permission-Here tt granted in
      let same = check_permission-same entry.user_id entry.module_name required v in
      let reads =
        check_permission_lem entry.user_id entry.module_name required v b
          (ap (λ (x : Result Bool × World). x.0) (sym same) ∙ checked) in
      reads ∙ rw (now, here) (sym (has_required_permission-same entry.permission required))
