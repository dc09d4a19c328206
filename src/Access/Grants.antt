-- ===== src/Access/Grants.antt =====
-- GrantPermission and RevokePermission against the permissions that CheckPermission reads.
use mathlib.Core.Option
use pbuf_registry.Prelude.{
  ℕ, String, Bool, true, false, not, ◌&&◌, Option, none, some, ◌≡◌, ◌∙◌, refl, sym, subst,
  Bool-cases, Option-cases, inl, inr, List, [], ◌∷◌, ◌++◌, arith, ◌==◌, ==_iff, ==_refl, nat_eq,
  string_eq, first, any, select,
}
use pbuf_registry.Database.Tables.{Permission, AclRow, UserRow, Db}
use pbuf_registry.Database.Errors.{ok}
use pbuf_registry.Database.Io.{World, Answer, After}
use pbuf_registry.Database.Triples.{Triple-execute, Triple-on_error, Triple-bind}
use pbuf_registry.Access.Acl.{
  is_entry, is_permission, regrant, upsert_entry, grant_permission, delete_entry, revoke_permission,
  permission_of, has_required_permission, check_permission,
}
use pbuf_registry.Database.Rows.{Triple-ok, Triple-unless}
use pbuf_registry.Database.Errors.{permission_not_found}
use pbuf_registry.Access.Checks.{allowed, enough, check_permission_lem}

-- The permission that a list of entries gives
abbrev entry_in : ℕ → String → List AclRow → Option Permission
entry_in user name xs = Option.map (λ (r : AclRow). r.permission) (first (is_entry user name) xs)

module _ (user : ℕ) (name : String) (p : Permission) where
  pub entry_in-regrant :
      (xs : List AclRow) (r : AclRow)
      → first (is_entry user name) xs ≡ some r
      → entry_in user name (regrant user name p xs) ≡ some p
  entry_in-regrant [] r h = absurd (ground arith)
  entry_in-regrant (x ∷ xs) r h = elim (Bool-cases (is_entry user name x)) [
    | inl e ↦ rw (e, e) refl
    | inr e ↦ rw (e, e) (entry_in-regrant xs r (rw e at h))
  ]

  entry_in-regrant_other :
      (user' : ℕ) (name' : String) (xs : List AclRow)
      → (user == user' && name == name') ≡ false
      → entry_in user' name' (regrant user name p xs) ≡ entry_in user' name' xs
  entry_in-regrant_other user' name' [] h = refl
  entry_in-regrant_other user' name' (x ∷ xs) h = ground (
    arith,
    entry_in-regrant_other user' name' xs h,
    ==_iff name name',
    ==_iff x.module_name name,
    ==_iff x.module_name name',
  )

  pub entry_in-added :
      (xs : List AclRow) (r : AclRow)
      → first (is_entry user name) xs ≡ none
      → is_entry user name r ≡ true
      → entry_in user name (xs ++ r ∷ []) ≡ some r.permission
  entry_in-added [] r h k = rw k refl
  entry_in-added (x ∷ xs) r h k = elim (Bool-cases (is_entry user name x)) [
    | inl e ↦ absurd (ground arith)
    | inr e ↦ rw e (entry_in-added xs r (rw e at h) k)
  ]

  entry_in-deleted :
      (xs : List AclRow) → entry_in user name (select (λ r. not (is_entry user name r)) xs) ≡ none
  entry_in-deleted [] = refl
  entry_in-deleted (x ∷ xs) = elim (Bool-cases (is_entry user name x)) [
    | inl e ↦ rw e (entry_in-deleted xs)
    | inr e ↦ rw (e, e) (entry_in-deleted xs)
  ]

  entry_in-deleted_other :
      (user' : ℕ) (name' : String) (xs : List AclRow)
      → (user == user' && name == name') ≡ false
      → entry_in user' name' (select (λ r. not (is_entry user name r)) xs) ≡ entry_in user' name' xs
  entry_in-deleted_other user' name' [] h = refl
  entry_in-deleted_other user' name' (x ∷ xs) h = ground (
    arith,
    entry_in-deleted_other user' name' xs h,
    ==_iff name name',
    ==_iff x.module_name name,
    ==_iff x.module_name name',
  )

entry_in-added_other :
    (user : ℕ) (name : String) (xs : List AclRow) (r : AclRow)
    → is_entry user name r ≡ false
    → entry_in user name (xs ++ r ∷ []) ≡ entry_in user name xs
entry_in-added_other user name [] r k = rw k refl
entry_in-added_other user name (x ∷ xs) r k = ground (arith, entry_in-added_other user name xs r k)

-- `user` has the permission `p`, if any, on `name`, and nothing else has changed since `before`.
pub record Only (user : ℕ) (name : String) (p : Option Permission) (before after : Db)
    : Type 0 where
  pub here : permission_of user name after ≡ p
  pub elsewhere :
      (user' : ℕ) (name' : String)
      → (user == user' && name == name') ≡ false
      → permission_of user' name' after ≡ permission_of user' name' before

module _ (entry : AclRow) where
  abbrev Granted : Db → Db → Type 0
  Granted = Only entry.user_id entry.module_name (some entry.permission)

  new_entry-Only :
      (n : Answer) (d : Db)
      → first (is_entry entry.user_id entry.module_name) d.acl ≡ none
      → Granted d
          (record d { acl = d.acl ++ record entry { id = n.uuid; created_at = n.now } ∷ [] })
  new_entry-Only n d h =
      let new = record entry { id = n.uuid; created_at = n.now } in
      let itself : is_entry entry.user_id entry.module_name new ≡ true =
        ground (arith, ==_refl entry.module_name) in
      record {
        here = entry_in-added entry.user_id entry.module_name entry.permission d.acl new h itself;
        elsewhere = λ u m k. entry_in-added_other u m d.acl new (ground (arith, k));
      }

  upsert_entry-Only : (n : Answer) (d : Db) → After (λ e. Granted d) (upsert_entry entry n d)
  upsert_entry-Only n d =
      elim (Bool-cases
        (is_permission entry.permission && any (λ (u : UserRow). u.id == entry.user_id) d.users)) [
          | inr b ↦ rw b tt
          | inl b ↦
              rw b (elim (Option-cases (first (is_entry entry.user_id entry.module_name) d.acl)) [
                | inr (r, e) ↦ rw e (record {
                  here =
                      entry_in-regrant entry.user_id entry.module_name entry.permission d.acl r e;
                  elsewhere = λ u m k.
                      entry_in-regrant_other entry.user_id entry.module_name entry.permission u m
                        d.acl k;
                })
                | inl e ↦ rw e (elim (Bool-cases (any (λ (r : AclRow). r.id == n.uuid) d.acl)) [
                  | inl f ↦ rw f tt
                  | inr f ↦ rw f (new_entry-Only n d e)
                ])
              ])
        ]

  grant_permission-Only :
      (w : World) (e : AclRow)
      → (grant_permission entry w).0 ≡ ok e
      → Granted w.db (grant_permission entry w).1.db
  unfolding grant_permission
  grant_permission-Only w e =
      Triple-ok {P = λ d. d ≡ w.db} (grant_permission entry) w e
        (Triple-on_error _ _ (
          Triple-execute {Q = λ _. Granted w.db} (upsert_entry entry) (λ n d h.
            subst (λ x. After (λ _. Granted w.db) (upsert_entry entry n x)) (sym h)
              (upsert_entry-Only n w.db))))
        refl

  -- After a grant that succeeds, CheckPermission, when it returns a value, decides by the level
  -- just granted for that user and module, whatever was granted before.
  pub grant-check :
      (w v : World) (e : AclRow) (required : Permission) (b : Bool)
      → (grant_permission entry w).0 ≡ ok e
      → v.db ≡ (grant_permission entry w).1.db
      → (check_permission entry.user_id entry.module_name required v).0 ≡ ok b
      → b ≡ has_required_permission entry.permission required
  grant-check w v e required b granted now checked =
      let only = grant_permission-Only w e granted in
      let reads = check_permission_lem entry.user_id entry.module_name required v b checked in
      reads ∙ rw (now, only.here) refl

  -- A grant that succeeds leaves what every other user is allowed as it was, and what the same
  -- user is allowed on every other module, unless it is a grant on all modules.
  pub grant-allowed_other :
      (w : World) (e : AclRow) (user : ℕ) (name : String) (required : Permission)
      → (grant_permission entry w).0 ≡ ok e
      → (entry.user_id == user && entry.module_name == name) ≡ false
      → (entry.user_id == user && entry.module_name == "*") ≡ false
      → allowed user name required (grant_permission entry w).1.db ≡ allowed user name required w.db
  grant-allowed_other w e user name required granted here all =
      let only = grant_permission-Only w e granted in
      rw (only.elsewhere user name here, only.elsewhere user "*" all) refl

module _ (user : ℕ) (name : String) where
  revoke_permission-Only :
      (w : World)
      → (revoke_permission user name w).0 ≡ ok tt
      → Only user name none w.db (revoke_permission user name w).1.db
  unfolding revoke_permission
  revoke_permission-Only w =
      Triple-ok {P = λ d. d ≡ w.db} {Q = λ _ d. Only user name none w.db d}
        (revoke_permission user name) w tt
        (Triple-bind _ _
          (Triple-on_error _ _ (
            Triple-execute {Q = λ _. Only user name none w.db} (delete_entry user name) (λ n d h.
              rw h (record {
                here = entry_in-deleted user name "" w.db.acl;
                elsewhere = λ u m k. entry_in-deleted_other user name "" u m w.db.acl k;
              }))))
          (λ count. Triple-unless (count == 0) permission_not_found))
        refl

  -- After a revocation that succeeds, of a permission on a module and not on "*", CheckPermission for
  -- that user and module, when it returns a value, decides by what the user holds on "*", and allows
  -- nothing if the user holds nothing there.
  pub revoke-check :
      (w v : World) (required : Permission) (b : Bool)
      → (name == "*") ≡ false
      → (revoke_permission user name w).0 ≡ ok tt
      → v.db ≡ (revoke_permission user name w).1.db
      → (check_permission user name required v).0 ≡ ok b
      → b ≡ enough required (permission_of user "*" w.db)
  revoke-check w v required b differs revoked now checked =
      let only = revoke_permission-Only w revoked in
      let reads = check_permission_lem user name required v b checked in
      reads ∙ rw (now, only.here, only.elsewhere user "*" (ground (arith, differs))) refl
