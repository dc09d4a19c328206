-- ===== src/Access/Acl.antt =====
-- aclRepo of internal/data/acl.go: the permissions of users on modules, "*" being all modules.
use mathlib.Core.Option
use pbuf_registry.Prelude.{
  ℕ, String, Bool, false, Option, none, some, List, [], ◌∷◌, ◌++◌, map, ◌&&◌, ◌==◌, nat_eq,
  string_eq, leb, first, any, select, if◌then◌else◌,
}
use pbuf_registry.Database.Tables.{
  Permission, permission_read, permission_write, permission_admin, AclRow, UserRow, Db,
}
use pbuf_registry.Database.Errors.{Result, ok, err, is_no_rows, wrapped, permission_not_found}
use pbuf_registry.Database.Io.{
  scan, Answer, Io, pure, raise, execute, query_row, attempt, wrap, ◌>>=◌, ◌>>◌, unless,
}
use pbuf_registry.Database.Queries.{order_desc, without, affected}

abbrev pub is_entry : ℕ → String → AclRow → Bool
is_entry user name r = r.user_id == user && r.module_name == name

-- CHECK (permission IN ('read', 'write', 'admin'))
abbrev pub is_permission : Permission → Bool
is_permission p = any (λ q. q == p) (permission_read ∷ permission_write ∷ permission_admin ∷ [])

abbrev pub regrant : ℕ → String → Permission → List AclRow → List AclRow
regrant user name p =
    map λ (r : AclRow). if is_entry user name r then record r { permission = p } else r

-- INSERT INTO acl ... ON CONFLICT (user_id, module_name) DO UPDATE SET permission = $3
-- RETURNING id, created_at, with the table's CHECK, its foreign key and its primary key
abbrev pub upsert_entry : AclRow → Answer → Db → Option (AclRow × Db)
upsert_entry entry n d =
    if is_permission entry.permission && any (λ (u : UserRow). u.id == entry.user_id) d.users
    then elim (first (is_entry entry.user_id entry.module_name) d.acl) [
      | some r ↦ some (
        record entry { id = r.id; created_at = r.created_at },
        record d { acl = regrant entry.user_id entry.module_name entry.permission d.acl },
      )
      | none ↦
          if any (λ (r : AclRow). r.id == n.uuid) d.acl
          then none
          else (let new = record entry { id = n.uuid; created_at = n.now } in
              some (new, record d { acl = d.acl ++ new ∷ [] }))
    ]
    else none

-- The entry with the id and the time that the database gave it.
unfoldable pub grant_permission : AclRow → Io AclRow
grant_permission entry =
    wrap "could not grant permission in database" (execute (upsert_entry entry))

abbrev pub delete_entry : ℕ → String → Answer → Db → Option (ℕ × Db)
delete_entry user name n d =
    some
      (affected (is_entry user name) d.acl, record d { acl = without (is_entry user name) d.acl })

unfoldable pub revoke_permission : ℕ → String → Io (Unit {0})
revoke_permission user name = do
  count ← wrap "could not revoke permission from database" (execute (delete_entry user name))
  unless (count == 0) permission_not_found

unfoldable pub list_user_permissions : ℕ → Io (List AclRow)
list_user_permissions user = wrap "could not select permissions from database" (
    scan λ d.
      order_desc (λ (r : AclRow). r.created_at) (select (λ (r : AclRow). r.user_id == user) d.acl))

-- SELECT permission FROM acl WHERE user_id = $1 AND module_name = $2
abbrev pub permission_of : ℕ → String → Db → Option Permission
permission_of user name d =
    Option.map (λ (r : AclRow). r.permission) (first (is_entry user name) d.acl)

-- The map from permissions to levels, which gives 0 for a key it does not have.
unfoldable pub permission_level : Permission → ℕ
permission_level p =
    if p == "read" then 1 else if p == "write" then 2 else if p == "admin" then 3 else 0

unfoldable pub has_required_permission : Permission → Permission → Bool
unfolding permission_level
has_required_permission granted required =
    leb (permission_level required) (permission_level granted)

unfoldable pub wildcard_found : Permission → Result Permission → Io Bool
wildcard_found required (ok p) = pure (has_required_permission p required)
wildcard_found required (err e) =
    if is_no_rows e
    then pure false
    else raise (wrapped "could not check wildcard permission in database" e)

unfoldable pub entry_found : ℕ → Permission → Result Permission → Io Bool
entry_found user required (ok p) = pure (has_required_permission p required)
entry_found user required (err e) =
    if is_no_rows e
    then (do
      wildcard ← attempt (query_row (permission_of user "*"))
      wildcard_found required wildcard)
    else raise (wrapped "could not check permission in database" e)

unfoldable pub check_permission : ℕ → String → Permission → Io Bool
check_permission user name required = do
  exact ← attempt (query_row (permission_of user name))
  entry_found user required exact

abbrev pub delete_user_entries : ℕ → Answer → Db → Option (ℕ × Db)
delete_user_entries user n d =
    let gone = λ (r : AclRow). r.user_id == user in
    some (affected gone d.acl, record d { acl = without gone d.acl })

unfoldable pub delete_user_permissions : ℕ → Io (Unit {0})
delete_user_permissions user = do
  wrap "could not delete user permissions from database" (execute (delete_user_entries user))
  pure tt
