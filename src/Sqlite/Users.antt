-- ===== src/Sqlite/Users.antt =====
-- userRepo of internal/data/sqlite/users.go. `sha256hex` is the function of db.go: the SHA-256 digest
-- of the standard library, in hexadecimal digits. `foreign_keys` says whether the connection that
-- runs a statement enforces them: Open turns them on for one connection of the pool.
use pbuf_registry.Prelude.{
  ℕ, String, Bool, List, [], ◌∷◌, ◌++◌, Option, none, some, map, ◌&&◌, ◌||◌, not, ◌==◌, nat_eq,
  string_eq, first, any, take, if◌then◌else◌,
}
use pbuf_registry.Database.Tables.{UserRow, AclRow, Db}
use pbuf_registry.Database.Errors.{Error, is_no_rows, wrapped, user_not_found}
use pbuf_registry.Database.Io.{scan, Answer, Io, execute, query_row, on_error, wrap, ◌>>=◌, unless}
use pbuf_registry.Database.Queries.{order_desc, without, affected}
use pbuf_registry.Access.Users.{drop}

-- CHECK (type IN ('user', 'bot'))
abbrev pub is_kind : String → Bool
is_kind k = k == "user" || k == "bot"

-- errors.Is(err, sql.ErrNoRows) ? ErrUserNotFound : a wrapped error
abbrev pub user_error : Error → Error
user_error e =
    if is_no_rows e then user_not_found else wrapped "could not select user from database" e

unfoldable pub get_user : ℕ → Io UserRow
get_user i = on_error user_error (query_row λ d. first (λ (u : UserRow). u.id == i) d.users)

unfoldable pub get_user_by_name : String → Io UserRow
get_user_by_name name =
    on_error user_error (query_row λ d. first (λ (u : UserRow). u.name == name) d.users)

-- ORDER BY created_at DESC LIMIT ? OFFSET ?
unfoldable pub list_users : ℕ → ℕ → Io (List UserRow)
list_users limit offset =
    wrap "could not select users from database"
      (scan λ d. take limit (drop offset (order_desc (λ (u : UserRow). u.created_at) d.users)))

-- UPDATE users SET is_active = ?, updated_at = datetime('now') WHERE id = ?
abbrev pub update_active : ℕ → Bool → Answer → Db → Option (ℕ × Db)
update_active i active n d = some (
  affected (λ (u : UserRow). u.id == i) d.users,
  record d {
    users =
        map
          (λ (u : UserRow).
            if u.id == i then record u { is_active = active; updated_at = n.now } else u)
          d.users;
  },
)

unfoldable pub set_user_active : ℕ → Bool → Io (Unit {0})
set_user_active i active = do
  count ← wrap "could not update user active status in database" (execute (update_active i active))
  unless (count == 0) user_not_found

module _ (foreign_keys : Answer → Bool) where
  -- DELETE FROM users WHERE id = ?, with acl's ON DELETE CASCADE where it is enforced
  abbrev pub delete_user_row : ℕ → Answer → Db → Option (ℕ × Db)
  delete_user_row i n d = some (
    affected (λ (u : UserRow). u.id == i) d.users,
    record d {
      users = without (λ (u : UserRow). u.id == i) d.users;
      acl =
          without
            (λ (r : AclRow).
              foreign_keys n && r.user_id == i && any (λ (u : UserRow). u.id == i) d.users)
            d.acl;
    },
  )

  unfoldable pub delete_user : ℕ → Io (Unit {0})
  delete_user i = do
    count ← wrap "could not delete user from database" (execute (delete_user_row i))
    unless (count == 0) user_not_found

module _ (sha256hex : String → String) where
  -- WHERE token = ? AND is_active = 1
  abbrev pub authenticates : String → UserRow → Bool
  authenticates token u = u.token == sha256hex token && u.is_active

  unfoldable pub get_user_by_token : String → Io UserRow
  get_user_by_token token = on_error user_error (query_row λ d. first (authenticates token) d.users)

  -- VALUES (?, ?, ?, ?, ?, datetime('now'), datetime('now'))
  abbrev pub new_user : UserRow → Answer → UserRow
  new_user u n = record u {
    id = n.uuid;
    token = sha256hex u.token;
    created_at = n.now;
    updated_at = n.now;
  }

  -- with the keys PRIMARY KEY (id) and UNIQUE (name)
  abbrev pub insert_user : UserRow → Answer → Db → Option (UserRow × Db)
  insert_user u n d =
      if not (is_kind u.kind) || any (λ (v : UserRow). v.id == n.uuid || v.name == u.name) d.users
      then none
      else (let new = record u { id = n.uuid; created_at = n.now; updated_at = n.now } in
          some (new, record d { users = d.users ++ new_user u n ∷ [] }))

  -- The user with its new id and times; its token stays as it was given.
  unfoldable pub create_user : UserRow → Io UserRow
  create_user u = wrap "could not insert user into database" (execute (insert_user u))

  -- SET name = ?, token = ?, type = ?, is_active = ?, updated_at = datetime('now') WHERE id = ?
  abbrev pub updated_row : UserRow → Answer → UserRow → UserRow
  updated_row u n v =
      if v.id == u.id
      then record v {
        name = u.name;
        token = sha256hex u.token;
        kind = u.kind;
        is_active = u.is_active;
        updated_at = n.now;
      }
      else v

  abbrev pub update_row : UserRow → Answer → Db → Option (ℕ × Db)
  update_row u n d =
      let count = affected (λ (v : UserRow). v.id == u.id) d.users in
      if not (is_kind u.kind) && not (count == 0)
      then none
      else if any (λ (v : UserRow). not (v.id == u.id) && v.name == u.name) d.users
          && not (count == 0)
      then none
      else some (count, record d { users = map (updated_row u n) d.users })

  unfoldable pub update_user : UserRow → Io (Unit {0})
  update_user u = do
    count ← wrap "could not update user in database" (execute (update_row u))
    unless (count == 0) user_not_found
