-- ===== src/Servers/Users.antt =====
-- UsersServer of internal/server/users.go. What is logged is left out. `none` is a nil request.
-- The libraries are parameters: `parse_uuid` and `show_uuid` are uuid.Parse and UUID.String,
-- `random_text` the base64 text of the random bytes read at a point of the run, or `none` if they
-- cannot be read, and `crypt` is that of the database.
use pbuf_registry.Prelude.{
  ℕ, ◌*◌, String, Bool, true, ◌==◌, string_eq, nat_eq, ltb, Option, none, some, List, [], ◌∷◌, map,
  length, concat, if◌then◌else◌,
}
use pbuf_registry.Database.Tables.{Permission, UserRow, AclRow}
use pbuf_registry.Database.Errors.{
  Error, Result, ok, err, api_error, is_user_not_found, is_permission_not_found,
}
use pbuf_registry.Database.Io.{Io, pure, raise, on_error, ◌>>=◌, ◌>>◌}
use pbuf_registry.Drift.Numbers.{ℤ, pos, negsuc}
use pbuf_registry.Access.Acl.{
  grant_permission, revoke_permission, list_user_permissions, delete_user_permissions,
}
use pbuf_registry.Access.Users.{get_user, list_users, create_user, update_user, delete_user}
use pbuf_registry.Servers.Api.{
  invalid_request, user_missing, internal_server, user_type_from_v1, user_type_to_v1,
  permission_from_v1, permission_to_v1, to_timestamp, require,
}

-- v1.User and v1.ACLEntry
pub record V1User : Type 0 where
  pub id : String
  pub name : String
  pub kind : ℕ
  pub is_active : Bool
  pub created_at : Option ℕ
  pub updated_at : Option ℕ

pub record V1AclEntry : Type 0 where
  pub id : String
  pub user_id : String
  pub module_name : String
  pub permission : ℕ
  pub created_at : Option ℕ

pub record CreateUserRequest : Type 0 where
  pub name : String
  pub kind : ℕ

pub record UpdateUserRequest : Type 0 where
  pub id : String
  pub name : String
  pub is_active : Bool

pub record ListUsersRequest : Type 0 where
  pub page_size : ℤ
  pub page : ℤ

pub record ListUsersResponse : Type 0 where
  pub users : List V1User
  pub total : ℕ

pub record GrantPermissionRequest : Type 0 where
  pub user_id : String
  pub module_name : String
  pub permission : ℕ

pub record RevokePermissionRequest : Type 0 where
  pub user_id : String
  pub module_name : String

-- `if errors.Is(err, data.ErrUserNotFound) { return ErrUserNotFound }`, and another error otherwise
abbrev pub user_error_as : Error → Error → Error
user_error_as other e = if is_user_not_found e then user_missing else other

abbrev pub fetch_failed : Error
fetch_failed = internal_server "USER_FETCH_FAILED" "failed to get user"

abbrev pub token_failed : Error
token_failed = internal_server "TOKEN_GENERATION_FAILED" "failed to generate token"

-- The page size: 50 if none is given, and at most 1000
unfoldable pub page_size_of : ℤ → ℕ
page_size_of (pos n) = if n == 0 then 50 else if ltb 1000 n then 1000 else n
page_size_of (negsuc n) = 50

unfoldable pub page_of : ℤ → ℕ
page_of (pos n) = n
page_of (negsuc n) = 0

abbrev pub token_text : String → Option String → Result String
token_text kind none = err token_failed
token_text kind (some random) = ok (concat ("pbuf_" ∷ kind ∷ "_" ∷ random ∷ []))

module _ (parse_uuid : String → Option ℕ) (show_uuid : ℕ → String) (random_text : ℕ → Option String)
    (crypt : String → String → String) where
  abbrev pub to_v1_user : UserRow → V1User
  to_v1_user u = record {
    id = show_uuid u.id;
    name = u.name;
    kind = user_type_to_v1 u.kind;
    is_active = u.is_active;
    created_at = to_timestamp u.created_at;
    updated_at = to_timestamp u.updated_at;
  }

  abbrev pub to_v1_acl_entry : AclRow → V1AclEntry
  to_v1_acl_entry e = record {
    id = show_uuid e.id;
    user_id = show_uuid e.user_id;
    module_name = e.module_name;
    permission = permission_to_v1 e.permission;
    created_at = to_timestamp e.created_at;
  }

  -- parseUUID
  abbrev pub parse_id : String → Io ℕ
  parse_id id = require invalid_request (parse_uuid id)

  -- generateToken, with the error that its callers return
  unfoldable pub generate_token : String → Io String
  generate_token kind w = (token_text kind (random_text w.turn), w)

  -- A user that is not stored yet
  abbrev pub unsaved_user : String → String → String → UserRow
  unsaved_user name token kind = record {
    id = 0;
    name = name;
    token = token;
    kind = kind;
    is_active = true;
    created_at = 0;
    updated_at = 0;
  }

  unfoldable pub create_named : String → String → Io (V1User × String)
  create_named name kind = if name == "" then raise invalid_request else do
    token ← generate_token kind
    user ←
        on_error (λ _. internal_server "USER_CREATION_FAILED" "failed to create user")
          (create_user crypt (unsaved_user name token kind))
    pure (to_v1_user user, token)

  -- UsersServer.CreateUser: the user and its token
  unfoldable pub serve_create_user : Option CreateUserRequest → Io (V1User × String)
  serve_create_user none = raise invalid_request
  serve_create_user (some q) = do
    kind ← require invalid_request (user_type_from_v1 q.kind)
    create_named q.name kind

  abbrev pub users_response : List UserRow → ListUsersResponse
  users_response us = record { users = map to_v1_user us; total = length us }

  unfoldable pub serve_list_users : Option ListUsersRequest → Io ListUsersResponse
  serve_list_users none = raise invalid_request
  serve_list_users (some q) = do
    us ←
        on_error (λ _. internal_server "USER_LIST_FAILED" "failed to list users")
          (list_users (page_size_of q.page_size) (page_of q.page * page_size_of q.page_size))
    pure (users_response us)

  unfoldable pub serve_get_user : Option String → Io V1User
  serve_get_user none = raise invalid_request
  serve_get_user (some id) = do
    i ← parse_id id
    u ← on_error (user_error_as fetch_failed) (get_user i)
    pure (to_v1_user u)

  abbrev pub updated_user : UpdateUserRequest → UserRow → UserRow
  updated_user q u = record u {
    name = if q.name == "" then u.name else q.name;
    is_active = q.is_active;
  }

  unfoldable pub serve_update_user : Option UpdateUserRequest → Io V1User
  serve_update_user none = raise invalid_request
  serve_update_user (some q) = do
    i ← parse_id q.id
    u ← on_error (user_error_as fetch_failed) (get_user i)
    on_error (λ _. internal_server "USER_UPDATE_FAILED" "failed to update user")
        (update_user crypt (updated_user q u))
    pure (to_v1_user (updated_user q u))

  unfoldable pub delete_account : String → ℕ → Io String
  delete_account id i = do
    on_error (λ _. internal_server "PERMISSION_DELETE_FAILED" "failed to delete user permissions")
        (delete_user_permissions i)
    on_error (user_error_as (internal_server "USER_DELETE_FAILED" "failed to delete user"))
        (delete_user i)
    pure id

  unfoldable pub serve_delete_user : Option String → Io String
  serve_delete_user none = raise invalid_request
  serve_delete_user (some id) = do i ← parse_id id; delete_account id i

  unfoldable pub replace_token : ℕ → Io String
  replace_token i = do
    u ← on_error (user_error_as fetch_failed) (get_user i)
    token ← generate_token u.kind
    on_error (λ _. internal_server "USER_UPDATE_FAILED" "failed to update user token")
        (update_user crypt (record u { token = token }))
    pure token

  unfoldable pub serve_regenerate_token : Option String → Io String
  serve_regenerate_token none = raise invalid_request
  serve_regenerate_token (some id) = do i ← parse_id id; replace_token i

  abbrev pub unsaved_entry : ℕ → String → Permission → AclRow
  unsaved_entry user name p = record {
    id = 0;
    user_id = user;
    module_name = name;
    permission = p;
    created_at = 0;
  }

  unfoldable pub serve_grant_permission : Option GrantPermissionRequest → Io V1AclEntry
  serve_grant_permission none = raise invalid_request
  serve_grant_permission (some q) = do
    user ← parse_id q.user_id
    p ← require invalid_request (permission_from_v1 q.permission)
    on_error (user_error_as fetch_failed) (get_user user)
    entry ←
        on_error (λ _. internal_server "PERMISSION_GRANT_FAILED" "failed to grant permission")
          (grant_permission (unsaved_entry user q.module_name p))
    pure (to_v1_acl_entry entry)

  abbrev pub revoke_error : Error → Error
  revoke_error e =
      if is_permission_not_found e
      then api_error 404 "PERMISSION_NOT_FOUND" "permission not found"
      else internal_server "PERMISSION_REVOKE_FAILED" "failed to revoke permission"

  unfoldable pub serve_revoke_permission : Option RevokePermissionRequest → Io Bool
  serve_revoke_permission none = raise invalid_request
  serve_revoke_permission (some q) = do
    user ← parse_id q.user_id
    on_error revoke_error (revoke_permission user q.module_name)
    pure true

  unfoldable pub serve_list_user_permissions : Option String → Io (List V1AclEntry)
  serve_list_user_permissions none = raise invalid_request
  serve_list_user_permissions (some id) = do
    user ← parse_id id
    entries ←
        on_error (λ _. internal_server "PERMISSION_LIST_FAILED" "failed to list user permissions")
          (list_user_permissions user)
    pure (map to_v1_acl_entry entries)
