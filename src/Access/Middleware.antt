-- ===== src/Access/Middleware.antt =====
-- The middlewares of internal/middleware: auth.go, authz.go and config.go. A handler is a function
-- of the context and the request; its reply is of any type.
use pbuf_registry.Prelude.{
  String, Bool, true, false, not, Option, none, some, ◌==◌, string_eq, if◌then◌else◌,
}
use pbuf_registry.Database.Tables.{Permission, UserRow}
use pbuf_registry.Database.Errors.{
  Result, ok, err, message, token_invalid, wrong_context, permission_denied,
}
use pbuf_registry.Database.Io.{Io, raise, attempt, ◌>>=◌}
use pbuf_registry.Access.Acl.{check_permission}
use pbuf_registry.Access.Requests.{Request, has_prefix, trim_prefix, get_required_permission}

-- transport.FromServerContext(ctx): the header "Authorization" ("" if absent) and the operation
pub record Transport : Type 0 where
  pub authorization : String
  pub operation : String

-- The values of ctx that the middlewares read and set
pub record Context : Type 0 where
  pub transport : Option Transport
  pub user : Option UserRow
  pub admin : Option Bool

abbrev pub Handler {ℓ} : Type ℓ → Type ℓ
Handler A = Context → Request → Io A

unfoldable pub get_user_from_context : Context → Option UserRow
get_user_from_context ctx = ctx.user

unfoldable pub is_admin : Context → Bool
is_admin ctx = elim ctx.admin [ some b ↦ b | none ↦ false ]

-- "Bearer <token>", or the token alone
unfoldable pub bearer : String → String
bearer header = if has_prefix header "Bearer " then trim_prefix header "Bearer " else header

module _ {ℓ} {A : Type ℓ} where
  unfoldable pub no_auth : Handler A → Handler A
  no_auth handler ctx req = handler ctx req

  unfoldable pub static_token_auth : String → Handler A → Handler A
  static_token_auth token handler ctx req = elim ctx.transport [
    | some t ↦ if not (t.authorization == token) then raise token_invalid else handler ctx req
    | none ↦ raise wrong_context
  ]

  -- After GetUserByToken. Either error of it gives the same reply.
  unfoldable pub user_found : Handler A → Context → Request → Result UserRow → Io A
  user_found handler ctx req (err e) = raise token_invalid
  user_found handler ctx req (ok u) = handler (record ctx { user = some u; admin = some false }) req

  unfoldable pub acl_auth : String → (String → Io UserRow) → Handler A → Handler A
  unfolding bearer
  acl_auth admin_token get_user_by_token handler ctx req = elim ctx.transport [
    | none ↦ raise wrong_context
    | some t ↦
        if t.authorization == ""
        then raise token_invalid
        else if bearer t.authorization == admin_token
        then handler (record ctx { admin = some true }) req
        else (do
          found ← attempt (get_user_by_token (bearer t.authorization))
          user_found handler ctx req found)
  ]

  unfoldable pub permission_checked : Handler A → Context → Request → Result Bool → Io A
  permission_checked handler ctx req (err e) = raise permission_denied
  permission_checked handler ctx req (ok b) =
      if not b then raise permission_denied else handler ctx req

  unfoldable pub authorize : Handler A → Context → Request → UserRow → Permission × String → Io A
  authorize handler ctx req u (required, name) = if required == "" then handler ctx req else (do
    allowed ← attempt (check_permission u.id name required)
    permission_checked handler ctx req allowed)

  unfoldable pub handle : Handler A → Handler A
  handle handler ctx req =
      if is_admin ctx then handler ctx req else elim (get_user_from_context ctx) [
        | none ↦ handler ctx req
        | some u ↦ elim ctx.transport [
          | none ↦ handler ctx req
          | some t ↦ authorize handler ctx req u (get_required_permission t.operation req)
        ]
      ]

-- What CreateAuthMiddleware can return
pub data AuthMiddleware : Type 0 where
  unrestricted : AuthMiddleware
  static_token acl_token : String → AuthMiddleware

-- config.Auth
pub record AuthConfig : Type 0 where
  pub enabled : Bool
  pub kind : String

abbrev pub with_token : String → (String → AuthMiddleware) → Result AuthMiddleware
with_token token make =
    if token == "" then err (message "SERVER_STATIC_TOKEN is not set") else ok (make token)

-- `has_users` is `userRepo != nil`, and `token` what os.Getenv("SERVER_STATIC_TOKEN") gives.
unfoldable pub create_auth_middleware : AuthConfig → Bool → String → Result AuthMiddleware
create_auth_middleware cfg has_users token =
    if not cfg.enabled
    then ok unrestricted
    else if cfg.kind == "static-token"
    then with_token token static_token
    else if cfg.kind == "acl"
    then if has_users
      then with_token token acl_token
      else err (message "user repository is required for auth type")
    else err (message "unknown auth type")
