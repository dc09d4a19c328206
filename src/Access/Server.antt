-- ===== src/Access/Server.antt =====
-- The middlewares of a server, as internal/server/grpc.go and http.go install them. A call of
-- logHelper.Fatalf ends the process: no server.
use pbuf_registry.Prelude.{String, Bool, ◌&&◌, ◌==◌, string_eq, if◌then◌else◌}
use pbuf_registry.Database.Tables.{UserRow}
use pbuf_registry.Database.Errors.{Result, ok, err, message}
use pbuf_registry.Database.Io.{Io}
use pbuf_registry.Access.Middleware.{
  Handler, AuthMiddleware, unrestricted, static_token, acl_token, AuthConfig, no_auth,
  static_token_auth, acl_auth, handle, create_auth_middleware,
}

module _ {ℓ} {A : Type ℓ} (get_user_by_token : String → Io UserRow) where
  -- NewAuthMiddleware of what CreateAuthMiddleware returned
  unfoldable pub new_auth_middleware : AuthMiddleware → Handler A → Handler A
  new_auth_middleware unrestricted handler = no_auth handler
  new_auth_middleware (static_token token) handler = static_token_auth token handler
  new_auth_middleware (acl_token token) handler = acl_auth token get_user_by_token handler

  unfoldable pub with_authorization :
      AuthConfig → Bool → AuthMiddleware → Result (Handler A → Handler A)
  with_authorization cfg has_acl auth =
      if cfg.enabled && cfg.kind == "acl"
      then if has_acl
        then ok (λ handler. new_auth_middleware auth (handle handler))
        else err (message "ACL repository is required when auth type is 'acl'")
      else ok (new_auth_middleware auth)

  abbrev pub authenticated :
      AuthConfig → Bool → Result AuthMiddleware → Result (Handler A → Handler A)
  authenticated cfg has_acl (err e) = err e
  authenticated cfg has_acl (ok auth) = with_authorization cfg has_acl auth

  -- `has_users` and `has_acl`: the repositories are not nil. `token`: SERVER_STATIC_TOKEN.
  unfoldable pub server_middlewares :
      AuthConfig → (has_users has_acl : Bool) → String → Result (Handler A → Handler A)
  server_middlewares cfg has_users has_acl token =
      authenticated cfg has_acl (create_auth_middleware cfg has_users token)
