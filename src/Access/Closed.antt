-- ===== src/Access/Closed.antt =====
-- A server whose configuration asks for authentication never runs without it.
use pbuf_registry.Prelude.{String, Bool, true, false, ◌≡◌, ◌≢◌, ==_iff, string_eq, arith}
use pbuf_registry.Database.Errors.{ok}
use pbuf_registry.Access.Middleware.{
  AuthMiddleware, unrestricted, static_token, acl_token, AuthConfig, create_auth_middleware,
}

-- The middleware that the configuration names, with a token that is not empty
abbrev pub Demands : AuthConfig → AuthMiddleware → Type 0
Demands cfg unrestricted = cfg.enabled ≡ false
Demands cfg (static_token token) = (cfg.enabled ≡ true) × (cfg.kind ≡ "static-token") × (token ≢ "")
Demands cfg (acl_token token) = (cfg.enabled ≡ true) × (cfg.kind ≡ "acl") × (token ≢ "")

-- When CreateAuthMiddleware returns a middleware, it is the one without checks only if
-- authentication is off; else it is the one that the configuration names and its token is not
-- empty.
pub create_auth_middleware-Demands :
    (cfg : AuthConfig) (has_users : Bool) (token : String) (m : AuthMiddleware)
    → create_auth_middleware cfg has_users token ≡ ok m
    → Demands cfg m
unfolding create_auth_middleware
create_auth_middleware-Demands cfg has_users token unrestricted h =
    ground (arith, ==_iff cfg.kind "acl", ==_iff cfg.kind "static-token", ==_iff token "")
create_auth_middleware-Demands cfg has_users token (static_token t) h =
    ground (arith, ==_iff cfg.kind "acl", ==_iff cfg.kind "static-token", ==_iff token "")
create_auth_middleware-Demands cfg has_users token (acl_token t) h =
    ground (arith, ==_iff cfg.kind "acl", ==_iff cfg.kind "static-token", ==_iff token "")
