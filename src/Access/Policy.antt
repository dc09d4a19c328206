-- ===== src/Access/Policy.antt =====
-- Who may call what: the methods of api/*.proto with the permission that each needs, and the requests
-- that reach a handler behind both middlewares.
use pbuf_registry.Prelude.{
  String, true, Option, none, some, ◌≡◌, ◌⊎◌, refl, ap, first, ◌==◌, string_eq, if◌then◌else◌,
}
use pbuf_registry.Database.Tables.{
  Permission, permission_read, permission_write, permission_admin, UserRow,
}
use pbuf_registry.Database.Errors.{Result}
use pbuf_registry.Database.Io.{World}
use pbuf_registry.Access.Checks.{allowed}
use pbuf_registry.Access.Requests.{
  Request, contains, strip, extract_module_name, extract_module_id, drift_permission,
  registry_permission, get_required_permission,
}
use pbuf_registry.Access.Middleware.{Transport, Handler, bearer}
use pbuf_registry.Access.Users.{authenticates}
use pbuf_registry.Access.Authorized.{Refused, Reached, session, by_admin}

-- The methods of the four services
pub data Method : Type 0 where
  list_modules get_module register_module pull_module push_module delete_module delete_module_tag
        get_module_dependencies :
      Method
  get_metadata : Method
  list_drift_events get_module_drift_events get_module_dependency_drift_status
        acknowledge_drift_event :
      Method
  create_user list_users get_user update_user delete_user regenerate_token grant_permission
        revoke_permission list_user_permissions :
      Method

-- What gRPC calls a method
abbrev pub full_name : Method → String
full_name list_modules = "/pbufregistry.v1.Registry/ListModules"
full_name get_module = "/pbufregistry.v1.Registry/GetModule"
full_name register_module = "/pbufregistry.v1.Registry/RegisterModule"
full_name pull_module = "/pbufregistry.v1.Registry/PullModule"
full_name push_module = "/pbufregistry.v1.Registry/PushModule"
full_name delete_module = "/pbufregistry.v1.Registry/DeleteModule"
full_name delete_module_tag = "/pbufregistry.v1.Registry/DeleteModuleTag"
full_name get_module_dependencies = "/pbufregistry.v1.Registry/GetModuleDependencies"
full_name get_metadata = "/pbufregistry.v1.MetadataService/GetMetadata"
full_name list_drift_events = "/pbufregistry.v1.DriftService/ListDriftEvents"
full_name get_module_drift_events = "/pbufregistry.v1.DriftService/GetModuleDriftEvents"
full_name get_module_dependency_drift_status =
    "/pbufregistry.v1.DriftService/GetModuleDependencyDriftStatus"
full_name acknowledge_drift_event = "/pbufregistry.v1.DriftService/AcknowledgeDriftEvent"
full_name create_user = "/pbufregistry.v1.UserService/CreateUser"
full_name list_users = "/pbufregistry.v1.UserService/ListUsers"
full_name get_user = "/pbufregistry.v1.UserService/GetUser"
full_name update_user = "/pbufregistry.v1.UserService/UpdateUser"
full_name delete_user = "/pbufregistry.v1.UserService/DeleteUser"
full_name regenerate_token = "/pbufregistry.v1.UserService/RegenerateToken"
full_name grant_permission = "/pbufregistry.v1.UserService/GrantPermission"
full_name revoke_permission = "/pbufregistry.v1.UserService/RevokePermission"
full_name list_user_permissions = "/pbufregistry.v1.UserService/ListUserPermissions"

-- Reading needs "read"; registering, pushing and acknowledging "write"; deleting, and every method
-- about users, "admin".
abbrev pub needed : Method → Permission
needed list_modules = permission_read
needed get_module = permission_read
needed register_module = permission_write
needed pull_module = permission_read
needed push_module = permission_write
needed delete_module = permission_admin
needed delete_module_tag = permission_admin
needed get_module_dependencies = permission_read
needed get_metadata = permission_read
needed list_drift_events = permission_read
needed get_module_drift_events = permission_read
needed get_module_dependency_drift_status = permission_read
needed acknowledge_drift_event = permission_write
needed _ = permission_admin

-- The first of the texts that is given and not empty, or "*"
abbrev given : Option String → String → String
given none rest = rest
given (some s) rest = if s == "" then rest else s

-- The module that a request names: its `module_name`, or its `name`
abbrev pub named : Request → String
named q = given q.module_name (given q.name "*")

-- The module on which the permission is asked
abbrev pub scope : Method → Request → String
scope list_modules q = named q
scope get_module q = named q
scope register_module q = named q
scope pull_module q = named q
scope push_module q = named q
scope delete_module q = named q
scope delete_module_tag q = named q
scope get_module_dependencies q = named q
scope get_metadata q = named q
scope list_drift_events q = given q.module_id "*"
scope get_module_drift_events q = given q.module_id "*"
scope get_module_dependency_drift_status q = named q
scope _ q = "*"

named-same : (q : Request) → extract_module_name q ≡ named q
unfolding extract_module_name
named-same q = names q.module_name q.name
  where
    names :
        (a b : Option String)
        → extract_module_name (record { module_name = a; name = b; module_id = none })
          ≡ given a (given b "*")
    names none none = refl
    names none (some b) = refl
    names (some a) none = refl
    names (some a) (some b) = refl

given-same :
    (a : Option String)
    → extract_module_id (record { module_name = none; name = none; module_id = a }) ≡ given a "*"
unfolding extract_module_id
given-same none = refl
given-same (some a) = refl

-- getRequiredPermission asks for every method what the table says.
pub needed-same :
    (m : Method) (q : Request) → get_required_permission (full_name m) q ≡ (needed m, scope m q)
unfolding get_required_permission drift_permission registry_permission contains strip
    extract_module_id
needed-same list_modules q = ap (λ s. (needed list_modules, s)) (named-same q)
needed-same get_module q = ap (λ s. (needed get_module, s)) (named-same q)
needed-same register_module q = ap (λ s. (needed register_module, s)) (named-same q)
needed-same pull_module q = ap (λ s. (needed pull_module, s)) (named-same q)
needed-same push_module q = ap (λ s. (needed push_module, s)) (named-same q)
needed-same delete_module q = ap (λ s. (needed delete_module, s)) (named-same q)
needed-same delete_module_tag q = ap (λ s. (needed delete_module_tag, s)) (named-same q)
needed-same get_module_dependencies q = ap (λ s. (needed get_module_dependencies, s)) (named-same q)
needed-same get_metadata q = ap (λ s. (needed get_metadata, s)) (named-same q)
needed-same get_module_dependency_drift_status q =
    ap (λ s. (needed get_module_dependency_drift_status, s)) (named-same q)
needed-same list_drift_events q = ap (λ s. (needed list_drift_events, s)) (given-same q.module_id)
needed-same get_module_drift_events q =
    ap (λ s. (needed get_module_drift_events, s)) (given-same q.module_id)
needed-same acknowledge_drift_event q = refl
needed-same create_user q = refl
needed-same list_users q = refl
needed-same get_user q = refl
needed-same update_user q = refl
needed-same delete_user q = refl
needed-same regenerate_token q = refl
needed-same grant_permission q = refl
needed-same revoke_permission q = refl
needed-same list_user_permissions q = refl

module _ {ℓ} {A : Type ℓ} (crypt : String → String → String) (admin_token : String)
    (handler : Handler A) (req : Request) (t : Transport) where
  -- An active user who has the bearer's token holds, on the module of the request or, if there is
  -- no entry for that, on all modules, a permission of at least the level that the method needs; the
  -- handler answers on the same tables.
  abbrev pub Allowed : Method → World → Result A × World → Type ℓ
  Allowed m w r =
      (u : UserRow) × (first (authenticates crypt (bearer t.authorization)) w.db.users ≡ some u)
      × (allowed u.id (scope m req) (needed m) w.db ≡ true)
      × Reached handler (session t u) req w r

  abbrev pub Decision : Method → World → Result A × World → Type ℓ
  Decision m w r =
      Refused w r
      ⊎ (((bearer t.authorization ≡ admin_token)
            × (r ≡ handler (by_admin crypt admin_token handler req t) req w))
          ⊎ Allowed m w r)
