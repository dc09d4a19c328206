-- ===== src/Access/Tests.antt =====
-- The permissions at concrete inputs.
use pbuf_registry.Prelude.{
  ℕ, nat_eq, ◌&&◌, String, Bool, true, false, none, some, ◌≡◌, ◌==◌, ==_iff, string_eq, refl, [],
  ◌∷◌, arith,
}
use pbuf_registry.Database.Tables.{AclRow, UserRow, empty_db}
use pbuf_registry.Database.Errors.{ok, err}
use pbuf_registry.Database.Io.{World, pure, raise, execute, query_row, attempt, on_error, ◌>>=◌}
use pbuf_registry.Access.Acl.{
  grant_permission, revoke_permission, check_permission, entry_found, wildcard_found,
  has_required_permission, permission_level, permission_of,
}
use pbuf_registry.Access.Checks.{allowed, enough, check_permission_lem}
use pbuf_registry.Access.Requests.{
  Request, strip, contains, extract_module_name, get_required_permission, drift_permission,
  registry_permission,
}
use pbuf_registry.Access.Middleware.{
  Transport, Handler, AuthConfig, acl_token, create_auth_middleware, bearer, acl_auth, user_found,
  handle, authorize, permission_checked, is_admin, get_user_from_context,
}
use pbuf_registry.Access.Authorized.{guarded}
use pbuf_registry.Access.Grants.{grant-check, grant-allowed_other, revoke-check}
use pbuf_registry.Access.Users.{get_user_by_token}
use pbuf_registry.Access.Closed.{Demands, create_auth_middleware-Demands}

abbrev ann : UserRow
ann = record {
  id = 7;
  name = "ann";
  token = "s3cret";
  kind = "user";
  is_active = true;
  created_at = 0;
  updated_at = 0;
}

abbrev entry : String → String → AclRow
entry name p = record { id = 0; user_id = 7; module_name = name; permission = p; created_at = 0 }

abbrev office : World
office = record {
  db = record empty_db { users = ann ∷ [] };
  answers = λ n. record {
    fails = false;
    uuid = n;
    now = n;
    salt = "salt";
    uuids = λ i. i;
    cut = none;
    order = λ i. 0;
  };
  turn = 0;
}

-- Ann may write pay and read everything.
abbrev granted : World
granted = (grant_permission (entry "pay" "write") (grant_permission (entry "*" "read") office).1).1

-- Opens what a test runs.
checked : World → String → String → Bool
unfolding grant_permission revoke_permission check_permission entry_found wildcard_found
    has_required_permission permission_level pure raise execute acl_auth user_found
    get_user_by_token handle authorize permission_checked is_admin get_user_from_context query_row
    attempt on_error ◌>>=◌ strip contains extract_module_name get_required_permission
    drift_permission registry_permission create_auth_middleware bearer
checked w name p = elim (check_permission 7 name p w).0 [ ok b ↦ b | err e ↦ false ]

granted_write : (check_permission 7 "pay" "admin" granted).0 ≡ ok false
unfolding checked
granted_write = refl

granted_read : (check_permission 7 "ship" "read" granted).0 ≡ ok true
unfolding checked
granted_read = refl

check_permission_lem_example : true ≡ allowed 7 "ship" "read" granted.db
check_permission_lem_example = check_permission_lem 7 "ship" "read" granted true granted_read

first_grant : (grant_permission (entry "pay" "write") office).0 ≡ ok (entry "pay" "write")
unfolding checked
first_grant = refl

abbrev once : World
once = (grant_permission (entry "pay" "write") office).1

once_read : (check_permission 7 "pay" "read" once).0 ≡ ok true
unfolding checked
once_read = refl

grant-check_example : true ≡ has_required_permission "write" "read"
grant-check_example =
    grant-check (entry "pay" "write") office once (entry "pay" "write") "read" true first_grant refl
      once_read

pay_not_ship : (◌==◌ {A = ℕ} 7 7 && ◌==◌ {A = String} "pay" "ship") ≡ false
pay_not_ship = ground (arith, ==_iff {A = String} "pay" "ship")

pay_not_all : (◌==◌ {A = ℕ} 7 7 && ◌==◌ {A = String} "pay" "*") ≡ false
pay_not_all = ground (arith, ==_iff {A = String} "pay" "*")

grant-allowed_other_example : allowed 7 "ship" "read" once.db ≡ allowed 7 "ship" "read" office.db
grant-allowed_other_example =
    grant-allowed_other (entry "pay" "write") office (entry "pay" "write") 7 "ship" "read"
      first_grant pay_not_ship pay_not_all

revoked : (revoke_permission 7 "pay" granted).0 ≡ ok tt
unfolding checked
revoked = refl

abbrev after : World
after = (revoke_permission 7 "pay" granted).1

after_write : (check_permission 7 "pay" "write" after).0 ≡ ok false
unfolding checked
after_write = refl

revoke-check_example : false ≡ enough "write" (permission_of 7 "*" granted.db)
revoke-check_example =
    revoke-check 7 "pay" granted after "write" false (ground (arith, ==_iff {A = String} "pay" "*"))
      revoked refl after_write

abbrev hello : Handler String
hello ctx req = pure "hello"

abbrev pulls_pay : Transport
pulls_pay = record {
  authorization = "Bearer s3cret";
  operation = "/pbufregistry.v1.Registry/PullModule";
}

abbrev about_pay : Request
about_pay = record { module_name = none; name = some "pay"; module_id = none }

served : (guarded (λ token salt. token) "root" hello about_pay pulls_pay granted).0 ≡ ok "hello"
unfolding checked
served = refl

abbrev acl_config : AuthConfig
acl_config = record { enabled = true; kind = "acl" }

configured : create_auth_middleware acl_config true "root" ≡ ok (acl_token "root")
unfolding checked
configured = refl

create_auth_middleware-Demands_example : Demands acl_config (acl_token "root")
create_auth_middleware-Demands_example =
    create_auth_middleware-Demands acl_config true "root" (acl_token "root") configured
