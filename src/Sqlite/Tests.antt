-- ===== src/Sqlite/Tests.antt =====
-- The SQLite repositories in a small database.
use pbuf_registry.Prelude.{Option, none, String, Bool, true, false, ◌≡◌, refl, [], ◌∷◌, concat}
use pbuf_registry.Database.Tables.{
  UserRow, AclRow, Module, empty_db, permission_read, permission_write,
}
use pbuf_registry.Database.Errors.{ok}
use pbuf_registry.Database.Io.{
  World, Answer, answer, pure, raise, execute, scan, scan_unordered, query, query_row, attempt,
  on_error, ◌>>=◌,
}
use pbuf_registry.Access.Acl
use pbuf_registry.Sqlite.Users.{authenticates, create_user, get_user_by_token, update_user}
use pbuf_registry.Sqlite.Acl.{
  permission_level, has_required_permission, wildcard_found, entry_found, check_permission,
  grant_permission,
}
use pbuf_registry.Sqlite.Tokens.{create_user-get_user_by_token, update_user-locks_out}
use pbuf_registry.Sqlite.Modules.{delete_module, get_module, get_found}
use pbuf_registry.Sqlite.Removed.{delete_module-get_module}
use pbuf_registry.Sqlite.Granted.{check_permission-same, sqlite_grant-check}

abbrev digest : String → String
digest s = concat ("#" ∷ s ∷ [])

abbrev enforced : Answer → Bool
enforced n = true

abbrev ann : UserRow
ann = record {
  id = 1;
  name = "ann";
  token = "#old";
  kind = "user";
  is_active = true;
  created_at = 1;
  updated_at = 1;
}

abbrev entry : AclRow
entry = record {
  id = 0;
  user_id = 1;
  module_name = "pay";
  permission = permission_write;
  created_at = 0;
}

abbrev stocked : World
stocked = record {
  db = record empty_db {
    users = ann ∷ [];
    acl = record entry { id = 4; permission = permission_read; created_at = 2 } ∷ [];
  };
  answers = λ n. record {
    fails = false;
    uuid = n;
    now = n;
    salt = "";
    uuids = λ i. i;
    cut = none;
    order = λ i. 0;
  };
  turn = 5;
}

abbrev bob : UserRow
bob = record ann { id = 0; name = "bob"; token = "new"; created_at = 0; updated_at = 0 }

abbrev stored_bob : UserRow
stored_bob = record bob { id = 5; created_at = 5; updated_at = 5 }

-- Opens what a test runs.
opened : World → World
unfolding create_user get_user_by_token update_user permission_level has_required_permission
    wildcard_found entry_found check_permission grant_permission pure raise execute scan
    scan_unordered query query_row attempt on_error ◌>>=◌
opened w = w

created : (create_user digest bob stocked).0 ≡ ok stored_bob
unfolding opened
created = refl

answered_after : (answer (create_user digest bob stocked).1).fails ≡ false
unfolding opened
answered_after = refl

create_user-get_user_by_token_example :
    (get_user_by_token digest "new" (create_user digest bob stocked).1).0
    ≡ ok (record stored_bob { token = "#new" })
create_user-get_user_by_token_example =
    create_user-get_user_by_token digest bob stored_bob stocked refl refl created answered_after

abbrev rehashed : UserRow
rehashed = record ann { token = "##old"; updated_at = 5 }

updated : (update_user digest ann stocked).0 ≡ ok tt
unfolding opened
updated = refl

update_user-locks_out_example : authenticates digest "old" rehashed ≡ false
unfolding opened
update_user-locks_out_example =
    update_user-locks_out digest ann rehashed "old" stocked refl refl updated refl

check_permission-same_example :
    check_permission 1 "pay" permission_read stocked
    ≡ Acl.check_permission 1 "pay" permission_read stocked
check_permission-same_example = check_permission-same 1 "pay" permission_read stocked

abbrev granted : World
granted = (grant_permission enforced entry stocked).1

granted_ok :
    (grant_permission enforced entry stocked).0 ≡ ok (record entry { id = 4; created_at = 2 })
unfolding opened
granted_ok = refl

checked : (check_permission 1 "pay" permission_write granted).0 ≡ ok true
unfolding opened
checked = refl

sqlite_grant-check_example : true ≡ has_required_permission permission_write permission_write
sqlite_grant-check_example =
    sqlite_grant-check enforced entry stocked granted (record entry { id = 4; created_at = 2 })
      permission_write true granted_ok refl checked

abbrev housed : World
housed = record stocked { db = record empty_db { modules = record { id = 2; name = "pay" } ∷ [] } }

abbrev emptied : World
emptied = (delete_module enforced "pay" housed).1

-- Opens what deletes a module.
cleared : World → World
unfolding delete_module get_module get_found pure raise execute scan scan_unordered query query_row
    attempt on_error ◌>>=◌
cleared w = w

deleted : (delete_module enforced "pay" housed).0 ≡ ok tt
unfolding cleared
deleted = refl

looked_up : (get_module "pay" emptied).0 ≡ ok none
unfolding cleared
looked_up = refl

abbrev nothing : Option Module
nothing = none

delete_module-get_module_example : nothing ≡ none
delete_module-get_module_example =
    delete_module-get_module enforced "pay" housed emptied none deleted refl looked_up
