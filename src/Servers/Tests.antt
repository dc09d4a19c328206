-- ===== src/Servers/Tests.antt =====
-- The user server in a small database.
use pbuf_registry.Prelude.{
  ℕ, ◌≤◌, String, true, false, Option, none, some, ◌≡◌, refl, [], ◌∷◌, length, ◌==◌, string_eq,
  if◌then◌else◌,
}
use pbuf_registry.Database.Tables.{UserRow, empty_db, permission_read}
use pbuf_registry.Database.Errors.{ok}
use pbuf_registry.Database.Io.{
  World, answer, pure, raise, execute, scan, scan_unordered, query, query_row, attempt, on_error,
  ◌>>=◌,
}
use pbuf_registry.Database.Queries.{order_desc}
use pbuf_registry.Drift.Numbers.{pos, negsuc}
use pbuf_registry.Access.Acl.{delete_user_permissions}
use pbuf_registry.Access.Users.{
  get_user, get_user_by_token, list_users, create_user, update_user, delete_user,
}
use pbuf_registry.Servers.Api.{require, user_type_from_v1, user_type_to_v1}
use pbuf_registry.Servers.Users.{
  V1User, CreateUserRequest, ListUsersResponse, ListUsersRequest, page_size_of, page_of,
  generate_token, create_named, serve_create_user, serve_list_users, delete_account,
  serve_delete_user, replace_token, serve_regenerate_token, users_response,
}
use pbuf_registry.Servers.Tokens.{after_create, create_user-authenticates}
use pbuf_registry.Servers.Accounts.{
  Gone, Renewed, serve_delete_user-Gone, serve_list_users-total, serve_regenerate_token-Renewed,
}

abbrev parse_uuid : String → Option ℕ
parse_uuid s = if s == "a" then some 1 else none

abbrev show_uuid : ℕ → String
show_uuid i = "a"

abbrev random_text : ℕ → Option String
random_text n = some "xyz"

abbrev crypt : String → String → String
crypt token salt = token

abbrev ann : UserRow
ann = record {
  id = 1;
  name = "ann";
  token = "old";
  kind = "user";
  is_active = true;
  created_at = 1;
  updated_at = 1;
}

abbrev stocked : World
stocked = record {
  db = record empty_db {
    users = ann ∷ [];
    acl =
        record {
          id = 4;
          user_id = 1;
          module_name = "pay";
          permission = permission_read;
          created_at = 2;
        }
        ∷ [];
  };
  answers = λ n. record {
    fails = false;
    uuid = n;
    now = n;
    salt = "salt";
    uuids = λ i. i;
    cut = none;
    order = λ i. 0;
  };
  turn = 5;
}

abbrev bot : CreateUserRequest
bot = record { name = "ci"; kind = 2 }

abbrev bot_user : V1User
bot_user = record {
  id = "a";
  name = "ci";
  kind = 2;
  is_active = true;
  created_at = some 5;
  updated_at = some 5;
}

-- Opens what a test runs.
opened : World → World
unfolding require user_type_from_v1 user_type_to_v1 page_size_of page_of generate_token create_named
    serve_create_user serve_list_users delete_account serve_delete_user replace_token
    serve_regenerate_token get_user get_user_by_token list_users create_user update_user delete_user
    delete_user_permissions pure raise execute scan scan_unordered query query_row attempt on_error
    ◌>>=◌ order_desc
opened w = w

created :
    (serve_create_user parse_uuid show_uuid random_text crypt (some bot) stocked).0
    ≡ ok (bot_user, "pbuf_bot_xyz")
unfolding opened
created = refl

answered_after :
    (answer (after_create parse_uuid show_uuid random_text crypt bot stocked)).fails ≡ false
unfolding opened
answered_after = refl

create_user-authenticates_example :
    (row : UserRow) × ((get_user_by_token crypt "pbuf_bot_xyz"
        (after_create parse_uuid show_uuid random_text crypt bot stocked)).0
      ≡ ok row)
    × (row.name ≡ "ci")
    × (show_uuid row.id ≡ "a")
create_user-authenticates_example =
    create_user-authenticates parse_uuid show_uuid random_text crypt bot stocked
      (bot_user, "pbuf_bot_xyz") (λ t s. refl) refl created answered_after

deleted : (serve_delete_user parse_uuid show_uuid random_text crypt (some "a") stocked).0 ≡ ok "a"
unfolding opened
deleted = refl

serve_delete_user-Gone_example :
    Gone 1 (serve_delete_user parse_uuid show_uuid random_text crypt (some "a") stocked).1.db
serve_delete_user-Gone_example =
    serve_delete_user-Gone parse_uuid show_uuid random_text crypt "a" 1 stocked "a" refl deleted

regenerated :
    (serve_regenerate_token parse_uuid show_uuid random_text crypt (some "a") stocked).0
    ≡ ok "pbuf_user_xyz"
unfolding opened
regenerated = refl

serve_regenerate_token-Renewed_example :
    Renewed parse_uuid show_uuid random_text crypt 1 "pbuf_user_xyz"
      (serve_regenerate_token parse_uuid show_uuid random_text crypt (some "a") stocked).1.db
serve_regenerate_token-Renewed_example =
    serve_regenerate_token-Renewed parse_uuid show_uuid random_text crypt "a" 1 stocked
      "pbuf_user_xyz" (λ t s. refl) refl regenerated

abbrev large : ListUsersRequest
large = record { page_size = pos 5000; page = negsuc 3 }

abbrev listed : ListUsersResponse
listed = users_response parse_uuid show_uuid random_text crypt (ann ∷ [])

listed_ann :
    (serve_list_users parse_uuid show_uuid random_text crypt (some large) stocked).0 ≡ ok listed
unfolding opened
listed_ann = refl

serve_list_users-total_example : (length listed.users ≤ 1000) × (listed.total ≡ length listed.users)
serve_list_users-total_example =
    serve_list_users-total parse_uuid show_uuid random_text crypt large stocked listed listed_ann
