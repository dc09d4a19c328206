-- ===== src/Servers/Api.antt =====
-- What the handlers of internal/server share: kratos' errors, and the values of the generated enums,
-- which are numbers.
use pbuf_registry.Prelude.{ℕ, String, ◌==◌, nat_eq, string_eq, Option, none, some, if◌then◌else◌}
use pbuf_registry.Database.Tables.{
  Permission, permission_read, permission_write, permission_admin, DriftEventType, added, modified,
  deleted, DriftSeverity, info, warning, critical,
}
use pbuf_registry.Database.Errors.{Error, api_error}
use pbuf_registry.Database.Io.{Io, pure, raise}
use pbuf_registry.Drift.Statuses.{DependencyDriftRecommendation, suggest_update, alert_review}

abbrev pub invalid_request : Error
invalid_request = api_error 400 "INVALID_REQUEST" "invalid request"

abbrev pub user_missing : Error
user_missing = api_error 404 "USER_NOT_FOUND" "user not found"

abbrev pub internal_server : String → String → Error
internal_server reason text = api_error 500 reason text

-- userTypeFromV1: 1 and 2 are USER_TYPE_USER and USER_TYPE_BOT.
unfoldable pub user_type_from_v1 : ℕ → Option String
user_type_from_v1 t = if t == 1 then some "user" else if t == 2 then some "bot" else none

-- userTypeToV1
unfoldable pub user_type_to_v1 : String → ℕ
user_type_to_v1 t = if t == "user" then 1 else if t == "bot" then 2 else 0

-- permissionFromV1
unfoldable pub permission_from_v1 : ℕ → Option Permission
permission_from_v1 p =
    if p == 1
    then some permission_read
    else if p == 2
    then some permission_write
    else if p == 3
    then some permission_admin
    else none

-- permissionToV1
unfoldable pub permission_to_v1 : Permission → ℕ
permission_to_v1 p =
    if p == permission_read
    then 1
    else if p == permission_write
    then 2
    else if p == permission_admin
    then 3
    else 0

-- driftEventTypeToV1
abbrev pub drift_event_type_to_v1 : DriftEventType → ℕ
drift_event_type_to_v1 added = 1
drift_event_type_to_v1 modified = 2
drift_event_type_to_v1 deleted = 3

-- driftSeverityToV1
abbrev pub drift_severity_to_v1 : DriftSeverity → ℕ
drift_severity_to_v1 info = 1
drift_severity_to_v1 warning = 2
drift_severity_to_v1 critical = 3

-- dependencyRecommendationToV1
abbrev pub dependency_recommendation_to_v1 : DependencyDriftRecommendation → ℕ
dependency_recommendation_to_v1 suggest_update = 1
dependency_recommendation_to_v1 alert_review = 2

-- toTimestamp: the zero time gives nil.
abbrev pub to_timestamp : ℕ → Option ℕ
to_timestamp t = if t == 0 then none else some t

-- A value, or an error
unfoldable pub require {ℓ} : {A : Type ℓ} → Error → Option A → Io A
require e none = raise e
require e (some a) = pure a
