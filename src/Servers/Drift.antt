-- ===== src/Servers/Drift.antt =====
-- DriftServer of internal/server/drift.go. `none` is a nil request, or a tag name that is not given.
-- The ids of events are texts there: `parse_uuid` is how the database reads one, which refuses a text
-- that is no UUID, and `show_uuid` how it writes one.
use pbuf_registry.Prelude.{
  ℕ, String, Bool, true, ◌==◌, string_eq, Option, none, some, List, map, if◌then◌else◌,
}
use pbuf_registry.Database.Errors.{Error, api_error, is_tag_not_found, refused}
use pbuf_registry.Database.Io.{Io, pure, raise, on_error, ◌>>=◌, ◌>>◌}
use pbuf_registry.Drift.Events.{
  DriftEvent, get_unacknowledged_drift_events, get_drift_events_for_module, acknowledge_drift_event,
}
use pbuf_registry.Drift.Statuses.{DependencyDriftStatus, get_module_dependency_drift_statuses}
use pbuf_registry.Servers.Api.{
  invalid_request, internal_server, drift_event_type_to_v1, drift_severity_to_v1,
  dependency_recommendation_to_v1, require,
}

-- v1.DriftEvent; a nil EventType, Severity or time is 0 or `none`.
pub record V1DriftEvent : Type 0 where
  pub id : String
  pub module_name : String
  pub tag_name : String
  pub filename : String
  pub event_type : ℕ
  pub previous_hash : String
  pub current_hash : String
  pub severity : ℕ
  pub detected_at : Option ℕ
  pub acknowledged : Bool
  pub acknowledged_at : Option ℕ
  pub acknowledged_by : String

pub record V1DependencyDriftStatus : Type 0 where
  pub dependency_name : String
  pub current_tag : String
  pub target_tag : String
  pub severity : ℕ
  pub recommendation : ℕ

pub record ModuleRequest : Type 0 where
  pub module_name : String
  pub tag_name : Option String

pub record AcknowledgeRequest : Type 0 where
  pub event_id : String
  pub acknowledged_by : String

abbrev pub events_failed : Error
events_failed = internal_server "DRIFT_EVENTS_FETCH_FAILED" "failed to fetch drift events"

abbrev pub given_tag : Option String → String
given_tag none = ""
given_tag (some tag) = tag

abbrev pub status_error : Error → Error
status_error e =
    if is_tag_not_found e
    then api_error 404 "MODULE_TAG_NOT_FOUND" "module tag not found"
    else internal_server "DEPENDENCY_DRIFT_STATUS_FETCH_FAILED"
        "failed to fetch dependency drift status"

-- toV1DependencyDriftStatus
abbrev pub to_v1_dependency_drift_status : DependencyDriftStatus → V1DependencyDriftStatus
to_v1_dependency_drift_status s = record {
  dependency_name = s.dependency_name;
  current_tag = s.current_tag;
  target_tag = s.target_tag;
  severity = drift_severity_to_v1 s.severity;
  recommendation = dependency_recommendation_to_v1 s.recommendation;
}

abbrev pub who_of : String → String
who_of who = if who == "" then "unknown" else who

module _ (parse_uuid : String → Option ℕ) (show_uuid : ℕ → String) where
  abbrev pub id_text : Option ℕ → String
  id_text none = ""
  id_text (some i) = show_uuid i

  -- toV1DriftEvent
  abbrev pub to_v1_drift_event : DriftEvent → V1DriftEvent
  to_v1_drift_event e = record {
    id = id_text e.id;
    module_name = e.module_name;
    tag_name = e.tag_name;
    filename = e.filename;
    event_type = drift_event_type_to_v1 e.event_type;
    previous_hash = e.previous_hash;
    current_hash = e.current_hash;
    severity = drift_severity_to_v1 e.severity;
    detected_at = some e.detected_at;
    acknowledged = e.acknowledged;
    acknowledged_at = e.acknowledged_at;
    acknowledged_by = e.acknowledged_by;
  }

  unfoldable pub serve_list_drift_events : Option (Unit {0}) → Io (List V1DriftEvent)
  serve_list_drift_events none = raise invalid_request
  serve_list_drift_events (some q) = do
    events ← on_error (λ _. events_failed) get_unacknowledged_drift_events
    pure (map to_v1_drift_event events)

  unfoldable pub serve_get_module_drift_events : Option ModuleRequest → Io (List V1DriftEvent)
  serve_get_module_drift_events none = raise invalid_request
  serve_get_module_drift_events (some q) = if q.module_name == "" then raise invalid_request else do
    events ←
        on_error (λ _. events_failed)
          (get_drift_events_for_module q.module_name (given_tag q.tag_name))
    pure (map to_v1_drift_event events)

  unfoldable pub serve_get_module_dependency_drift_status :
      Option ModuleRequest → Io (List V1DependencyDriftStatus)
  serve_get_module_dependency_drift_status none = raise invalid_request
  serve_get_module_dependency_drift_status (some q) =
      if q.module_name == "" then raise invalid_request else do
        statuses ←
            on_error status_error
              (get_module_dependency_drift_statuses q.module_name (given_tag q.tag_name))
        pure (map to_v1_dependency_drift_status statuses)

  -- The event that is returned is not read again: only these three fields are set.
  abbrev pub acknowledged_event : String → String → V1DriftEvent
  acknowledged_event id who = record {
    id = id;
    module_name = "";
    tag_name = "";
    filename = "";
    event_type = 0;
    previous_hash = "";
    current_hash = "";
    severity = 0;
    detected_at = none;
    acknowledged = true;
    acknowledged_at = none;
    acknowledged_by = who;
  }

  -- The repository's call with an id as a text
  abbrev pub acknowledge_text : String → String → Io (Unit {0})
  acknowledge_text id who = do i ← require refused (parse_uuid id); acknowledge_drift_event i who

  unfoldable pub serve_acknowledge_drift_event : Option AcknowledgeRequest → Io V1DriftEvent
  serve_acknowledge_drift_event none = raise invalid_request
  serve_acknowledge_drift_event (some q) = if q.event_id == "" then raise invalid_request else do
    on_error
        (λ _. internal_server "DRIFT_EVENT_ACKNOWLEDGE_FAILED" "failed to acknowledge drift event")
        (acknowledge_text q.event_id (who_of q.acknowledged_by))
    pure (acknowledged_event q.event_id (who_of q.acknowledged_by))
