-- ===== src/Drift/Runs.antt =====
-- Drift events, hashes and statuses in a small database.
use mathlib.Core.Option
use pbuf_registry.Prelude.{◌*◌, ◌+◌, ℕ, String, true, false, none, some, ◌≡◌, refl, List, [], ◌∷◌}
use pbuf_registry.Database.Tables.{
  TagRow, FileRow, DriftEventType, DriftSeverity, added, modified, info, warning, critical,
  empty_db,
}
use pbuf_registry.Database.Errors.{ok}
use pbuf_registry.Database.Io.{
  World, pure, raise, execute, scan, scan_unordered, query, query_row, attempt, transaction, ◌>>=◌,
}
use pbuf_registry.Database.Queries.{order_desc}
use pbuf_registry.Drift.Events.{
  DriftEvent, save_drift_events, acknowledge_drift_event, get_unacknowledged_drift_events,
}
use pbuf_registry.Drift.Hashes.{hash_files, update_hashes, compute_and_store_hashes}
use pbuf_registry.Drift.Recorded.{
  Change, saves, acknowledges, change, changes, save_drift_events_again,
}
use pbuf_registry.Drift.Statuses.{
  DependencyDriftStatus, alert_review, latest_found, given_found, resolve_version, order_asc,
  tag_statuses, dependency_statuses, version_statuses, get_module_dependency_drift_statuses,
}
use pbuf_registry.Drift.Worst.{statuses_in, version_in, get_module_dependency_drift_statuses_lem}

abbrev tag_row : ℕ → ℕ → String → TagRow
tag_row id m tag = record {
  id = id;
  module_id = m;
  tag = tag;
  updated_at = id;
  is_processed = true;
}

abbrev file_row : ℕ → ℕ → String → FileRow
file_row id tag name = record {
  id = id;
  tag_id = tag;
  filename = name;
  content = name;
  content_hash = none;
}

-- Module ship, version v1, depends on version v1 of pay, which has two later versions.
abbrev stocked : World
stocked = record {
  db = record empty_db {
    modules = record { id = 0; name = "pay" } ∷ record { id = 1; name = "ship" } ∷ [];
    tags = tag_row 2 0 "v1" ∷ tag_row 3 1 "v1" ∷ tag_row 5 0 "v3" ∷ tag_row 4 0 "v2" ∷ [];
    protofiles = file_row 6 2 "a.proto" ∷ file_row 7 4 "a.proto" ∷ file_row 8 4 "b.proto" ∷ [];
    dependencies = record { tag_id = 3; dependency_tag_id = 2 } ∷ [];
  };
  answers = λ n. record {
    fails = false;
    uuid = n;
    now = n;
    salt = "";
    uuids = λ i. 10 * n + i;
    cut = none;
    order = λ i. 0;
  };
  turn = 9;
}

abbrev event_of : ℕ → String → DriftEventType → DriftSeverity → DriftEvent
event_of tag name type severity = record {
  id = none;
  module_id = 0;
  module_name = "";
  tag_id = tag;
  tag_name = "";
  filename = name;
  event_type = type;
  previous_hash = "";
  current_hash = name;
  severity = severity;
  detected_at = tag;
  acknowledged = false;
  acknowledged_at = none;
  acknowledged_by = "";
}

abbrev events : List DriftEvent
events = event_of 4 "a.proto" modified critical ∷ event_of 4 "b.proto" added info ∷ []

abbrev later : List Change
later = acknowledges 0 "root" ∷ saves (event_of 5 "b.proto" modified warning ∷ []) ∷ []

abbrev sha : String → String
sha s = s

-- Opens what a test runs.
opened : World → World
unfolding Option.bind save_drift_events acknowledge_drift_event get_unacknowledged_drift_events
    hash_files update_hashes compute_and_store_hashes change changes latest_found given_found
    resolve_version order_asc tag_statuses dependency_statuses version_statuses
    get_module_dependency_drift_statuses pure raise execute scan scan_unordered query query_row
    attempt transaction ◌>>=◌ order_desc
opened w = w

saved : (save_drift_events events stocked).0 ≡ ok tt
unfolding opened
saved = refl

abbrev full : World
full = changes later (save_drift_events events stocked).1

save_drift_events_again_example : (save_drift_events events full).1.db ≡ full.db
save_drift_events_again_example = save_drift_events_again events stocked later saved

hashed_second :
    (compute_and_store_hashes sha 4 stocked).1.db.protofiles
    ≡ file_row 6 2 "a.proto"
      ∷ record (file_row 7 4 "a.proto") { content_hash = some "a.proto" }
      ∷ record (file_row 8 4 "b.proto") { content_hash = some "b.proto" }
      ∷ []
unfolding opened
hashed_second = refl

abbrev found : List DependencyDriftStatus
found =
    record {
      dependency_name = "pay";
      current_tag = "v1";
      target_tag = "v2";
      severity = critical;
      recommendation = alert_review;
    }
    ∷ record {
      dependency_name = "pay";
      current_tag = "v1";
      target_tag = "v3";
      severity = warning;
      recommendation = alert_review;
    }
    ∷ []

found_statuses : (get_module_dependency_drift_statuses "ship" "" full).0 ≡ ok found
unfolding opened
found_statuses = refl

get_module_dependency_drift_statuses_lem_example :
    found ≡ statuses_in full.db (version_in "ship" "" full.db)
get_module_dependency_drift_statuses_lem_example =
    get_module_dependency_drift_statuses_lem "ship" "" full found found_statuses
