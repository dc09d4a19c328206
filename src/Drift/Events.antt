-- ===== src/Drift/Events.antt =====
-- The drift events of internal/data/drift.go: SaveDriftEvents, GetUnacknowledgedDriftEvents,
-- AcknowledgeDriftEvent and GetDriftEventsForModule.
use mathlib.Core.Option
use pbuf_registry.Prelude.{
  ℕ, suc, String, Bool, true, false, not, ◌&&◌, ◌||◌, ◌==◌, nat_eq, string_eq, Option, none, some,
  List, [], ◌∷◌, ◌++◌, map, any, first, select, if◌then◌else◌,
}
use pbuf_registry.Database.Tables.{
  ModuleRow, TagRow, DriftEventType, added, modified, deleted, DriftSeverity, DriftRow, Db,
}
use pbuf_registry.Database.Io.{Answer, Io, pure, execute, query}
use pbuf_registry.Database.Queries.{order_desc}

-- model.DriftEvent. An id that is not set is "" in the code and `none` here; a hash that is not set
-- is "".
pub record DriftEvent : Type 0 where
  pub id : Option ℕ
  pub module_id : ℕ
  pub module_name : String
  pub tag_id : ℕ
  pub tag_name : String
  pub filename : String
  pub event_type : DriftEventType
  pub previous_hash : String
  pub current_hash : String
  pub severity : DriftSeverity
  pub detected_at : ℕ
  pub acknowledged : Bool
  pub acknowledged_at : Option ℕ
  pub acknowledged_by : String

-- `if event.PreviousHash != "" { prevHash = event.PreviousHash }`
abbrev pub stored_hash : String → Option String
stored_hash h = if h == "" then none else some h

-- COALESCE(x, ''), and what a *string is scanned into
abbrev pub coalesce : Option String → String
coalesce none = ""
coalesce (some s) = s

abbrev pub same_type : DriftEventType → DriftEventType → Bool
same_type added added = true
same_type modified modified = true
same_type deleted deleted = true
same_type _ _ = false

-- idx_drift_events_unique
abbrev pub same_event : DriftRow → DriftRow → Bool
same_event a b =
    a.tag_id == b.tag_id
    && a.filename == b.filename
    && same_type a.event_type b.event_type
    && coalesce a.previous_hash == coalesce b.previous_hash
    && coalesce a.current_hash == coalesce b.current_hash

-- The row of VALUES for an event, with the defaults of the columns that are not given
abbrev pub event_row : ℕ → DriftEvent → DriftRow
event_row id e = record {
  id = id;
  module_id = e.module_id;
  tag_id = e.tag_id;
  filename = e.filename;
  event_type = e.event_type;
  previous_hash = stored_hash e.previous_hash;
  current_hash = stored_hash e.current_hash;
  severity = e.severity;
  detected_at = e.detected_at;
  acknowledged = false;
  acknowledged_at = none;
  acknowledged_by = none;
}

-- The foreign keys of a row
abbrev pub has_owners : DriftRow → Db → Bool
has_owners r d =
    any (λ (m : ModuleRow). m.id == r.module_id) d.modules
    && any (λ (t : TagRow). t.id == r.tag_id) d.tags

abbrev pub add_event : ℕ → DriftEvent → Db → Option Db
add_event id e d =
    if any (same_event (event_row id e)) d.drift_events
    then some d
    else if any (λ (r : DriftRow). r.id == id) d.drift_events
    then none
    else if has_owners (event_row id e) d
    then some (record d { drift_events = d.drift_events ++ event_row id e ∷ [] })
    else none

-- INSERT ... VALUES ... ON CONFLICT DO NOTHING: a row that is there, or that an earlier row of the
-- same statement has put there, is skipped.
abbrev pub add_events : (ℕ → ℕ) → ℕ → List DriftEvent → Db → Option Db
add_events ids i [] d = some d
add_events ids i (e ∷ es) d =
    Option.bind (add_event (ids i) e d) (λ d'. add_events ids (suc i) es d')

abbrev pub insert_events : List DriftEvent → Answer → Db → Option (Unit {0} × Db)
insert_events es n d = Option.map (λ d'. (tt, d')) (add_events n.uuids 0 es d)

unfoldable pub save_drift_events : List DriftEvent → Io (Unit {0})
save_drift_events [] = pure tt
save_drift_events (e ∷ es) = execute (insert_events (e ∷ es))

-- JOIN modules m ON de.module_id = m.id JOIN tags t ON de.tag_id = t.id
pub record Joined : Type 0 where
  pub event : DriftRow
  pub owner : ModuleRow
  pub version : TagRow

abbrev pub join_event : Db → DriftRow → Option Joined
join_event d e = Option.bind (first (λ (m : ModuleRow). m.id == e.module_id) d.modules) λ m.
    Option.bind (first (λ (t : TagRow). t.id == e.tag_id) d.tags)
      λ t. some (record { event = e; owner = m; version = t })

abbrev pub join_events : Db → List DriftRow → List Joined
join_events d [] = []
join_events d (e ∷ es) =
    let rest = join_events d es in elim (join_event d e) [ some j ↦ j ∷ rest | none ↦ rest ]

-- The columns that GetUnacknowledgedDriftEvents scans: the acknowledgement is not read.
abbrev pub scan_event : Joined → DriftEvent
scan_event j = record {
  id = some j.event.id;
  module_id = j.event.module_id;
  module_name = j.owner.name;
  tag_id = j.event.tag_id;
  tag_name = j.version.tag;
  filename = j.event.filename;
  event_type = j.event.event_type;
  previous_hash = coalesce j.event.previous_hash;
  current_hash = coalesce j.event.current_hash;
  severity = j.event.severity;
  detected_at = j.event.detected_at;
  acknowledged = false;
  acknowledged_at = none;
  acknowledged_by = "";
}

abbrev pub unacknowledged : Db → List Joined
unacknowledged d = select (λ (j : Joined). not j.event.acknowledged) (join_events d d.drift_events)

unfoldable pub get_unacknowledged_drift_events : Io (List DriftEvent)
get_unacknowledged_drift_events =
    query λ d. map scan_event (order_desc (λ (j : Joined). j.event.detected_at) (unacknowledged d))

-- UPDATE drift_events SET acknowledged = true, ... WHERE id = $2
abbrev pub acknowledge : ℕ → String → ℕ → List DriftRow → List DriftRow
acknowledge id who time [] = []
acknowledge id who time (e ∷ es) =
    (if e.id == id
      then record e { acknowledged = true; acknowledged_at = some time; acknowledged_by = some who }
      else e)
    ∷ acknowledge id who time es

-- That no event has the id is not an error.
unfoldable pub acknowledge_drift_event : ℕ → String → Io (Unit {0})
acknowledge_drift_event id who =
    execute λ n d. some (tt, record d { drift_events = acknowledge id who n.now d.drift_events })

abbrev pub scan_acknowledged : Joined → DriftEvent
scan_acknowledged j = record (scan_event j) {
  acknowledged = j.event.acknowledged;
  acknowledged_at = j.event.acknowledged_at;
  acknowledged_by = coalesce j.event.acknowledged_by;
}

-- WHERE m.name = $1, with AND t.tag = $2 if a tag is given
abbrev pub is_event_of : String → String → Joined → Bool
is_event_of name tag j = j.owner.name == name && (tag == "" || j.version.tag == tag)

unfoldable pub get_drift_events_for_module : (name tag : String) → Io (List DriftEvent)
get_drift_events_for_module name tag = query λ d. map scan_acknowledged (
    order_desc (λ (j : Joined). j.event.detected_at)
      (select (is_event_of name tag) (join_events d d.drift_events)))
