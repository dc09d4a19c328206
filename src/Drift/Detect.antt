-- ===== src/Drift/Detect.antt =====
-- detectDrift of driftdetection.go. Go visits a map in no fixed order; here it is that of the rows.
use pbuf_registry.Prelude.{
  ℕ, String, false, not, ◌==◌, string_eq, Option, none, some, List, [], ◌∷◌, ◌++◌, if◌then◌else◌,
}
use pbuf_registry.Database.Tables.{
  DriftEventType, added, modified, deleted, DriftSeverity, info, critical,
}
use pbuf_registry.Database.Errors.{Result, ok, err}
use pbuf_registry.Database.Io.{Io, answer, pure, attempt, ◌>>=◌}
use pbuf_registry.Drift.Events.{DriftEvent}
use pbuf_registry.Drift.Maps.{Map, lookup}
use pbuf_registry.Drift.Protos.{Proto}
use pbuf_registry.Drift.Severity.{determine_severity}
use pbuf_registry.Drift.Store.{
  get_tag_info, get_previous_tag_id, get_file_hashes_for_tag, get_parsed_proto_map,
}

-- model.DriftDetectionResult: Added, Modified and Deleted
pub record DriftDetectionResult : Type 0 where
  pub tag_id : ℕ
  pub module_id : ℕ
  pub additions : List DriftEvent
  pub changes : List DriftEvent
  pub deletions : List DriftEvent

-- currentParsed and previousParsed; `none` is the nil map.
pub record Loaded : Type 0 where
  pub current : Option (Map (Option Proto))
  pub previous : Option (Map (Option Proto))

abbrev pub proto_at : String → Map (Option Proto) → Option Proto
proto_at name m = elim (lookup name m) [ some p ↦ p | none ↦ none ]

-- time.Now(), which asks the database nothing
unfoldable pub now : Io ℕ
now w = (ok (answer w).now, w)

unfoldable pub loaded_or_empty : Result (Map (Option Proto)) → Io (Map (Option Proto))
loaded_or_empty (ok m) = pure m
loaded_or_empty (err e) = pure []

module _ (unmarshal_proto : String → Option (Option Proto)) where
  -- `if parsed == nil { parsed = getParsedProtoMap, or an empty map if that fails }`
  unfoldable pub load : Option (Map (Option Proto)) → ℕ → Io (Map (Option Proto))
  load (some m) tag = pure m
  load none tag = do r ← attempt (get_parsed_proto_map unmarshal_proto tag); loaded_or_empty r

  module _ (m tag previous time : ℕ) where
    -- The other fields keep their zero values.
    abbrev pub event :
        String → DriftEventType → (previous_hash current_hash : String) → DriftSeverity → DriftEvent
    event name type prev_hash curr_hash severity = record {
      id = none;
      module_id = m;
      module_name = "";
      tag_id = tag;
      tag_name = "";
      filename = name;
      event_type = type;
      previous_hash = prev_hash;
      current_hash = curr_hash;
      severity = severity;
      detected_at = time;
      acknowledged = false;
      acknowledged_at = none;
      acknowledged_by = "";
    }

    abbrev pub Progress : Type 0
    Progress = Loaded × List DriftEvent × List DriftEvent

    -- A file of the current version, and its hash in the previous one
    unfoldable pub compare_file : String → String → Option String → Progress → Io Progress
    compare_file name hash none (l, new, changed) =
        pure (l, new ++ event name added "" hash info ∷ [], changed)
    compare_file name hash (some old) (l, new, changed) =
        if not (hash == old)
        then (do
          curr ← load l.current tag
          prev ← load l.previous previous
          pure (
            record { current = some curr; previous = some prev },
            new,
            changed
                ++ event name modified old hash
                    (determine_severity (proto_at name prev) (proto_at name curr))
                  ∷ [],
          ))
        else pure (l, new, changed)

    unfoldable pub compare_files : Map String → Map String → Progress → Io Progress
    compare_files old [] p = pure p
    compare_files old ((name, hash) ∷ files) p = do
      p' ← compare_file name hash (lookup name old) p
      compare_files old files p'

    -- The files of the previous version that the current one does not have
    abbrev pub deleted_files : Map String → Map String → List DriftEvent
    deleted_files current [] = []
    deleted_files current ((name, hash) ∷ files) =
        let rest = deleted_files current files in
        elim (lookup name current) [
          | some h ↦ rest
          | none ↦ event name deleted hash "" critical ∷ rest
        ]

  unfoldable pub detect_since : ℕ → ℕ → Option ℕ → Io DriftDetectionResult
  detect_since m tag none =
      pure (record { tag_id = tag; module_id = m; additions = []; changes = []; deletions = [] })
  detect_since m tag (some previous) = do
    current_files ← get_file_hashes_for_tag tag
    previous_files ← get_file_hashes_for_tag previous
    time ← now
    p ←
        compare_files m tag previous time previous_files current_files
          (record { current = none; previous = none }, [], [])
    pure (record {
      tag_id = tag;
      module_id = m;
      additions = p.1;
      changes = p.2;
      deletions = deleted_files m tag previous time current_files previous_files;
    })

  unfoldable pub detect_drift : ℕ → Io DriftDetectionResult
  detect_drift tag = do
    tag_info ← get_tag_info tag
    previous ← get_previous_tag_id tag_info.0 tag
    detect_since tag_info.0 tag previous
