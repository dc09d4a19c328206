-- ===== src/Metadata/Daemons.antt =====
-- The daemons of internal/background: Run and runDriftDetection of protoparsing.go, and Run of
-- compaction.go. What is logged is left out.
use pbuf_registry.Prelude.{
  ℕ, ◌+◌, String, Bool, ◌||◌, ltb, List, [], ◌∷◌, ◌++◌, length, if◌then◌else◌,
}
use pbuf_registry.Database.Tables.{ProtoFile}
use pbuf_registry.Database.Errors.{Result, ok, err}
use pbuf_registry.Database.Io.{Io, pure, raise, attempt, ◌>>=◌, ◌>>◌}
use pbuf_registry.Registry.Drafts.{delete_obsolete_draft_tags}
use pbuf_registry.Drift.Hashes.{get_tags_without_hashes, compute_and_store_hashes}
use pbuf_registry.Drift.Events.{save_drift_events}
use pbuf_registry.Drift.Detect.{DriftDetectionResult, detect_drift}
use pbuf_registry.Metadata.Retrieve.{ParsedProtoFile}
use pbuf_registry.Metadata.Parsers.{Parser, parse_proto_files_contents}
use pbuf_registry.Metadata.Store.{
  get_unprocessed_tag_ids, get_proto_files_for_tag_id, save_parsed_proto_files,
}

unfoldable pub has_drift : DriftDetectionResult → Bool
has_drift r = ltb 0 (length r.additions) || ltb 0 (length r.changes) || ltb 0 (length r.deletions)

unfoldable pub total_changes : DriftDetectionResult → ℕ
total_changes r = length r.additions + length r.changes + length r.deletions

-- A call whose error is only logged: `if err != nil { log; continue }`
abbrev pub ignore : Io (Unit {0}) → Io (Unit {0})
ignore m = do attempt m; pure tt

module _ {Ast : Type 0} (parser : Parser Ast) where
  -- The tag is added to those that were processed.
  unfoldable pub save_files : ℕ → Result (List ParsedProtoFile) → List ℕ → Io (List ℕ)
  save_files tag (err e) done = raise e
  save_files tag (ok files) done = do save_parsed_proto_files tag files; pure (done ++ tag ∷ [])

  -- A tag whose files cannot be read is passed over.
  unfoldable pub process_tag : ℕ → Result (List ProtoFile) → List ℕ → Io (List ℕ)
  process_tag tag (err e) done = pure done
  process_tag tag (ok files) done = save_files tag (parse_proto_files_contents parser files) done

  -- The loop over the unprocessed tags; the value is processedTagIds.
  unfoldable pub process_tags : List ℕ → List ℕ → Io (List ℕ)
  process_tags [] done = pure done
  process_tags (t ∷ ts) done = do
    files ← attempt (get_proto_files_for_tag_id t)
    done' ← process_tag t files done
    process_tags ts done'

module _ (sha256_hex : String → String) {Ast : Type 0} (parser : Parser Ast) where
  unfoldable pub hash_tags : List ℕ → Io (Unit {0})
  hash_tags [] = pure tt
  hash_tags (t ∷ ts) = do ignore (compute_and_store_hashes sha256_hex t); hash_tags ts

  unfoldable pub detected : Result DriftDetectionResult → Io (Unit {0})
  detected (err e) = pure tt
  detected (ok r) =
      if has_drift r
      then ignore (save_drift_events ((r.additions ++ r.changes) ++ r.deletions))
      else pure tt

  unfoldable pub detect_tags : List ℕ → Io (Unit {0})
  detect_tags [] = pure tt
  detect_tags (t ∷ ts) = do
    r ← attempt (detect_drift parser.unmarshal t)
    detected r
    detect_tags ts

  unfoldable pub hashes_listed : List ℕ → Result (List ℕ) → Io (Unit {0})
  hashes_listed tags (err e) = pure tt
  hashes_listed tags (ok unhashed) = do hash_tags unhashed; detect_tags tags

  unfoldable pub run_drift_detection : List ℕ → Io (Unit {0})
  run_drift_detection tags = do r ← attempt get_tags_without_hashes; hashes_listed tags r

  -- protoParsingDaemon.Run
  unfoldable pub run_parsing : Io (Unit {0})
  run_parsing = do
    tags ← get_unprocessed_tag_ids
    done ← process_tags parser tags []
    if ltb 0 (length done) then run_drift_detection done else pure tt

-- compactionDaemon.Run
unfoldable pub run_compaction : Io (Unit {0})
run_compaction = delete_obsolete_draft_tags
