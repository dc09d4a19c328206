-- ===== src/Metadata/Runs.antt =====
-- A run of the parsing daemon ends, and leaves no tag unprocessed.
use pbuf_registry.Prelude.{
  ℕ, String, true, ◌≡◌, refl, sym, ap, subst, all_mono, arith, List, [], ◌∷◌, all, length, ltb,
  if◌then◌else◌, Bool-cases, inl, inr,
}
use pbuf_registry.Database.Tables.{TagRow, Db}
use pbuf_registry.Database.Errors.{Result, ok, err}
use pbuf_registry.Database.Io.{World, pure}
use pbuf_registry.Database.Keeps.{Keeps-pure}
use pbuf_registry.Database.Triples.{Leads-from}
use pbuf_registry.Database.Quiet.{
  Quiet, Ends, Ends-of, Ends-bind, Serves-scan, Returns, Returns-pure, Returns-bind,
  Returns-attempt, returns_rules,
}
use pbuf_registry.Drift.Detect.{DriftDetectionResult}
use pbuf_registry.Metadata.Parsers.{Parser}
use pbuf_registry.Metadata.Store.{get_unprocessed_tag_ids}
use pbuf_registry.Metadata.Daemons.{
  hash_tags, detected, detect_tags, hashes_listed, has_drift, run_drift_detection, run_parsing,
}
use pbuf_registry.Metadata.Processed.{
  LeftIn, Left, AllReadable, done_or_in, ids_left, ids_left-all, process_tags-Serves,
}
use pbuf_registry.Metadata.Kept.{run_drift_detection-tags}

module _ (sha256_hex : String → String) {Ast : Type 0} (parser : Parser Ast) where
  hash_tags-Returns : (ts : List ℕ) → Returns (hash_tags sha256_hex parser ts)
  unfolding hash_tags
  hash_tags-Returns [] = Returns-pure tt
  hash_tags-Returns (t ∷ ts) = Returns-bind _ _ (search returns_rules) λ _. hash_tags-Returns ts

  detected-Returns : (r : Result DriftDetectionResult) → Returns (detected sha256_hex parser r)
  unfolding detected
  detected-Returns (ok r) = elim (Bool-cases (has_drift r)) [
    | inl b ↦ rw b (search returns_rules)
    | inr b ↦ rw b (Returns-pure tt)
  ]
  detected-Returns (err e) = Returns-pure tt

  detect_tags-Returns : (ts : List ℕ) → Returns (detect_tags sha256_hex parser ts)
  unfolding detect_tags
  detect_tags-Returns [] = Returns-pure tt
  detect_tags-Returns (t ∷ ts) =
      Returns-bind _ _ (Returns-attempt _)
        λ r. Returns-bind _ _ (detected-Returns r) λ _. detect_tags-Returns ts

  hashes_listed-Returns :
      (ts : List ℕ) (r : Result (List ℕ)) → Returns (hashes_listed sha256_hex parser ts r)
  unfolding hashes_listed
  hashes_listed-Returns ts (ok us) =
      Returns-bind _ _ (hash_tags-Returns us) λ _. detect_tags-Returns ts
  hashes_listed-Returns ts (err e) = Returns-pure tt

  run_drift_detection-Returns : (ts : List ℕ) → Returns (run_drift_detection sha256_hex parser ts)
  unfolding run_drift_detection
  run_drift_detection-Returns ts =
      Returns-bind _ _ (Returns-attempt _) λ r. hashes_listed-Returns ts r

  detection-Ends :
      (d0 : Db) (done : List ℕ)
      → Ends
          (Left parser d0 [])
          (if ltb 0 (length done) then run_drift_detection sha256_hex parser done else pure tt)
          (LeftIn [])
  detection-Ends d0 done = elim (Bool-cases (ltb 0 (length done))) [
    | inl b ↦ rw b (
        Ends-of _ (run_drift_detection-Returns done) (
          Leads-from _ (λ d h. h.0)
            (run_drift_detection-tags (λ tags. all (done_or_in []) tags ≡ true) sha256_hex parser
              done)))
    | inr b ↦ rw b (Ends-of _ (Returns-pure tt) (Leads-from _ (λ d h. h.0) (Keeps-pure tt)))
  ]

  run_parsing-Ends :
      (d0 : Db)
      → AllReadable parser d0 (ids_left d0.tags)
      → Ends (λ d. d ≡ d0) (run_parsing sha256_hex parser) (LeftIn [])
  unfolding run_parsing get_unprocessed_tag_ids
  run_parsing-Ends d0 k =
      Ends-bind _ _
        (Serves-scan {Q = λ ts d. (ts ≡ ids_left d0.tags) × (d ≡ d0)} _
          λ d h. (ap (λ (x : Db). ids_left x.tags) h, h))
        λ ts. record {
          at = λ w q h.
              let k' : AllReadable parser d0 ts =
                subst (λ x. AllReadable parser d0 x) (sym (h.0)) k in
              (Ends-bind _ _ (process_tags-Serves parser d0 ts [] k') (detection-Ends d0)).at w q
                (subst2 ts w.db h);
        }
    where
      subst2 : (ts : List ℕ) (d : Db) → (ts ≡ ids_left d0.tags) × (d ≡ d0) → Left parser d0 ts d
      subst2 ts d (e, same) =
          (rw (e, same) (ids_left-all d0.tags), ap (λ (x : Db). x.protofiles) same)

  -- If the database answers every statement in full, and the files of every unprocessed tag parse
  -- and have no nil body, then a run of the parsing daemon returns without an error, whatever happens
  -- in its drift detection, and afterwards every tag is processed.
  pub run_parsing-processes :
      (w : World)
      → Quiet w
      → AllReadable parser w.db (ids_left w.db.tags)
      → let (r, w') = run_parsing sha256_hex parser w in
        (r ≡ ok tt) × (all (λ (t : TagRow). t.is_processed) w'.db.tags ≡ true)
  run_parsing-processes w q k =
      let ((a, e), h) = (run_parsing-Ends w.db k).at w q refl in
      (
        e,
        all_mono (done_or_in []) (λ (t : TagRow). t.is_processed)
            (run_parsing sha256_hex parser w).1.db.tags (λ t p. ground arith) h,
      )
