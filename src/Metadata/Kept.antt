-- ===== src/Metadata/Kept.antt =====
-- Drift detection changes no tag, and the daemon never fails in it.
use mathlib.Core.Option
use pbuf_registry.Prelude.{
  ℕ, suc, String, ◌≡◌, sym, subst, Option, none, some, List, [], ◌∷◌, any, Bool-cases, inl, inr,
  ◌==◌, nat_eq, arith,
}
use pbuf_registry.Database.Tables.{TagRow, DriftRow, Db}
use pbuf_registry.Database.Errors.{Result, ok, err}
use pbuf_registry.Database.Io.{Io}
use pbuf_registry.Database.Keeps.{Keeps, Keeps-execute, Keeps-bind, Keeps-pure, keeps_rules}
use pbuf_registry.Drift.Events.{
  DriftEvent, event_row, same_event, has_owners, add_events, save_drift_events,
}
use pbuf_registry.Drift.Hashes.{
  get_tags_without_hashes, update_hashes, hash_files, compute_and_store_hashes,
}
use pbuf_registry.Drift.Store.{
  get_tag_info, get_previous_tag_id, previous_found, get_file_hashes_for_tag,
}
use pbuf_registry.Drift.Detect.{
  DriftDetectionResult, now, compare_files, detect_since, detect_drift, Progress,
}
use pbuf_registry.Drift.Detected.{compare_files-Surely}
use pbuf_registry.Drift.Protos.{Proto}
use pbuf_registry.Drift.Maps.{Map}
use pbuf_registry.Drift.Recorded.{insert_events-After}
use pbuf_registry.Metadata.Parsers.{Parser}
use pbuf_registry.Metadata.Daemons.{
  hash_tags, detected, detect_tags, hashes_listed, run_drift_detection,
}

module _ {κ} (T : List TagRow → Type κ) where
  abbrev TagsKept : {A : Type 0} → Io A → Type κ
  TagsKept m = Keeps (λ d. T d.tags) m

  add_events-tags :
      (ids : ℕ → ℕ) (i : ℕ) (es : List DriftEvent) (d d' : Db)
      → T d.tags
      → add_events ids i es d ≡ some d'
      → T d'.tags
  unfolding Option.bind
  add_events-tags ids i [] d d' h x =
      let same : d ≡ d' = ground arith in subst (λ (y : Db). T y.tags) same h
  add_events-tags ids i (e ∷ es) d d' h x =
      elim (Bool-cases (any (same_event (event_row (ids i) e)) d.drift_events)) [
        | inl old ↦ add_events-tags ids (suc i) es d d' h (rw old at x)
        | inr new ↦ elim (Bool-cases (any (λ (r : DriftRow). r.id == ids i) d.drift_events)) [
          | inl taken ↦
              let bad : none ≡ some d' = rw taken at (rw new at x) in absurd (ground arith)
          | inr free ↦ elim (Bool-cases (has_owners (event_row (ids i) e) d)) [
            | inl owned ↦
                add_events-tags ids (suc i) es _ d' h (rw owned at (rw free at (rw new at x)))
            | inr orphan ↦
                let bad : none ≡ some d' = rw orphan at (rw free at (rw new at x)) in
                absurd (ground arith)
          ]
        ]
      ]

  save_drift_events-tags : (es : List DriftEvent) → TagsKept (save_drift_events es)
  unfolding save_drift_events
  save_drift_events-tags [] = Keeps-pure tt
  save_drift_events-tags (e ∷ es) =
      Keeps-execute _ λ n d h.
        insert_events-After (e ∷ es) n d λ d' x. add_events-tags n.uuids 0 (e ∷ es) d d' h x

  module _ (sha256_hex : String → String) where
    update_hashes-tags :
        (fs : List pbuf_registry.Database.Tables.FileRow) → TagsKept (update_hashes sha256_hex fs)
    unfolding update_hashes
    update_hashes-tags [] = Keeps-pure tt
    update_hashes-tags (f ∷ fs) =
        Keeps-bind _ _ (Keeps-execute _ λ n d h. h) λ _. update_hashes-tags fs

    compute_and_store_hashes-tags : (tag : ℕ) → TagsKept (compute_and_store_hashes sha256_hex tag)
    unfolding compute_and_store_hashes hash_files
    compute_and_store_hashes-tags tag = search (keeps_rules, update_hashes-tags)

  module _ (unmarshal_proto : String → Option (Option Proto)) where
    now-tags : TagsKept now
    unfolding now
    now-tags = record { at = λ w h. h }

    compare_files-tags :
        (m tag previous time : ℕ) (old files : Map String)
        (p : Progress unmarshal_proto m tag previous time)
        → TagsKept (compare_files unmarshal_proto m tag previous time old files p)
    compare_files-tags m tag previous time old files p = record {
      at = λ w h.
          let (q, _, kept, _) =
            (compare_files-Surely unmarshal_proto m tag previous time old files p).at w in
          subst (λ (y : Db). T y.tags) (sym kept) h;
    }

    previous_found-tags : (r : Result ℕ) → TagsKept (previous_found r)
    unfolding previous_found
    previous_found-tags (ok t) = search keeps_rules
    previous_found-tags (err e) = search keeps_rules

    detect_since-tags : (m tag : ℕ) (o : Option ℕ) → TagsKept (detect_since unmarshal_proto m tag o)
    unfolding detect_since get_file_hashes_for_tag
    detect_since-tags m tag none = search keeps_rules
    detect_since-tags m tag (some previous) = search (keeps_rules, now-tags, compare_files-tags)

    detect_drift-tags : (tag : ℕ) → TagsKept (detect_drift unmarshal_proto tag)
    unfolding detect_drift get_tag_info get_previous_tag_id
    detect_drift-tags tag = Keeps-bind _ _ (search keeps_rules) λ i.
        Keeps-bind _ _ (search (keeps_rules, previous_found-tags))
          λ previous. detect_since-tags i.0 tag previous

  module _ (sha256_hex : String → String) {Ast : Type 0} (parser : Parser Ast) where
    hash_tags-tags : (ts : List ℕ) → TagsKept (hash_tags sha256_hex parser ts)
    unfolding hash_tags
    hash_tags-tags [] = Keeps-pure tt
    hash_tags-tags (t ∷ ts) =
        Keeps-bind _ _ (search (keeps_rules, compute_and_store_hashes-tags)) λ _. hash_tags-tags ts

    detected-tags : (r : Result DriftDetectionResult) → TagsKept (detected sha256_hex parser r)
    unfolding detected
    detected-tags (ok r) = search (keeps_rules, save_drift_events-tags)
    detected-tags (err e) = Keeps-pure tt

    detect_tags-tags : (ts : List ℕ) → TagsKept (detect_tags sha256_hex parser ts)
    unfolding detect_tags
    detect_tags-tags [] = Keeps-pure tt
    detect_tags-tags (t ∷ ts) =
        Keeps-bind _ _ (search (keeps_rules, detect_drift-tags))
          λ r. Keeps-bind _ _ (detected-tags r) λ _. detect_tags-tags ts

    hashes_listed-tags :
        (ts : List ℕ) (r : Result (List ℕ)) → TagsKept (hashes_listed sha256_hex parser ts r)
    unfolding hashes_listed
    hashes_listed-tags ts (ok us) = search (keeps_rules, hash_tags-tags, detect_tags-tags)
    hashes_listed-tags ts (err e) = Keeps-pure tt

    pub run_drift_detection-tags :
        (ts : List ℕ) → TagsKept (run_drift_detection sha256_hex parser ts)
    unfolding run_drift_detection get_tags_without_hashes
    run_drift_detection-tags ts = search (keeps_rules, hashes_listed-tags)
