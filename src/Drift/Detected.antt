-- ===== src/Drift/Detected.antt =====
-- What detectDrift reports, against the two lists of files.
use pbuf_registry.Prelude.{
  ℕ, String, Bool, true, false, not, Option, none, some, ◌≡◌, ◌∙◌, refl, sym, [], ◌∷◌, ◌++◌, map,
  select, select-append, ◌==◌, string_eq, Bool-cases, inl, inr,
}
use pbuf_registry.Database.Tables.{Db, added, info}
use pbuf_registry.Database.Errors.{Result, ok, err}
use pbuf_registry.Database.Keeps.{Keeps, keeps_rules}
use pbuf_registry.Database.Total.{Surely, Surely-pure, Surely-attempt, Surely-bind, Surely-weaken}
use mathlib.Core.List.{map-append, append-nil, append_assoc}
use pbuf_registry.Drift.Maps.{Map, lookup}
use pbuf_registry.Drift.Protos.{Proto}
use pbuf_registry.Drift.Store.{get_parsed_proto_map, decoded_rows}
use pbuf_registry.Drift.Events.{DriftEvent}
use pbuf_registry.Drift.Detect.{load, loaded_or_empty, event, Progress, compare_file, compare_files}

abbrev pub absent : Option String → Bool
absent (some h) = false
absent none = true

abbrev pub differs : String → Option String → Bool
differs hash (some h) = not (hash == h)
differs hash none = false

abbrev pub is_new : Map String → String × String → Bool
is_new old q = absent (lookup q.0 old)

abbrev pub is_changed : Map String → String × String → Bool
is_changed old q = differs q.1 (lookup q.0 old)

-- The name and the current hash of an event
abbrev pub file_of : DriftEvent → String × String
file_of e = (e.filename, e.current_hash)

module _ (unmarshal_proto : String → Option (Option Proto)) where
  decoded_rows-Keeps :
      {P : Db → Type 0} (o : Option (Map (Option Proto))) → Keeps P (decoded_rows unmarshal_proto o)
  decoded_rows-Keeps none = search keeps_rules
  decoded_rows-Keeps (some m) = search keeps_rules

  get_parsed_proto_map-Keeps :
      {P : Db → Type 0} (tag : ℕ) → Keeps P (get_parsed_proto_map unmarshal_proto tag)
  unfolding get_parsed_proto_map
  get_parsed_proto_map-Keeps tag = search (keeps_rules, decoded_rows-Keeps)

  loaded_or_empty-Surely :
      (r : Result (Map (Option Proto))) → Surely (λ _. Unit {0}) (loaded_or_empty r)
  unfolding loaded_or_empty
  loaded_or_empty-Surely (ok m) = Surely-pure m tt
  loaded_or_empty-Surely (err e) = Surely-pure [] tt

  load-Surely :
      (o : Option (Map (Option Proto))) (tag : ℕ)
      → Surely (λ _. Unit {0}) (load unmarshal_proto o tag)
  unfolding load
  load-Surely (some m) tag = Surely-pure m tt
  load-Surely none tag =
      Surely-bind _ _
        (Surely-attempt _ λ w. (get_parsed_proto_map-Keeps {P = λ d. d ≡ w.db} tag).at w refl)
        (λ r _. loaded_or_empty-Surely r)

  module _ (m tag previous time : ℕ) where
    abbrev new_event : String × String → DriftEvent
    new_event (name, hash) = event unmarshal_proto m tag previous time name added "" hash info

    -- `p'` is `p` with the events of `files` after it.
    abbrev pub Compared :
        Map String
        → Map String
        → Progress unmarshal_proto m tag previous time
        → Progress unmarshal_proto m tag previous time
        → Type 0
    Compared old files p p' =
        (p'.1 ≡ p.1 ++ map new_event (select (is_new old) files))
        × (map file_of p'.2 ≡ map file_of p.2 ++ select (is_changed old) files)

    compare_file-Surely :
        (old : Map String) (name hash : String) (p : Progress unmarshal_proto m tag previous time)
        (o : Option String)
        → lookup name old ≡ o
        → Surely
            (Compared old ((name, hash) ∷ []) p)
            (compare_file unmarshal_proto m tag previous time name hash o p)
    unfolding compare_file
    compare_file-Surely old name hash (l, new, changed) none e =
        Surely-pure _ (rw e refl, rw e (sym (append-nil _)))
    compare_file-Surely old name hash (l, new, changed) (some h) e = elim (Bool-cases (hash == h)) [
      | inl same ↦
          rw same (Surely-pure _ (rw e (sym (append-nil _)), rw e (rw same (sym (append-nil _)))))
      | inr other ↦ rw other (
          Surely-bind _ _ (load-Surely l.current tag) λ curr _.
            Surely-bind _ _ (load-Surely l.previous previous) λ prev _.
              Surely-pure _
                (rw e (sym (append-nil _)), rw e (rw other (map-append file_of changed _))))
    ]

    Compared-append :
        (old fs gs : Map String) (p q r : Progress unmarshal_proto m tag previous time)
        → Compared old fs p q
        → Compared old gs q r
        → Compared old (fs ++ gs) p r
    Compared-append old fs gs p q r h k = (
      k.0
          ∙ rw
              (
                h.0,
                select-append (is_new old) fs gs,
                map-append new_event (select (is_new old) fs) (select (is_new old) gs),
              )
              (append_assoc p.1 _ _),
      k.1 ∙ rw (h.1, select-append (is_changed old) fs gs) (append_assoc (map file_of p.2) _ _),
    )

    -- The loop over the current files never fails, whatever the database answers: it adds an event
    -- for each file that the previous version does not have and one for each file whose hash is
    -- not the previous one, and none for any other file.
    pub compare_files-Surely :
        (old files : Map String) (p : Progress unmarshal_proto m tag previous time)
        → Surely
            (Compared old files p)
            (compare_files unmarshal_proto m tag previous time old files p)
    unfolding compare_files
    compare_files-Surely old [] p = Surely-pure p (sym (append-nil _), sym (append-nil _))
    compare_files-Surely old ((name, hash) ∷ files) p =
        Surely-bind _ _ (compare_file-Surely old name hash p (lookup name old) refl) λ q h.
          Surely-weaken _ (λ r k. Compared-append old ((name, hash) ∷ []) files p q r h k)
            (compare_files-Surely old files q)
