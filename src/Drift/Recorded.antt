-- ===== src/Drift/Recorded.antt =====
-- Drift events are recorded once: a save that is repeated adds nothing, and acknowledgement changes
-- nothing else.
use mathlib.Core.Option
use pbuf_registry.Prelude.{
  ℕ, suc, String, true, ◌≡◌, refl, sym, ◌∙◌, subst, Option, none, some, List, [], ◌∷◌, ◌++◌, any,
  any-append, Bool-cases, Option-cases, inl, inr, ==_refl, ◌==◌, nat_eq, string_eq, arith,
}
use pbuf_registry.Database.Tables.{DriftEventType, added, modified, deleted, DriftRow, Db}
use pbuf_registry.Database.Errors.{ok}
use pbuf_registry.Database.Io.{Answer, After, World, Io}
use pbuf_registry.Database.Keeps.{Keeps, Keeps-execute, Keeps-pure}
use pbuf_registry.Database.Triples.{Triple, Triple-execute, Triple-return}
use pbuf_registry.Database.Rows.{Triple-ok}
use mathlib.Core.List.{append-nil, append_assoc}
use pbuf_registry.Drift.Events.{
  DriftEvent, coalesce, same_type, same_event, event_row, has_owners, add_event, add_events,
  insert_events, save_drift_events, acknowledge, acknowledge_drift_event,
}

-- Every event has its row.
abbrev pub Recorded : List DriftEvent → List DriftRow → Type 0
Recorded [] rows = Unit {0}
Recorded (e ∷ es) rows = (any (same_event (event_row 0 e)) rows ≡ true) × Recorded es rows

Recorded-append :
    (es : List DriftEvent) (rows new : List DriftRow) → Recorded es rows → Recorded es (rows ++ new)
Recorded-append [] rows new h = tt
Recorded-append (e ∷ es) rows new h = (
  ground (arith, any-append (same_event (event_row 0 e)) rows new),
  Recorded-append es rows new h.1,
)

same_type_refl : (t : DriftEventType) → same_type t t ≡ true
same_type_refl added = refl
same_type_refl modified = refl
same_type_refl deleted = refl

same_event_refl : (r : DriftRow) → same_event r r ≡ true
same_event_refl r =
    rw
      (
        ==_refl r.tag_id,
        ==_refl r.filename,
        same_type_refl r.event_type,
        ==_refl (coalesce r.previous_hash),
        ==_refl (coalesce r.current_hash),
      )
      refl

-- What a statement that adds events leaves.
abbrev Grown : List DriftEvent → Db → Db → Type 0
Grown es d d' =
    ((new : List DriftRow) × (d'.drift_events ≡ d.drift_events ++ new))
    × Recorded es d'.drift_events

abbrev pub with_event : ℕ → DriftEvent → Db → Db
with_event id e d = record d { drift_events = d.drift_events ++ event_row id e ∷ [] }

add_event-Grown :
    (id : ℕ) (e : DriftEvent) (d d' : Db) → add_event id e d ≡ some d' → Grown (e ∷ []) d d'
add_event-Grown id e d d' h = elim (Bool-cases (any (same_event (event_row id e)) d.drift_events)) [
  | inl old ↦
      let same : d ≡ d' = ground arith in
      subst (λ x. Grown (e ∷ []) d x) same (([], sym (append-nil _)), (old, tt))
  | inr new ↦ elim (Bool-cases (any (λ (r : DriftRow). r.id == id) d.drift_events)) [
    | inl taken ↦ absurd (ground arith)
    | inr free ↦ elim (Bool-cases (has_owners (event_row id e) d)) [
      | inl owned ↦
          let same : with_event id e d ≡ d' = ground arith in
          subst (λ x. Grown (e ∷ []) d x) same ((event_row id e ∷ [], refl), (added_at d, tt))
      | inr orphan ↦ absurd (ground arith)
    ]
  ]
]
  where
    added_at :
        (d : Db) → any (same_event (event_row 0 e)) (d.drift_events ++ event_row id e ∷ []) ≡ true
    added_at d = ground (
      arith,
      any-append (same_event (event_row 0 e)) d.drift_events (event_row id e ∷ []),
      same_event_refl (event_row id e),
    )

add_events-Grown :
    (ids : ℕ → ℕ) (i : ℕ) (es : List DriftEvent) (d d' : Db)
    → add_events ids i es d ≡ some d'
    → Grown es d d'
unfolding Option.bind
add_events-Grown ids i [] d d' h =
    let same : d ≡ d' = ground arith in
    subst (λ x. Grown [] d x) same (([], sym (append-nil _)), tt)
add_events-Grown ids i (e ∷ es) d d' h = elim (Option-cases (add_event (ids i) e d)) [
  | inl n ↦ let bad : none ≡ some d' = rw n at h in absurd (ground arith)
  | inr (d1, s) ↦
      let ((new, grown), recorded) = add_event-Grown (ids i) e d d1 s in
      let ((more, grown'), recorded') = add_events-Grown ids (suc i) es d1 d' (rw s at h) in
      (
        (new ++ more, grown' ∙ rw grown (append_assoc d.drift_events new more)),
        (
          rw grown' (
              ground
                (arith, any-append (same_event (event_row 0 e)) d1.drift_events more, recorded.0)),
          recorded',
        ),
      )
]

-- Events that have their rows are skipped.
add_events-Recorded :
    (ids : ℕ → ℕ) (i : ℕ) (es : List DriftEvent) (d : Db)
    → Recorded es d.drift_events
    → add_events ids i es d ≡ some d
unfolding Option.bind
add_events-Recorded ids i [] d h = refl
add_events-Recorded ids i (e ∷ es) d h = rw (h.0) (add_events-Recorded ids (suc i) es d h.1)

pub acknowledge-any :
    (r : DriftRow) (id : ℕ) (who : String) (time : ℕ) (rows : List DriftRow)
    → any (same_event r) (acknowledge id who time rows) ≡ any (same_event r) rows
acknowledge-any r id who time [] = refl
acknowledge-any r id who time (e ∷ es) = elim (Bool-cases (e.id == id)) [
  | inl b ↦ rw (b, acknowledge-any r id who time es) refl
  | inr b ↦ rw (b, acknowledge-any r id who time es) refl
]

acknowledge-Recorded :
    (es : List DriftEvent) (id : ℕ) (who : String) (time : ℕ) (rows : List DriftRow)
    → Recorded es rows
    → Recorded es (acknowledge id who time rows)
acknowledge-Recorded [] id who time rows h = tt
acknowledge-Recorded (e ∷ es) id who time rows h = (
  acknowledge-any (event_row 0 e) id who time rows ∙ h.0,
  acknowledge-Recorded es id who time rows h.1,
)

-- What may happen between two saves of the same events.
pub data Change : Type 0 where
  saves : List DriftEvent → Change
  acknowledges : ℕ → String → Change

unfoldable pub change : Change → Io (Unit {0})
change (saves es) = save_drift_events es
change (acknowledges id who) = acknowledge_drift_event id who

unfoldable pub changes : List Change → World → World
changes [] w = w
changes (c ∷ cs) w = changes cs (change c w).1

pub insert_events-After {κ} :
    {Q : Db → Type κ} (es : List DriftEvent) (n : Answer) (d : Db)
    → ((d' : Db) → add_events n.uuids 0 es d ≡ some d' → Q d')
    → After (λ _. Q) (insert_events es n d)
insert_events-After {Q = Q} es n d k = mapped (add_events n.uuids 0 es d) k
  where
    mapped :
        (o : Option Db)
        → ((d' : Db) → o ≡ some d' → Q d')
        → After {A = Unit {0}} (λ _. Q) (Option.map (λ d'. (tt, d')) o)
    mapped none k = tt
    mapped (some d') k = k d' refl

save-Recorded :
    (es fs : List DriftEvent) → Keeps (λ d. Recorded es d.drift_events) (save_drift_events fs)
unfolding save_drift_events
save-Recorded es [] = Keeps-pure tt
save-Recorded es (f ∷ fs) = Keeps-execute _ λ n d h. insert_events-After (f ∷ fs) n d λ d' e.
    let ((new, grown), _) = add_events-Grown n.uuids 0 (f ∷ fs) d d' e in
    rw grown (Recorded-append es d.drift_events new h)

change-Recorded :
    (es : List DriftEvent) (c : Change) → Keeps (λ d. Recorded es d.drift_events) (change c)
unfolding change acknowledge_drift_event
change-Recorded es (saves fs) = save-Recorded es fs
change-Recorded es (acknowledges id who) =
    Keeps-execute _ λ n d h. acknowledge-Recorded es id who n.now d.drift_events h

changes-Recorded :
    (es : List DriftEvent) (cs : List Change) (w : World)
    → Recorded es w.db.drift_events
    → Recorded es (changes cs w).db.drift_events
unfolding changes
changes-Recorded es [] w h = h
changes-Recorded es (c ∷ cs) w h =
    changes-Recorded es cs (change c w).1 ((change-Recorded es c).at w h)

saved-Recorded :
    (es : List DriftEvent)
    → Triple (λ _. Unit {0}) (save_drift_events es) (λ _ d. Recorded es d.drift_events)
unfolding save_drift_events
saved-Recorded [] = Triple-return tt (λ d _. tt)
saved-Recorded (e ∷ es) =
    Triple-execute _ λ n d _.
      insert_events-After (e ∷ es) n d λ d' x. (add_events-Grown n.uuids 0 (e ∷ es) d d' x).1

save-again :
    (es : List DriftEvent) (d0 : Db)
    → Recorded es d0.drift_events
    → Keeps (λ d. d ≡ d0) (save_drift_events es)
unfolding save_drift_events
save-again [] d0 h = Keeps-pure tt
save-again (e ∷ es) d0 h = Keeps-execute _ λ n d same. insert_events-After (e ∷ es) n d λ d' x.
    let kept : add_events n.uuids 0 (e ∷ es) d ≡ some d =
      add_events-Recorded n.uuids 0 (e ∷ es) d (rw same h) in
    let here : d ≡ d' = ground arith in sym here ∙ same

-- After a save that succeeded, and any saves and acknowledgements, failing or not, a save of the
-- same events changes nothing, whatever the database answers.
pub save_drift_events_again :
    (es : List DriftEvent) (w : World) (cs : List Change)
    → (save_drift_events es w).0 ≡ ok tt
    → let after = changes cs (save_drift_events es w).1 in
      (save_drift_events es after).1.db ≡ after.db
save_drift_events_again es w cs h =
    let after = changes cs (save_drift_events es w).1 in
    (save-again es after.db
        (changes-Recorded es cs _ (Triple-ok _ w tt (saved-Recorded es) tt h))).at
      after refl
