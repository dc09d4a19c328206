-- ===== src/Drift/Worst.antt =====
-- The statuses of the dependencies, against a description of them as a function of the tables.
use pbuf_registry.Prelude.{
  ℕ, String, ◌≡◌, refl, sym, ◌∙◌, ap, Option, none, some, List, [], ◌∷◌, ◌++◌, Bool-cases, inl, inr,
  ◌==◌, string_eq, nat_eq, ltb, if◌then◌else◌, arith,
}
use pbuf_registry.Database.Tables.{TagRow, DriftRow, DriftSeverity, info, warning, critical, Db}
use pbuf_registry.Database.Errors.{Result, ok, err, is_no_rows}
use pbuf_registry.Database.Io.{World}
use pbuf_registry.Database.Triples.{
  Triple, Triple-bind, Triple-query, Triple-query_row, Triple-return, Triple-raise, Triple-weaken,
}
use pbuf_registry.Database.Rows.{Found, Triple-ok, Triple-attempt-Found}
use pbuf_registry.Drift.Statuses.{
  DependencyDriftStatus, DependencyRef, status_at, severity_rank, max_rank, events_at, newer_tags,
  dependency_refs, ranked, tag_statuses, dependency_statuses, latest_version, given_version,
  latest_found, given_found, resolve_version, version_statuses,
  get_module_dependency_drift_statuses,
}

abbrev pub worse : DriftSeverity → DriftSeverity → DriftSeverity
worse critical s = critical
worse warning critical = critical
worse warning warning = warning
worse warning info = warning
worse info s = s

abbrev pub worse_if : DriftSeverity → Option DriftSeverity → DriftSeverity
worse_if s none = s
worse_if s (some r) = worse s r

-- The worst severity of the events, if there are any.
abbrev pub worst : List DriftRow → Option DriftSeverity
worst [] = none
worst (e ∷ es) = some (worse_if e.severity (worst es))

abbrev pub status_if : DependencyRef → TagRow → Option DriftSeverity → List DependencyDriftStatus
status_if dep t none = []
status_if dep t (some s) = status_at dep t s ∷ []

-- For every later tag of the dependency that has drift events, in the order of time, one status with
-- the worst severity of them.
abbrev pub tags_in : Db → DependencyRef → List TagRow → List DependencyDriftStatus
tags_in d dep [] = []
tags_in d dep (t ∷ ts) =
    status_if dep t (worst (events_at dep.module_id t.id d)) ++ tags_in d dep ts

abbrev pub refs_in : Db → List DependencyRef → List DependencyDriftStatus
refs_in d [] = []
refs_in d (dep ∷ deps) = tags_in d dep (newer_tags dep d) ++ refs_in d deps

-- The version that is asked for: the latest one for an empty tag.
abbrev pub version_in : String → String → Db → Option ℕ
version_in name tag d = if tag == "" then latest_version name d else given_version name tag d

abbrev pub statuses_in : Db → Option ℕ → List DependencyDriftStatus
statuses_in d none = []
statuses_in d (some t) = refs_in d (dependency_refs t d)

abbrev rank_of : Option DriftSeverity → ℕ
rank_of none = 0
rank_of (some s) = severity_rank s

worse_if-rank :
    (s : DriftSeverity) (o : Option DriftSeverity)
    → (if ltb (rank_of o) (severity_rank s) then severity_rank s else rank_of o)
      ≡ severity_rank (worse_if s o)
worse_if-rank critical none = refl
worse_if-rank warning none = refl
worse_if-rank info none = refl
worse_if-rank critical (some critical) = refl
worse_if-rank critical (some warning) = refl
worse_if-rank critical (some info) = refl
worse_if-rank warning (some critical) = refl
worse_if-rank warning (some warning) = refl
worse_if-rank warning (some info) = refl
worse_if-rank info (some critical) = refl
worse_if-rank info (some warning) = refl
worse_if-rank info (some info) = refl

max_rank-worst : (es : List DriftRow) → max_rank es ≡ rank_of (worst es)
max_rank-worst [] = refl
max_rank-worst (e ∷ es) = rw (max_rank-worst es) (worse_if-rank e.severity (worst es))

ranked-worst :
    (dep : DependencyRef) (t : TagRow) (o : Option DriftSeverity)
    → ranked dep t (rank_of o) ≡ status_if dep t o
ranked-worst dep t none = refl
ranked-worst dep t (some critical) = refl
ranked-worst dep t (some warning) = refl
ranked-worst dep t (some info) = refl

module _ {κ} (d0 : Db) where
  tag_statuses-Triple :
      (dep : DependencyRef) (ts : List TagRow) {P : Db → Type κ}
      → ((d : Db) → P d → d ≡ d0)
      → Triple P (tag_statuses dep ts) (λ ss d. P d × (ss ≡ tags_in d0 dep ts))
  unfolding tag_statuses
  tag_statuses-Triple dep [] k = Triple-return [] (λ d h. (h, refl))
  tag_statuses-Triple dep (t ∷ ts) k = Triple-bind _ _ (Triple-query_row _) λ rank.
      Triple-bind _ _ (tag_statuses-Triple dep ts (λ d h. k d h.0))
        λ rest. Triple-return _ λ d h. (h.0.0, at_rank d rank rest (k d h.0.0) h.0.1 h.1)
    where
      at_rank :
          (d : Db) (rank : ℕ) (rest : List DependencyDriftStatus)
          → d ≡ d0
          → some (max_rank (events_at dep.module_id t.id d)) ≡ some rank
          → rest ≡ tags_in d0 dep ts
          → ranked dep t rank ++ rest ≡ tags_in d0 dep (t ∷ ts)
      at_rank d rank rest same found e =
          let here : max_rank (events_at dep.module_id t.id d0) ≡ rank =
            let found' : some (max_rank (events_at dep.module_id t.id d0)) ≡ some rank =
              ap (λ x. some (max_rank (events_at dep.module_id t.id x))) (sym same) ∙ found in
            ground arith in
          rw (e, sym here, max_rank-worst (events_at dep.module_id t.id d0))
            (ap (λ x. x ++ tags_in d0 dep ts)
              (ranked-worst dep t (worst (events_at dep.module_id t.id d0))))

  dependency_statuses-Triple :
      (deps : List DependencyRef) {P : Db → Type κ}
      → ((d : Db) → P d → d ≡ d0)
      → Triple P (dependency_statuses deps) (λ ss d. P d × (ss ≡ refs_in d0 deps))
  unfolding dependency_statuses
  dependency_statuses-Triple [] k = Triple-return [] (λ d h. (h, refl))
  dependency_statuses-Triple (dep ∷ deps) k = Triple-bind _ _ (Triple-query _) λ newer.
      Triple-bind _ _ (tag_statuses-Triple dep newer (λ d h. k d h.0)) λ here.
        Triple-bind _ _ (dependency_statuses-Triple deps (λ d h. k d h.0.0)) λ rest.
          Triple-return _ λ d h. (
            h.0.0.0,
            rw (h.1, h.0.1, h.0.0.1)
                (ap (λ x. tags_in d0 dep (newer_tags dep x) ++ refs_in d0 deps) (k d h.0.0.0)),
          )

module _ (name tag : String) (d0 : Db) where
  latest_found-Triple :
      (r : Result ℕ)
      → Triple
          (λ d. (d ≡ d0) × Found (latest_version name) d r)
          (latest_found r)
          (λ o d. (d ≡ d0) × (o ≡ latest_version name d0))
  unfolding latest_found
  latest_found-Triple (ok t) =
      Triple-return _ (λ d h. (h.0, sym (ap (latest_version name) (sym (h.0)) ∙ h.1)))
  latest_found-Triple (err e) = elim (Bool-cases (is_no_rows e)) [
    | inl b ↦
        rw b (Triple-return _ (λ d h. (h.0, sym (ap (latest_version name) (sym (h.0)) ∙ h.1 refl))))
    | inr b ↦ rw b (Triple-raise e)
  ]

  given_found-Triple :
      (r : Result ℕ)
      → Triple
          (λ d. (d ≡ d0) × Found (given_version name tag) d r)
          (given_found r)
          (λ o d. (d ≡ d0) × (o ≡ given_version name tag d0))
  unfolding given_found
  given_found-Triple (ok t) =
      Triple-return _ (λ d h. (h.0, sym (ap (given_version name tag) (sym (h.0)) ∙ h.1)))
  given_found-Triple (err e) = elim (Bool-cases (is_no_rows e)) [
    | inl b ↦ rw b (Triple-raise _)
    | inr b ↦ rw b (Triple-raise e)
  ]

  resolve_version-Triple :
      Triple
        (λ d. d ≡ d0)
        (resolve_version name tag)
        (λ o d. (d ≡ d0) × (o ≡ version_in name tag d0))
  unfolding resolve_version
  resolve_version-Triple = elim (Bool-cases (tag == "")) [
    | inl b ↦ rw b (Triple-bind _ _ (Triple-attempt-Found _) latest_found-Triple)
    | inr b ↦ rw b (Triple-bind _ _ (Triple-attempt-Found _) given_found-Triple)
  ]

  version_statuses-Triple :
      (o : Option ℕ)
      → Triple
          (λ d. (d ≡ d0) × (o ≡ version_in name tag d0))
          (version_statuses o)
          (λ ss d. ss ≡ statuses_in d0 (version_in name tag d0))
  unfolding version_statuses
  version_statuses-Triple none = Triple-return _ (λ d h. ap (λ v. statuses_in d0 v) (h.1))
  version_statuses-Triple (some t) = Triple-bind _ _ (Triple-query _) λ refs.
      Triple-weaken _ (λ d h. h)
        (λ ss d h.
          h.1
          ∙ rw (h.0.1) (ap (λ x. refs_in d0 (dependency_refs t x)) (h.0.0.0))
          ∙ ap (λ v. statuses_in d0 v) (h.0.0.1))
        (dependency_statuses-Triple d0 refs (λ d h. h.0.0))

-- When GetModuleDependencyDriftStatuses returns, it has, for every dependency of the version that is
-- asked for and every later tag of the dependency with drift events, in the order of time, one
-- status with the worst severity of these events, and nothing else.
pub get_module_dependency_drift_statuses_lem :
    (name tag : String) (w : World) (ss : List DependencyDriftStatus)
    → (get_module_dependency_drift_statuses name tag w).0 ≡ ok ss
    → ss ≡ statuses_in w.db (version_in name tag w.db)
unfolding get_module_dependency_drift_statuses
get_module_dependency_drift_statuses_lem name tag w ss h =
    Triple-ok _ w ss
      (Triple-bind _ _ (resolve_version-Triple name tag w.db)
        (version_statuses-Triple name tag w.db))
      refl h
