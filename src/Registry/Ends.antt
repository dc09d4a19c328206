-- ===== src/Registry/Ends.antt =====
-- GetTransitiveDependencies returns: with enough fuel its loop is never cut short.
use pbuf_registry.Prelude.{
  ℕ, zero, suc, ◌+◌, ◌≤◌, String, Bool, true, Option, none, some, ◌≡◌, ◌⊎◌, refl, ap, subst, List,
  [], ◌∷◌, length, ◌==◌, ==_refl, string_eq, nat_eq, all, select, first, first-any, Bool-cases, inl,
  inr, arith,
}
use mathlib.Core.Option
use pbuf_registry.Database.Tables.{Dependency, TagRow, Db}
use pbuf_registry.Database.Errors.{Result, ok, err, wrapped, is_no_rows}
use pbuf_registry.Database.Io.{World, pure, attempt, on_error, continue, relabel, ◌>>=◌}
use pbuf_registry.Database.Triples.{
  Triple, Triple-bind, Triple-on_error, Triple-scan_unordered, Triple-query_row, Triple-raise,
  Triple-weaken, Triple-attempt_row, Triple-of-Keeps, Triple-return, Good,
}
use pbuf_registry.Registry.Dependencies.{
  join_module, dependency_by_tag_id, DepKey, name_edges, dependencies_at, at_latest,
  get_module_dependencies, Search, offer_all, after_lookup, search, start,
  get_transitive_dependencies,
}
use pbuf_registry.Registry.Reads.{the_tag_id-Keeps, get_module_dependencies-Keeps}
use pbuf_registry.Registry.Transitive.{is_dep, known, left, work, offer_all-work}

length-select_all {ℓ} : {A : Type ℓ} (p : A → Bool) (xs : List A) → length (select p xs) ≤ length xs
length-select_all p [] = omega arith
length-select_all p (x ∷ xs) = ground (arith, length-select_all p xs)

List-cases {ℓ} :
    {A : Type ℓ} (xs : List A) → (xs ≡ []) ⊎ ((x : A) × (rest : List A) × (xs ≡ x ∷ rest))
List-cases [] = inl refl
List-cases (x ∷ xs) = inr (x, xs, refl)

module _ (d : Db) where
  joined :
      (o : Option TagRow) (e : Dependency)
      → Option.bind o (join_module d) ≡ some e
      → (t : TagRow) × (o ≡ some t) × (join_module d t ≡ some e)
  unfolding Option.bind
  joined none e h = absurd (ground arith)
  joined (some t) e h = (t, refl, h)

  -- A dependency that is read is a stored tag.
  dependency-known : (i : ℕ) (e : Dependency) → dependency_by_tag_id i d ≡ some e → known d e ≡ true
  dependency-known i e h =
      let (t, found, is) = joined (first (λ (u : TagRow). u.id == i) d.tags) e h in
      first-any (λ (u : TagRow). u.id == i) (λ u. is_dep e (join_module d u)) d.tags t found
        (rw is (ground (arith, ==_refl e.name, ==_refl e.tag)))

  name_edges-Read :
      {F : Type 0} (ts : List ℕ)
      → Triple
          (λ x. (x ≡ d) × F)
          (name_edges ts)
          (λ es x. ((x ≡ d) × F) × (all (known d) es ≡ true))
  unfolding name_edges
  name_edges-Read [] = Triple-return [] (λ x h. (h, refl))
  name_edges-Read {F = F} (t ∷ ts) =
      Triple-bind _ _
        (Triple-weaken _ (λ x h. h)
          (λ e x h. (
            h.0.0,
            (
              h.0.1,
              dependency-known t e (subst (λ y. dependency_by_tag_id t y ≡ some e) h.0.0 h.1),
            ),
          ))
          (Triple-on_error _ _ (Triple-query_row (dependency_by_tag_id t))))
        λ e.
          Triple-bind _ _ (name_edges-Read {F = F × (known d e ≡ true)} ts)
            λ es. Triple-return (e ∷ es) (λ x h. ((h.0.0, h.0.1.0), rw (h.0.1.1, h.1) refl))

  dependencies_at-Read :
      (name tag : String)
      → Triple (λ x. x ≡ d) (dependencies_at name tag) (λ es x. all (known d) es ≡ true)
  unfolding dependencies_at
  dependencies_at-Read name tag =
      Triple-bind _ _ (Triple-of-Keeps _ (the_tag_id-Keeps (λ x. x ≡ d) name tag)) λ t.
        Triple-bind _ _ (Triple-on_error _ _ (Triple-scan_unordered _)) λ edges.
          Triple-weaken _ (λ x h. (h.0, tt)) (λ es x h. h.1) (name_edges-Read {F = Unit {0}} edges)

  at_latest-Read :
      (name : String) (r : Result String)
      → Triple (λ x. x ≡ d) (at_latest name r) (λ es x. all (known d) es ≡ true)
  unfolding at_latest
  at_latest-Read name (ok tag) = dependencies_at-Read name tag
  at_latest-Read name (err e) = elim (Bool-cases (is_no_rows e)) [
    | inl n ↦ rw n (Triple-return [] λ x h. refl)
    | inr n ↦ rw n (Triple-raise _)
  ]

  get_module_dependencies-Read :
      (name tag : String)
      → Triple (λ x. x ≡ d) (get_module_dependencies name tag) (λ es x. all (known d) es ≡ true)
  unfolding get_module_dependencies
  get_module_dependencies-Read name tag = elim (Bool-cases (tag == "")) [
    | inl n ↦ rw n (
        Triple-bind _ _ (Triple-weaken _ (λ x h. h) (λ r x h. h.0) (Triple-attempt_row _))
          (at_latest-Read name))
    | inr n ↦ rw n (dependencies_at-Read name tag)
  ]

  -- The loop never fails, and it is not cut short if the fuel is as much as the work.
  search_ends :
      (fuel : ℕ) (s : Search) (w : World)
      → w.db ≡ d
      → work d s ≤ fuel
      → (deps : List Dependency) × ((search fuel s w).0 ≡ ok (some deps))
  unfolding search pure ◌>>=◌ attempt after_lookup
  search_ends zero s w h k = elim (List-cases s.queue) [
    | inl e ↦ rw e (s.result, refl)
    | inr (x, rest, e) ↦ absurd (omega (arith, k, ap length e))
  ]
  search_ends (suc fuel) s w h k = elim (List-cases s.queue) [
    | inl e ↦ rw e (s.result, refl)
    | inr (x, rest, e) ↦ rw e (
        step (λ s' w' e' l'. search_ends fuel s' w' e' l') x rest (omega (arith, k, ap length e))
          (get_module_dependencies x.name x.tag w)
          ((get_module_dependencies-Read x.name x.tag).at w h)
          ((get_module_dependencies-Keeps (λ y. y ≡ d) x.name x.tag).at w h))
  ]
    where
      step :
          ((s' : Search) (w' : World)
            → w'.db ≡ d
            → work d s' ≤ fuel
            → (deps : List Dependency) × ((search fuel s' w').0 ≡ ok (some deps)))
          → (x : Dependency) (rest : List Dependency) → work d (record s { queue = rest }) ≤ fuel
          → (p : Result (List Dependency) × World) → Good (λ es y. all (known d) es ≡ true) p
          → p.1.db ≡ d
          → (deps : List Dependency) × ((search fuel
                (after_lookup (record s { queue = rest }) p.0)
                p.1).0
              ≡ ok (some deps))
      step again x rest less (err f, w') g kept = again (record s { queue = rest }) w' kept less
      step again x rest less (ok es, w') g kept =
          again (offer_all (record s { queue = rest }) es) w' kept
            (omega (arith, less, offer_all-work d (record s { queue = rest }) es g))

  left_bound : (visited : List DepKey) → left d visited ≤ length d.tags
  left_bound visited = length-select_all _ d.tags

-- GetTransitiveDependencies answers whenever the look-up of the direct dependencies does, whatever
-- fails later: its loop ends after at most as many rounds as there are direct dependencies and
-- stored tags.
pub get_transitive_dependencies_ends :
    (fuel : ℕ) (name tag : String) (w : World) (direct : List Dependency)
    → (get_module_dependencies name tag w).0 ≡ ok direct
    → length direct + length w.db.tags ≤ fuel
    → (deps : List Dependency) × ((get_transitive_dependencies fuel name tag w).0 ≡ ok (some deps))
unfolding get_transitive_dependencies ◌>>=◌ on_error start
get_transitive_dependencies_ends fuel name tag w direct h k =
    go (get_module_dependencies name tag w) h
      ((get_module_dependencies-Keeps (λ x. x ≡ w.db) name tag).at w refl)
  where
    go :
        (p : Result (List Dependency) × World)
        → p.0 ≡ ok direct
        → p.1.db ≡ w.db
        → (deps : List Dependency) × ((continue
              (relabel (wrapped "could not get direct dependencies") p.0)
              (λ found. search fuel (start name tag found))
              p.1).0
            ≡ ok (some deps))
    go (err x, w') e kept = absurd (ground arith)
    go (ok found, w') e kept =
        let same : length found ≡ length direct = ground (arith, e) in
        search_ends w.db fuel (start name tag found) w' kept
          (omega (arith, k, same, left_bound w.db (start name tag found).visited))
