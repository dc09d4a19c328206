-- ===== src/Registry/Repushed.antt =====
-- A push of a tag that exists.
use pbuf_registry.Prelude.{
  ℕ, String, true, false, Option, none, some, ◌≡◌, refl, sym, subst, List, ◌==◌, nat_eq, string_eq,
  any, map-first, first-any, first-passes, Bool-cases, inl, inr, arith, ◌&&◌,
}
use pbuf_registry.Database.Tables.{ProtoFile, Module, TagRow, Db}
use pbuf_registry.Database.Errors.{Error, Result, ok, err}
use pbuf_registry.Database.Io.{World, Answer, After, wrap}
use pbuf_registry.Database.Keeps.{Leads, keeps_rules}
use pbuf_registry.Database.Triples.{
  Triple, Triple-bind, Triple-on_error, Triple-execute, Triple-raise, Triple-weaken, Leads-bind,
  Leads-then, Leads-transaction, Good, Leads-from,
}
use pbuf_registry.Database.Rows.{Triple-transaction}
use pbuf_registry.Registry.Modules.{get_module}
use pbuf_registry.Registry.Tags.{same_tag, new_tag, insert_tag, push_rows, push_found, push_module}
use pbuf_registry.Registry.Reads.{get_module-IdOf, get_module-Keeps, IdOf}
use pbuf_registry.Registry.Frozen.{Stored}

-- No value is returned.
abbrev Never {ℓ} : {A : Type ℓ} → A → Db → Type 0
Never a d = true ≡ false

module _ (name tag : String) (m t : ℕ) (files : List ProtoFile) (before : Db) where
  record Kept (d : Db) : Type 0 where
    same : d ≡ before
    stored : Stored name tag m t files d

  insert_tag-Never : (n : Answer) (d : Db) → Kept d → After Never (insert_tag m tag n d)
  insert_tag-Never n d h =
      let (u, found, e) = map-first (λ (r : TagRow). r.id) _ d.tags t h.stored.tagged in
      let passes = first-passes (λ (r : TagRow). r.module_id == m && r.tag == tag) d.tags u found in
      let clash : any (same_tag (new_tag m tag n)) d.tags ≡ true =
        first-any (λ (r : TagRow). r.module_id == m && r.tag == tag) (same_tag (new_tag m tag n))
          d.tags u found (ground (arith, passes)) in
      rw clash tt

  push_rows-Never : (fs : List ProtoFile) → Triple Kept (push_rows m tag fs) Never
  unfolding push_rows
  push_rows-Never fs =
      Triple-bind _ _ (Triple-on_error _ _ (Triple-execute {Q = Never} _ insert_tag-Never))
        λ _. record { at = λ w h. absurd (ground arith) }

  record KeptIn (found : Option Module) (d : Db) : Type 0 where
    kept : Kept d
    is : IdOf name d found

  same_id : (x : Module) (d : Db) → KeptIn (some x) d → x.id ≡ m
  same_id x d h = ground (arith, h.is, h.kept.stored.found)

module _ (name tag : String) (m t : ℕ) (files : List ProtoFile) (before : Db) where
  abbrev Read : Option Module → Db → Type 0
  Read = KeptIn name tag m t files before

  abbrev At : ℕ → Db → Type 0
  At k = Kept name tag k t files before

  known : (x : Module) (d : Db) → Read (some x) d → At x.id d
  known x d h = subst (λ k. At k d) (sym (same_id name tag m t files before x d h)) h.kept

  push_found-Never :
      (found : Option Module) (fs : List ProtoFile)
      → Triple (Read found) (push_found found tag fs) Never
  unfolding push_found
  push_found-Never none fs = Triple-raise _
  push_found-Never (some x) fs = elim (Bool-cases (any (λ s. s == tag) x.tags)) [
    | inl old ↦ rw old (Triple-raise _)
    | inr new ↦ rw new (
        Triple-bind _ _
          (Triple-weaken _ (known x) (λ _ d h. h)
            (Triple-transaction _ _ _ (push_rows-Never name tag x.id t files before fs)))
          λ _. record { at = λ w h. absurd (ground arith) })
  ]

  push_found-Same :
      (found : Option Module) (fs : List ProtoFile)
      → Leads (Read found) (push_found found tag fs) (λ d. d ≡ before)
  unfolding push_found
  push_found-Same none fs = Leads-from _ (λ d h. h.kept.same) (search keeps_rules)
  push_found-Same (some x) fs = elim (Bool-cases (any (λ s. s == tag) x.tags)) [
    | inl old ↦ rw old (Leads-from _ (λ d h. h.kept.same) (search keeps_rules))
    | inr new ↦ rw new (
        Leads-from _ (known x) (
          Leads-then _ _
            (Leads-transaction _ _ _ (λ d h. h.same)
              (Triple-weaken _ (λ d h. h) (λ _ d h. absurd (ground arith))
                (push_rows-Never name tag x.id t files before fs)))
            (λ _. search keeps_rules)))
  ]

  found_module : Triple (At m) (wrap "could not get module" (get_module name)) Read
  found_module =
      Triple-weaken _ (λ d h. h) (λ _ d h. record { kept = h.0; is = h.1 })
        (Triple-on_error _ _ (get_module-IdOf (At m) name))

-- A push of a tag that is stored is refused, whatever the database answers, and changes nothing.
pub push_module_again :
    (name tag : String) (m t : ℕ) (files fs : List ProtoFile) (w : World)
    → Stored name tag m t files w.db
    → (e : Error) × ((push_module name tag fs w).0 ≡ err e)
      × ((push_module name tag fs w).1.db ≡ w.db)
unfolding push_module
push_module_again name tag m t files fs w h =
    let start : Kept name tag m t files w.db w.db = record { same = refl; stored = h } in
    let never =
      Triple-bind _ _ (found_module name tag m t files w.db)
        λ found. push_found-Never name tag m t files w.db found fs in
    let same =
      Leads-bind _ _ (found_module name tag m t files w.db)
        (Leads-from _ (λ d k. k.same) (search (keeps_rules, get_module-Keeps)))
        λ found. push_found-Same name tag m t files w.db found fs in
    refused (push_module name tag fs w) (never.at w start) (same.at w start)
  where
    refused :
        (r : Result Module × World)
        → Good Never r
        → r.1.db ≡ w.db
        → (e : Error) × (r.0 ≡ err e) × (r.1.db ≡ w.db)
    refused (ok x, w') g k = absurd (ground arith)
    refused (err e, w') g k = (e, refl, k)
