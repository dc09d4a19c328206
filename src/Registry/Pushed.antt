-- ===== src/Registry/Pushed.antt =====
-- What a push that succeeds has stored, and what later pulls of it return.
use pbuf_registry.Prelude.{
  ℕ, String, true, false, Option, none, some, ◌≡◌, ◌∙◌, refl, sym, ap, subst, List, [], ◌∷◌, ◌++◌,
  ◌==◌, ==_iff, nat_eq, string_eq, any, all, select, select-append, any_mono, Bool-cases, inl, inr,
  arith,
}
use mathlib.Core.List.{Perm, append_assoc, append-nil, map-append}
use pbuf_registry.Database.Tables.{ProtoFile, Module, TagRow, FileRow, Db}
use pbuf_registry.Database.Errors.{ok}
use pbuf_registry.Database.Io.{World, Answer, After}
use pbuf_registry.Database.Queries.{module_id_by_name}
use pbuf_registry.Database.Triples.{
  Triple, Triple-bind, Triple-on_error, Triple-execute, Triple-query_row, Triple-pure, Triple-raise,
  Triple-weaken,
}
use pbuf_registry.Database.Rows.{Triple-ok, Triple-transaction}
use pbuf_registry.Registry.Tags.{
  same_tag, new_tag, insert_tag, same_file, new_file, insert_file, insert_files, push_rows,
  push_found, push_module, pull_module,
}
use pbuf_registry.Registry.Drafts.{Json}
use pbuf_registry.Registry.Reads.{get_module-IdOf, IdOf}
use pbuf_registry.Registry.WellFormed.{WellFormed, has_tag}
use pbuf_registry.Registry.Invariant.{push_module-WellFormed}
use pbuf_registry.Registry.Frozen.{Stored}
use pbuf_registry.Registry.Frozen.Inserts.{tag_id_in-insert}
use pbuf_registry.Registry.Calls.{Call, run, AllSpare}
use pbuf_registry.Registry.Immutable.{run-Stored}
use pbuf_registry.Registry.Pulls.{pull_module-Serves}
use pbuf_registry.Database.Quiet.{Quiet}

-- No file has the id of a tag that does not exist.
select-none :
    (tags : List TagRow) (i : ℕ) (fs : List FileRow)
    → any (λ u. u.id == i) tags ≡ false
    → all (has_tag tags) fs ≡ true
    → select (λ (f : FileRow). f.tag_id == i) fs ≡ []
select-none tags i [] h k = refl
select-none tags i (f ∷ fs) h k = elim (Bool-cases (f.tag_id == i)) [
  | inl e ↦
      let same : f.tag_id ≡ i = (==_iff f.tag_id i).0 e in
      let moved = ap (λ n. any (λ (u : TagRow). u.id == n) tags) same in
      absurd (ground (arith, moved))
  | inr e ↦ rw e (select-none tags i fs h (ground arith))
]

module _ (name tag : String) (m : ℕ) where
  record Ready (d : Db) : Type 0 where
    well : WellFormed d
    found : module_id_by_name name d ≡ some m

  abbrev Empty : Db → Type 0
  Empty d = (t : ℕ) × Stored name tag m t [] d

  insert_tag-Empty : (n : Answer) (d : Db) → Ready d → After (λ _. Empty) (insert_tag m tag n d)
  insert_tag-Empty n d h = elim (Bool-cases (any (same_tag (new_tag m tag n)) d.tags)) [
    | inl e ↦ rw e tt
    | inr e ↦
        let unused : any (λ (u : TagRow). u.id == n.uuid) d.tags ≡ false =
          any_mono _ (same_tag (new_tag m tag n)) d.tags (λ u f. ground arith) e in
        let nothing = select-none d.tags n.uuid d.protofiles unused h.well.files_owned in
        rw e (
          n.uuid,
          record {
            found = h.found;
            tagged = tag_id_in-insert m tag n d e;
            content = rw nothing refl;
          },
        )
  ]

  insert_file-Stored :
      (t : ℕ) (pre : List ProtoFile) (f : ProtoFile) (n : Answer) (d : Db)
      → Stored name tag m t pre d
      → After (λ _. Stored name tag m t (pre ++ f ∷ [])) (insert_file t f n d)
  insert_file-Stored t pre f n d h =
      elim (Bool-cases (any (same_file (new_file t f n)) d.protofiles)) [
        | inl e ↦ rw e tt
        | inr e ↦
            let mine : (t == t) ≡ true = ground arith in
            rw e (record {
              found = h.found;
              tagged = h.tagged;
              content =
                  rw (select-append (λ f. f.tag_id == t) d.protofiles (new_file t f n ∷ []), mine)
                    (map-append _ (select (λ (g : FileRow). g.tag_id == t) d.protofiles)
                        (new_file t f n ∷ [])
                      ∙ ap (λ xs. xs ++ f ∷ []) h.content);
            })
      ]

  insert_files-Stored :
      (t : ℕ) (pre fs : List ProtoFile)
      → Triple (Stored name tag m t pre) (insert_files t fs) (λ _. Stored name tag m t (pre ++ fs))
  unfolding insert_files
  insert_files-Stored t pre [] =
      Triple-weaken _ (λ d h. h) (λ _ d h. rw (append-nil pre) (h.0)) (Triple-pure tt)
  insert_files-Stored t pre (f ∷ fs) =
      Triple-bind _ _
        (Triple-on_error _ _ (
          Triple-execute {Q = λ _. Stored name tag m t (pre ++ f ∷ [])} _
            (insert_file-Stored t pre f)))
        λ _.
          Triple-weaken _ (λ d h. h)
            (λ _ d h. subst (λ xs. Stored name tag m t xs d) (append_assoc pre (f ∷ []) fs) h)
            (insert_files-Stored t (pre ++ f ∷ []) fs)

  push_rows-Stored :
      (fs : List ProtoFile)
      → Triple Ready (push_rows m tag fs) (λ _ d. (t : ℕ) × Stored name tag m t fs d)
  unfolding push_rows
  push_rows-Stored fs =
      Triple-bind _ _ (Triple-on_error _ _ (Triple-execute {Q = λ _. Empty} _ insert_tag-Empty))
        λ _. Triple-bind _ _ (Triple-on_error _ _ (Triple-query_row _)) λ t.
          Triple-weaken _
            (λ d h.
              let same : h.0.0 ≡ t = ground (arith, h.0.1.tagged, h.1) in
              subst (λ i. Stored name tag m i [] d) same h.0.1)
            (λ _ d h. (t, h)) (insert_files-Stored t [] fs)

abbrev Pushed : String → String → List ProtoFile → Module → Db → Type 0
Pushed name tag fs x d = (t : ℕ) × Stored name tag x.id t fs d

push_found-Pushed :
    (name tag : String) (found : Option Module) (fs : List ProtoFile)
    → Triple (λ d. WellFormed d × IdOf name d found) (push_found found tag fs) (Pushed name tag fs)
unfolding push_found
push_found-Pushed name tag none fs = Triple-raise _
push_found-Pushed name tag (some x) fs = elim (Bool-cases (any (λ t. t == tag) x.tags)) [
  | inl old ↦ rw old (Triple-raise _)
  | inr new ↦ rw new (
      Triple-bind _ _
        (Triple-weaken _ (λ d h. record { well = h.0; found = h.1 }) (λ _ d h. h)
          (Triple-transaction _ _ _ (push_rows-Stored name tag x.id fs)))
        λ _. Triple-weaken _ (λ d h. h) (λ y d h. rw h.1 h.0) (Triple-pure _))
]

-- After a push that succeeds the tag is stored with exactly the pushed files, in their order.
pub push_module-Pushed :
    (name tag : String) (fs : List ProtoFile)
    → Triple WellFormed (push_module name tag fs) (Pushed name tag fs)
unfolding push_module
push_module-Pushed name tag fs =
    Triple-bind _ _ (Triple-on_error _ _ (get_module-IdOf WellFormed name))
      λ found. push_found-Pushed name tag found fs

-- From well-formed tables, after a push that succeeds, and any calls, failing or not, that delete
-- neither the tag nor its module, a pull from a database that answers every statement in full
-- succeeds, and returns exactly the pushed files, in some order.
pub push-pull :
    (j : Json) (name tag : String) (w v : World) (calls : List Call) (x : Module)
    (files : List ProtoFile)
    → WellFormed w.db
    → AllSpare name tag calls
    → (push_module name tag files w).0 ≡ ok x
    → v.db ≡ (run j (push_module name tag files w).1 calls).db
    → Quiet v
    → (r : Module × List ProtoFile) × ((pull_module name tag v).0 ≡ ok r) × Perm r.1 files
push-pull j name tag w v calls x files well s e now quiet =
    let w1 = (push_module name tag files w).1 in
    let (t, before) = Triple-ok _ w x (push_module-Pushed name tag files) well e in
    let well1 = (push_module-WellFormed name tag files).at w well in
    let kept = run-Stored name tag x.id t files j w1 calls well1 before s in
    let (r, found, q, whole) =
      (pull_module-Serves name tag x.id t files).at v quiet
        (subst (Stored name tag x.id t files) (sym now) kept) in
    (r, found, whole)
