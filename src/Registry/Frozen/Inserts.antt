-- ===== src/Registry/Frozen/Inserts.antt =====
-- No insert changes a stored tag or its files.
use pbuf_registry.Prelude.{
  ℕ, String, false, some, ◌≡◌, ◌≢◌, ◌&&◌, ◌==◌, ==_refl, nat_eq, string_eq, any, select, map, List,
  [], ◌∷◌, ◌++◌, arith, Bool-cases, inl, inr, first-append_none, first-fails, select-append,
  any_mono, map-first, map-first-append,
}
use mathlib.Core.List.{append-nil}
use pbuf_registry.Database.Tables.{ProtoFile, ModuleRow, TagRow, FileRow, Db}
use pbuf_registry.Database.Io.{Answer, After}
use pbuf_registry.Database.Queries.{tag_id_in}
use pbuf_registry.Registry.Modules.{insert_module}
use pbuf_registry.Registry.Tags.{same_tag, same_file, new_tag, new_file, insert_tag, insert_file}
use pbuf_registry.Registry.Frozen.{Stored}

-- The id of a new tag is the one that the database gave it.
pub tag_id_in-insert :
    (k : ℕ) (tag : String) (n : Answer) (d : Db)
    → any (same_tag (new_tag k tag n)) d.tags ≡ false
    → tag_id_in (some k) tag (record d { tags = d.tags ++ new_tag k tag n ∷ [] }) ≡ some n.uuid
tag_id_in-insert k tag n d e =
    rw
      (first-append_none (λ u. u.module_id == k && u.tag == tag) d.tags (new_tag k tag n ∷ [])
        (any_mono _ (same_tag (new_tag k tag n)) d.tags (λ u f. ground arith) e))
      (ground (arith, ==_refl tag))

module _ (name tag : String) (m t : ℕ) (files : List ProtoFile) where
  pub insert_module-Stored :
      (other : String) (n : Answer) (d : Db)
      → Stored name tag m t files d
      → After (λ _. Stored name tag m t files) (insert_module other n d)
  insert_module-Stored other n d h = elim (Bool-cases (any (λ x. x.name == other) d.modules)) [
    | inl e ↦ rw e h
    | inr e ↦ elim (Bool-cases (any (λ x. x.id == n.uuid) d.modules)) [
      | inl f ↦ rw (e, f) tt
      | inr f ↦
          rw (e, f)
            (record {
              found = map-first-append (λ (x : ModuleRow). x.id) _ d.modules _ m h.found;
              tagged = h.tagged;
              content = h.content;
            })
    ]
  ]

  -- A new tag has an id of its own.
  pub record OtherTag (k : ℕ) (other : String) (d : Db) : Type 0 where
    pub stored : Stored name tag m t files d
    pub differs : tag_id_in (some k) other d ≢ some t

  new_id :
      (k : ℕ) (other : String) (n : Answer) (d : Db)
      → Stored name tag m t files d
      → any (same_tag (new_tag k other n)) d.tags ≡ false
      → n.uuid ≢ t
  new_id k other n d h e same =
      let (u, found, id) = map-first (λ (u : TagRow). u.id) _ d.tags t h.tagged in
      let apart = first-fails _ (same_tag (new_tag k other n)) d.tags u found e in ground arith

  pub insert_tag-OtherTag :
      (k : ℕ) (other : String) (n : Answer) (d : Db)
      → Stored name tag m t files d
      → After (λ _. OtherTag k other) (insert_tag k other n d)
  insert_tag-OtherTag k other n d h =
      elim (Bool-cases (any (same_tag (new_tag k other n)) d.tags)) [
        | inl e ↦ rw e tt
        | inr e ↦ rw e (record {
          stored = record {
            found = h.found;
            tagged = map-first-append (λ (u : TagRow). u.id) _ d.tags _ t h.tagged;
            content = h.content;
          };
          differs = λ x. new_id k other n d h e (ground (arith, tag_id_in-insert k other n d e));
        })
      ]

  pub insert_file-Stored :
      (t' : ℕ) (f : ProtoFile) (n : Answer) (d : Db)
      → t' ≢ t
      → Stored name tag m t files d
      → After (λ _. Stored name tag m t files) (insert_file t' f n d)
  insert_file-Stored t' f n d ne h =
      elim (Bool-cases (any (same_file (new_file t' f n)) d.protofiles)) [
        | inl e ↦ rw e tt
        | inr e ↦ rw e (record {
          found = h.found;
          tagged = h.tagged;
          content =
              rw (select-append (λ f. f.tag_id == t) d.protofiles (new_file t' f n ∷ []))
                (other_rows (ground arith));
        })
      ]
    where
      other_rows :
          (t' == t) ≡ false
          → map
              (λ (f : FileRow). record { filename = f.filename; content = f.content })
              (select (λ f. f.tag_id == t) d.protofiles
                ++ select (λ f. f.tag_id == t) (new_file t' f n ∷ []))
            ≡ files
      other_rows e = rw e (rw append-nil h.content)
