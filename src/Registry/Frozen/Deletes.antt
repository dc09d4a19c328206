-- ===== src/Registry/Frozen/Deletes.antt =====
-- Deleting another module, or another tag, changes neither a stored tag nor its files.
use pbuf_registry.Prelude.{
  ℕ, String, Bool, true, false, not, some, ◌≡◌, ◌≢◌, ◌⊎◌, ap, ◌&&◌, ◌==◌, ==_iff, nat_eq, string_eq,
  any, select, List, arith, Bool-cases, Option-cases, inl, inr, first-passes, first-fails,
  map-first, map-first-select, select-select, any-none, Distinct-select, Distinct-any,
}
use pbuf_registry.Database.Tables.{ProtoFile, ModuleRow, TagRow, FileRow, Db}
use pbuf_registry.Database.Io.{Answer, After}
use pbuf_registry.Database.Queries.{
  module_by_name, module_id_by_name, tag_id_in, tag_id_by_name, is_id, is_tag_of,
}
use pbuf_registry.Registry.Modules.{
  delete_module_files, delete_module_dependencies, delete_module_tags, delete_module_draft_tags,
  delete_module_row,
}
use pbuf_registry.Registry.Tags.{
  same_tag, files_of, delete_tag_files, delete_tag_dependencies, delete_tag_row,
}
use pbuf_registry.Registry.WellFormed.{same_module}
use pbuf_registry.Registry.Frozen.{Apart}

module _ (name tag : String) (m t : ℕ) (files : List ProtoFile) where
  abbrev Here : Db → Type 0
  Here = Apart name tag m t files

  -- Another name has another id.
  other_id :
      (other : String) (d : Db)
      → Here d
      → name ≢ other
      → is_id (module_id_by_name other d) m ≡ false
  other_id other d h ne = elim (Option-cases (module_by_name other d)) [
    | inl e ↦ rw e
    | inr (r, e) ↦ rw e (go r e (Bool-cases (m == r.id)))
  ]
    where
      go :
          (r : ModuleRow)
          → module_by_name other d ≡ some r
          → ((m == r.id) ≡ true) ⊎ ((m == r.id) ≡ false)
          → (m == r.id) ≡ false
      go r e (inr k) = k
      go r e (inl k) =
          let (q, found, id) = map-first (λ (x : ModuleRow). x.id) _ d.modules m h.stored.found in
          let called = first-passes _ d.modules q found in
          let apart =
            Distinct-any same_module _ (λ x. x.name == other && x.id == m) d.modules q
              (λ u c. ground arith) h.modules found
              (ground (arith, ==_iff q.name name, ==_iff q.name other)) in
          let hit = first-fails _ _ d.modules r e apart in
          absurd (ground (arith, first-passes _ d.modules r e))

  -- The row of the tag is not one of the rows that `r` singles out.
  missed :
      (r : TagRow → Bool) (d : Db)
      → Here d
      → ((u : TagRow) → r u ≡ true → u.id ≡ t)
      → ((u : TagRow) → u.id ≡ t → u.module_id ≡ m → u.tag ≡ tag → r u ≡ false)
      → any r d.tags ≡ false
  missed r d h only not_it =
      let (u, found, id) = map-first (λ (u : TagRow). u.id) _ d.tags t h.stored.tagged in
      let here = first-passes _ d.tags u found in
      Distinct-any same_tag _ r d.tags u (λ v k. ground (arith, only v k)) h.tags found
        (not_it u id (ground arith) (ground (arith, ==_iff u.tag tag)))

  pub not_tag_of :
      (other : String) (d : Db)
      → name ≢ other
      → Here d
      → is_tag_of (module_id_by_name other d) d.tags t ≡ false
  not_tag_of other d ne h =
      missed (λ u. is_id (module_id_by_name other d) u.module_id && u.id == t) d h
        (λ u k. ground arith)
        (λ u a b c.
          let o = other_id other d h ne in
          rw (ap (λ x. is_id (module_id_by_name other d) x) b) (rw o))

  kept_files :
      (q : FileRow → Bool) (d : Db)
      → ((f : FileRow) → (f.tag_id == t) ≡ true → q f ≡ true)
      → Here d
      → files_of t (record d { protofiles = select q d.protofiles }) ≡ files
  kept_files q d k h = rw (select-select (λ f. f.tag_id == t) q d.protofiles k) h.stored.content

  pub delete_module_files-Apart :
      (other : String) (n : Answer) (d : Db)
      → name ≢ other
      → Here d
      → After (λ _. Here) (delete_module_files other n d)
  delete_module_files-Apart other n d ne h = record {
    modules = h.modules;
    tags = h.tags;
    stored = record {
      found = h.stored.found;
      tagged = h.stored.tagged;
      content = kept_files _ d (λ f k. outside f (ground arith)) h;
    };
  }
    where
      outside :
          (f : FileRow)
          → f.tag_id ≡ t
          → not (is_tag_of (module_id_by_name other d) d.tags f.tag_id) ≡ true
      outside f e = rw e (rw (not_tag_of other d ne h))

  pub delete_module_dependencies-Apart :
      (other : String) (n : Answer) (d : Db)
      → Here d
      → After (λ _. Here) (delete_module_dependencies other n d)
  delete_module_dependencies-Apart other n d h = record {
    modules = h.modules;
    tags = h.tags;
    stored = record {
      found = h.stored.found;
      tagged = h.stored.tagged;
      content = h.stored.content;
    };
  }

  kept_tag :
      (g : TagRow → Bool) (d : Db)
      → any (λ u. g u && u.id == t) d.tags ≡ false
      → Here d
      → tag_id_in (some m) tag (record d { tags = select (λ u. not (g u)) d.tags }) ≡ some t
  kept_tag g d k h =
      map-first-select (λ (u : TagRow). u.id) _ (λ u. not (g u)) d.tags t h.stored.tagged
        λ u found.
          let (v, found', id) = map-first (λ (u : TagRow). u.id) _ d.tags t h.stored.tagged in
          let e : v ≡ u = ground arith in
          ground (arith, first-fails _ _ d.tags v found' k, ap (λ (x : TagRow). x.id) e, ap g e)

  pub delete_module_tags-Apart :
      (other : String) (n : Answer) (d : Db)
      → name ≢ other
      → Here d
      → After (λ _. Here) (delete_module_tags other n d)
  delete_module_tags-Apart other n d ne h = record {
    modules = h.modules;
    tags = Distinct-select same_tag _ d.tags h.tags;
    stored = record {
      found = h.stored.found;
      tagged = kept_tag _ d (not_tag_of other d ne h) h;
      content = h.stored.content;
    };
  }

  pub delete_module_draft_tags-Apart :
      (other : String) (n : Answer) (d : Db)
      → Here d
      → After (λ _. Here) (delete_module_draft_tags other n d)
  delete_module_draft_tags-Apart other n d h = record {
    modules = h.modules;
    tags = h.tags;
    stored = record {
      found = h.stored.found;
      tagged = h.stored.tagged;
      content = h.stored.content;
    };
  }

  pub delete_module_row-Apart :
      (other : String) (n : Answer) (d : Db)
      → name ≢ other
      → Here d
      → After (λ _. Here) (delete_module_row other n d)
  delete_module_row-Apart other n d ne h = record {
    modules = Distinct-select same_module _ d.modules h.modules;
    tags = h.tags;
    stored = record {
      found =
          map-first-select (λ (x : ModuleRow). x.id) _ (λ x. not (x.name == other)) d.modules m
            h.stored.found
            λ x found.
              ground
                (arith, first-passes _ d.modules x found, ==_iff x.name name, ==_iff x.name other);
      tagged = h.stored.tagged;
      content = h.stored.content;
    };
  }

  -- The id of another module's tag, or of another tag, is another id.
  pub other_tag_id :
      (other other_tag : String) (t' : ℕ) (d : Db)
      → (name ≢ other) ⊎ (tag ≢ other_tag)
      → Here d
      → tag_id_by_name other other_tag d ≡ some t'
      → t' ≢ t
  other_tag_id other other_tag t' d ne h e same =
      let (u, found, id) = map-first (λ (u : TagRow). u.id) _ d.tags t' e in
      let none_here =
        missed
          (λ v. (is_id (module_id_by_name other d) v.module_id && v.tag == other_tag) && v.id == t)
          d h (λ v k. ground arith) (not_here ne) in
      ground (arith, first-fails _ _ d.tags u found none_here, first-passes _ d.tags u found)
    where
      not_here :
          (name ≢ other) ⊎ (tag ≢ other_tag)
          → (u : TagRow) → u.id ≡ t
          → u.module_id ≡ m
          → u.tag ≡ tag
          → ((is_id (module_id_by_name other d) u.module_id && u.tag == other_tag) && u.id == t)
            ≡ false
      not_here (inl n) u a b c =
          rw (ap (λ x. is_id (module_id_by_name other d) x) b) (rw (other_id other d h n))
      not_here (inr n) u a b c = ground (arith, ==_iff u.tag other_tag)

  pub delete_tag_files-Apart :
      (t' : ℕ) (n : Answer) (d : Db) → t' ≢ t → Here d → After (λ _. Here) (delete_tag_files t' n d)
  delete_tag_files-Apart t' n d ne h = record {
    modules = h.modules;
    tags = h.tags;
    stored = record {
      found = h.stored.found;
      tagged = h.stored.tagged;
      content = kept_files (λ f. not (f.tag_id == t')) d (λ f k. ground arith) h;
    };
  }

  pub delete_tag_dependencies-Apart :
      (t' : ℕ) (n : Answer) (d : Db) → Here d → After (λ _. Here) (delete_tag_dependencies t' n d)
  delete_tag_dependencies-Apart t' n d h = record {
    modules = h.modules;
    tags = h.tags;
    stored = record {
      found = h.stored.found;
      tagged = h.stored.tagged;
      content = h.stored.content;
    };
  }

  pub delete_tag_row-Apart :
      (t' : ℕ) (n : Answer) (d : Db) → t' ≢ t → Here d → After (λ _. Here) (delete_tag_row t' n d)
  delete_tag_row-Apart t' n d ne h = record {
    modules = h.modules;
    tags = Distinct-select same_tag _ d.tags h.tags;
    stored = record {
      found = h.stored.found;
      tagged =
          kept_tag (λ u. u.id == t') d
            (any-none (λ u. u.id == t' && u.id == t) d.tags (λ u. ground arith)) h;
      content = h.stored.content;
    };
  }
