-- ===== src/Metadata/Gathered.antt =====
-- The metadata of a tag against the metadata of its files.
use pbuf_registry.Prelude.{
  String, Bool, ◌||◌, ◌≡◌, refl, sym, ◌∙◌, ap, subst, Option, none, some, List, [], ◌∷◌, map, any,
  any-append, Bool-cases, inl, inr, ◌==◌, ==_iff, string_eq, arith,
}
use pbuf_registry.Database.Tables.{FileMeta, TagMeta}
use pbuf_registry.Metadata.Texts.{insert_key, is_before, sorted_keys}
use pbuf_registry.Metadata.Retrieve.{
  ParsedProtoFile, Seen, seen_all, file_meta, all_of, gathered_meta, tag_meta_of, retrieve_meta,
}

abbrev pub has : String → List String → Bool
has z = any λ k. k == z

has-insert_key :
    (z x : String) (ys : List String) → has z (insert_key x ys) ≡ ((x == z) || has z ys)
unfolding insert_key
has-insert_key z x [] = refl
has-insert_key z x (y ∷ ys) = elim (Bool-cases (x == y)) [
  | inl e ↦ rw e (again (x == z) (y == z) (has z ys) (ap (λ u. u == z) ((==_iff x y).0 e)))
  | inr e ↦ elim (Bool-cases (is_before x y)) [
    | inl b ↦ rw (e, b) refl
    | inr b ↦ rw (e, b, has-insert_key z x ys) (swap (y == z) (x == z) (has z ys))
  ]
]
  where
    again : (a b c : Bool) → a ≡ b → (b || c) ≡ (a || (b || c))
    again a b c h = ground arith

    swap : (a b c : Bool) → (a || (b || c)) ≡ (b || (a || c))
    swap a b c = ground arith

has-sorted_keys : (z : String) (xs : List String) → has z (sorted_keys xs) ≡ has z xs
unfolding sorted_keys
has-sorted_keys z [] = refl
has-sorted_keys z (x ∷ xs) =
    has-insert_key z x (sorted_keys xs) ∙ ap (λ b. (x == z) || b) (has-sorted_keys z xs)

module _ (f : Seen → List String) (g : FileMeta → List String)
    (same : (s : Seen) → g (file_meta s) ≡ sorted_keys (f s)) where
  has-all_of :
      (z : String) (ss : List Seen)
      → has z (sorted_keys (all_of f ss)) ≡ any (λ m. has z (g m)) (map file_meta ss)
  has-all_of z ss = has-sorted_keys z (all_of f ss) ∙ go ss
    where
      go : (ss : List Seen) → has z (all_of f ss) ≡ any (λ m. has z (g m)) (map file_meta ss)
      go [] = refl
      go (s ∷ ss) =
          any-append (λ k. k == z) (f s) (all_of f ss)
          ∙ rw (go ss) (
              ap (λ b. b || any (λ m. has z (g m)) (map file_meta ss))
                (sym (ap (has z) (same s) ∙ has-sorted_keys z (f s))))

-- The metadata of the tag names `z` as a package, an import or a package that is referred to,
-- exactly if the metadata of one of its files does.
abbrev pub Gathered : String → TagMeta → Type 0
Gathered z meta =
    (has z meta.packages ≡ any (λ m. has z m.packages) meta.files_meta)
    × (has z meta.imports ≡ any (λ m. has z m.imports) meta.files_meta)
    × (has z meta.ref_packages ≡ any (λ m. has z m.ref_packages) meta.files_meta)

-- The metadata that RetrieveMeta returns names a package, an import or a package that is referred
-- to, exactly if the metadata of one of its files does.
pub retrieve_meta_lem :
    (files : List ParsedProtoFile) (meta : TagMeta) (z : String)
    → retrieve_meta files ≡ some meta
    → Gathered z meta
unfolding retrieve_meta
retrieve_meta_lem files meta z h = of (seen_all files) h
  where
    of : (o : Option (List Seen)) → tag_meta_of o ≡ some meta → Gathered z meta
    of none e = absurd (ground arith)
    of (some ss) e =
        let same : gathered_meta ss ≡ meta = ground arith in
        subst (Gathered z) same (
          has-all_of (λ s. s.packages) (λ m. m.packages) (λ s. refl) z ss,
          has-all_of (λ s. s.imports) (λ m. m.imports) (λ s. refl) z ss,
          has-all_of (λ s. s.ref_packages) (λ m. m.ref_packages) (λ s. refl) z ss,
        )
