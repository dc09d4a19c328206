-- ===== src/Metadata/Processed.antt =====
-- What a run of the parsing daemon achieves against a database that answers every statement.
use pbuf_registry.Prelude.{
  ℕ, Bool, true, not, ◌||◌, ◌≡◌, refl, ◌∙◌, ap, some, List, [], ◌∷◌, map, any, all, all_mono,
  select, Bool-cases, inl, inr, ◌==◌, ==_iff, ==_refl, nat_eq, arith,
}
use pbuf_registry.Database.Tables.{ProtoFile, TagRow, FileRow, TagMeta, Db}
use pbuf_registry.Database.Errors.{Result, ok}
use pbuf_registry.Database.Quiet.{
  Serves, Serves-pure, Serves-execute, Serves-scan, Serves-transaction, Serves-attempt, Serves-bind,
}
use pbuf_registry.Metadata.Retrieve.{ParsedProtoFile, retrieve_meta}
use pbuf_registry.Metadata.Parsers.{Parser, parse_proto_files_contents}
use pbuf_registry.Metadata.Store.{
  proto_file, get_proto_files_for_tag_id, insert_parsed, save_rows, save_with, mark_processed,
  save_parsed_proto_files,
}
use pbuf_registry.Metadata.Daemons.{process_tag, process_tags, save_files}

abbrev pub files_of : ℕ → Db → List ProtoFile
files_of tag d = map proto_file (select (λ (f : FileRow). f.tag_id == tag) d.protofiles)

-- Every tag is processed, but those of the list.
abbrev pub LeftIn : List ℕ → Db → Type 0
LeftIn ts d = all (λ (t : TagRow). t.is_processed || any (λ i. i == t.id) ts) d.tags ≡ true

abbrev pub ids_left : List TagRow → List ℕ
ids_left tags = map (λ (t : TagRow). t.id) (select (λ (t : TagRow). not t.is_processed) tags)

abbrev pub done_or_in : List ℕ → TagRow → Bool
done_or_in ts t = t.is_processed || any (λ i. i == t.id) ts

pub ids_left-all : (tags : List TagRow) → all (done_or_in (ids_left tags)) tags ≡ true
ids_left-all [] = refl
ids_left-all (t ∷ ts) =
    let later : all (done_or_in (ids_left (t ∷ ts))) ts ≡ true =
      all_mono (done_or_in (ids_left ts)) (done_or_in (ids_left (t ∷ ts))) ts (more t ts)
        (ids_left-all ts) in
    elim (Bool-cases t.is_processed) [ inl b ↦ ground arith | inr b ↦ ground (arith, ==_refl t.id) ]
  where
    more :
        (t : TagRow) (ts : List TagRow) (u : TagRow)
        → done_or_in (ids_left ts) u ≡ true
        → done_or_in (ids_left (t ∷ ts)) u ≡ true
    more t ts u h = ground arith

mark_processed-all :
    (t : ℕ) (ts : List ℕ) (tags : List TagRow)
    → all (λ (u : TagRow). u.is_processed || any (λ i. i == u.id) (t ∷ ts)) tags ≡ true
    → all (λ (u : TagRow). u.is_processed || any (λ i. i == u.id) ts) (mark_processed t tags) ≡ true
mark_processed-all t ts [] h = refl
mark_processed-all t ts (u ∷ us) h =
    ground (arith, mark_processed-all t ts us, ==_iff t u.id, ==_iff u.id t)

module _ {Ast : Type 0} (parser : Parser Ast) (d0 : Db) where
  -- The files of the tag parse, and no body in them is nil.
  abbrev pub Readable : ℕ → Type 0
  Readable tag =
      (ps : List ParsedProtoFile) × (meta : TagMeta) × (parse_proto_files_contents parser
          (files_of tag d0)
        ≡ ok ps)
      × (retrieve_meta ps ≡ some meta)

  abbrev pub AllReadable : List ℕ → Type 0
  AllReadable [] = Unit {0}
  AllReadable (t ∷ ts) = Readable t × AllReadable ts

  -- The files are those of the start.
  abbrev pub Left : List ℕ → Db → Type 0
  Left ts d = LeftIn ts d × (d.protofiles ≡ d0.protofiles)

  insert_parsed-Serves :
      (ts : List ℕ) (tag : ℕ) (fs : List ParsedProtoFile)
      → Serves (Left ts) (insert_parsed tag fs) (λ _. Left ts)
  unfolding insert_parsed
  insert_parsed-Serves ts tag [] = Serves-pure tt (λ d h. h)
  insert_parsed-Serves ts tag (f ∷ fs) =
      Serves-bind _ _ (Serves-execute {Q = λ _. Left ts} _ λ n d h. (tt, _, refl, h))
        λ _. insert_parsed-Serves ts tag fs

  save_rows-Serves :
      (t : ℕ) (ts : List ℕ) (fs : List ParsedProtoFile) (meta : TagMeta)
      → Serves (Left (t ∷ ts)) (save_rows t fs meta) (λ _. Left ts)
  unfolding save_rows
  save_rows-Serves t ts fs meta = Serves-bind _ _ (insert_parsed-Serves (t ∷ ts) t fs) λ _.
      Serves-bind _ _ (Serves-execute {Q = λ _. Left (t ∷ ts)} _ λ n d h. (tt, _, refl, h))
        λ _. Serves-execute _ λ n d h. (tt, _, refl, (mark_processed-all t ts d.tags h.0, h.1))

  process_tag-Serves :
      (t : ℕ) (ts : List ℕ) (done : List ℕ) (r : Result (List ProtoFile))
      → Readable t
      → r ≡ ok (files_of t d0)
      → Serves (Left (t ∷ ts)) (process_tag parser t r done) (λ _. Left ts)
  unfolding process_tag save_files save_parsed_proto_files save_with
  process_tag-Serves t ts done r (ps, meta, parsed, found) e =
      rw (e, process_tag)
        (rw (parsed, save_files)
          (rw (found, save_with)
            (Serves-bind _ _ (Serves-transaction _ _ _ (save_rows-Serves t ts ps meta))
              λ _. Serves-pure _ (λ d h. h))))

  pub process_tags-Serves :
      (ts done : List ℕ)
      → AllReadable ts
      → Serves (Left ts) (process_tags parser ts done) (λ _. Left [])
  unfolding process_tags get_proto_files_for_tag_id
  process_tags-Serves [] done k = Serves-pure done (λ d h. h)
  process_tags-Serves (t ∷ ts) done k =
      Serves-bind _ _
        (Serves-attempt _ (
          Serves-scan {Q = λ fs d. (fs ≡ files_of t d0) × Left (t ∷ ts) d} _
            λ d h. (ap (λ x. map proto_file (select (λ (f : FileRow). f.tag_id == t) x)) (h.1), h)))
        λ r.
          Serves-bind _ _
            (record {
              at = λ w q h.
                  let (fs, e, (same, left)) = h in
                  (process_tag-Serves t ts done r k.0 (e ∙ ap ok same)).at w q left;
            })
            λ done'. process_tags-Serves ts done' k.1
