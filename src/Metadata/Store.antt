-- ===== src/Metadata/Store.antt =====
-- metadataRepo of internal/data/metadata.go. The code does not ask rows.Err(), so a lost connection
-- leaves rows out.
use mathlib.Core.Option
use pbuf_registry.Prelude.{
  ℕ, String, Bool, true, not, ◌==◌, ◌&&◌, nat_eq, string_eq, Option, none, some, List, [], ◌∷◌,
  ◌++◌, map, any, first, select, if◌then◌else◌,
}
use pbuf_registry.Database.Tables.{ProtoFile, TagRow, FileRow, ParsedRow, TagMeta, MetaRow, Db}
use pbuf_registry.Database.Errors.{Result, ok, err, is_no_rows, message, refused, nil_dereference}
use pbuf_registry.Database.Io.{
  scan, Io, pure, raise, execute, query_row, attempt, transaction, ◌>>=◌, ◌>>◌,
}
use pbuf_registry.Drift.Protos.{Proto}
use pbuf_registry.Metadata.Retrieve.{ParsedProtoFile, retrieve_meta}

unfoldable pub get_unprocessed_tag_ids : Io (List ℕ)
get_unprocessed_tag_ids =
    scan λ d. map (λ (t : TagRow). t.id) (select (λ (t : TagRow). not t.is_processed) d.tags)

abbrev pub proto_file : FileRow → ProtoFile
proto_file f = record { filename = f.filename; content = f.content }

unfoldable pub get_proto_files_for_tag_id : ℕ → Io (List ProtoFile)
get_proto_files_for_tag_id tag =
    scan λ d. map proto_file (select (λ (f : FileRow). f.tag_id == tag) d.protofiles)

abbrev pub is_parsed : ℕ → String → ParsedRow → Bool
is_parsed tag name r = r.tag_id == tag && r.filename == name

-- INSERT INTO proto_parsed_data ... ON CONFLICT (tag_id, filename) DO UPDATE SET json = $3
abbrev pub upsert_parsed : ℕ → String → String → List ParsedRow → List ParsedRow
upsert_parsed tag name json rows =
    if any (is_parsed tag name) rows
    then map (λ (r : ParsedRow). if is_parsed tag name r then record r { json = json } else r) rows
    else rows ++ record { tag_id = tag; filename = name; json = json } ∷ []

abbrev pub insert_parsed_row : ℕ → ParsedProtoFile → Io (Unit {0})
insert_parsed_row tag f =
    execute
      λ n d. some (tt, record d { parsed = upsert_parsed tag f.filename f.proto_json d.parsed })

unfoldable pub insert_parsed : ℕ → List ParsedProtoFile → Io (Unit {0})
insert_parsed tag [] = pure tt
insert_parsed tag (f ∷ fs) = do insert_parsed_row tag f; insert_parsed tag fs

-- INSERT INTO tag_meta ... ON CONFLICT (tag_id) DO UPDATE SET meta = $2
abbrev pub upsert_meta : ℕ → TagMeta → List MetaRow → List MetaRow
upsert_meta tag meta rows =
    if any (λ (r : MetaRow). r.tag_id == tag) rows
    then map (λ (r : MetaRow). if r.tag_id == tag then record r { meta = meta } else r) rows
    else rows ++ record { tag_id = tag; meta = meta } ∷ []

-- UPDATE tags SET is_processed = true WHERE id = $1
abbrev pub mark_processed : ℕ → List TagRow → List TagRow
mark_processed tag = map λ (t : TagRow). if t.id == tag then record t { is_processed = true } else t

abbrev pub insert_meta : ℕ → TagMeta → Io (Unit {0})
insert_meta tag meta =
    execute λ n d. some (tt, record d { tag_meta = upsert_meta tag meta d.tag_meta })

abbrev pub update_processed : ℕ → Io (Unit {0})
update_processed tag = execute λ n d. some (tt, record d { tags = mark_processed tag d.tags })

unfoldable pub save_rows : ℕ → List ParsedProtoFile → TagMeta → Io (Unit {0})
save_rows tag files meta = do insert_parsed tag files; insert_meta tag meta; update_processed tag

unfoldable pub save_with : ℕ → List ParsedProtoFile → Option TagMeta → Io (Unit {0})
save_with tag files none = raise nil_dereference
save_with tag files (some meta) = transaction refused refused (save_rows tag files meta)

-- RetrieveMeta returns no error.
unfoldable pub save_parsed_proto_files : ℕ → List ParsedProtoFile → Io (Unit {0})
save_parsed_proto_files tag files = save_with tag files (retrieve_meta files)

abbrev pub meta_of : ℕ → Db → Option TagMeta
meta_of tag d =
    Option.map (λ (r : MetaRow). r.meta) (first (λ (r : MetaRow). r.tag_id == tag) d.tag_meta)

unfoldable pub meta_found : Result TagMeta → Io (Option TagMeta)
meta_found (ok meta) = pure (some meta)
meta_found (err e) = if is_no_rows e then pure none else raise e

unfoldable pub get_tag_meta_by_tag_id : ℕ → Io (Option TagMeta)
get_tag_meta_by_tag_id tag = do r ← attempt (query_row (meta_of tag)); meta_found r

module _ (unmarshal : String → Option (Option Proto)) where
  abbrev pub put_decoded :
      ParsedRow
      → Option (Option Proto)
      → Option (List ParsedProtoFile)
      → Option (List ParsedProtoFile)
  put_decoded r none files = none
  put_decoded r (some p) none = none
  put_decoded r (some p) (some files) =
      some (record { filename = r.filename; proto = p; proto_json = "" } ∷ files)

  abbrev pub decode_rows : List ParsedRow → Option (List ParsedProtoFile)
  decode_rows [] = some []
  decode_rows (r ∷ rs) = put_decoded r (unmarshal r.json) (decode_rows rs)

  unfoldable pub decoded_files : Option (List ParsedProtoFile) → Io (List ParsedProtoFile)
  decoded_files none = raise (message "error unmarshaling json")
  decoded_files (some files) = pure files

  unfoldable pub get_parsed_proto_files : ℕ → Io (List ParsedProtoFile)
  get_parsed_proto_files tag = do
    rows ← scan (λ d. select (λ (r : ParsedRow). r.tag_id == tag) d.parsed)
    decoded_files (decode_rows rows)
