-- ===== src/Drift/Store.antt =====
-- What detectDrift reads: GetTagInfo, GetPreviousTagID and GetFileHashesForTag of
-- internal/data/drift.go, and GetParsedProtoFiles of internal/data/metadata.go. `unmarshal_proto`
-- is json.Unmarshal into a *unordered.Proto, which is nil for the JSON null.
use mathlib.Core.Option
use pbuf_registry.Prelude.{
  ℕ, String, not, ◌&&◌, ◌==◌, nat_eq, string_eq, ltb, Option, none, some, List, [], ◌∷◌, first,
  select, if◌then◌else◌,
}
use pbuf_registry.Database.Tables.{TagRow, FileRow, ParsedRow, Db}
use pbuf_registry.Database.Errors.{Result, ok, err, is_no_rows, message}
use pbuf_registry.Database.Io.{scan, Io, pure, raise, query, query_row, attempt, ◌>>=◌}
use pbuf_registry.Database.Queries.{order_desc}
use pbuf_registry.Drift.Maps.{Map, put}
use pbuf_registry.Drift.Protos.{Proto}

unfoldable pub get_tag_info : ℕ → Io (ℕ × String)
get_tag_info tag = query_row λ d.
    Option.map (λ (t : TagRow). (t.module_id, t.tag)) (first (λ (t : TagRow). t.id == tag) d.tags)

abbrev pub head : {A : Type 0} → List A → Option A
head [] = none
head (x ∷ xs) = some x

-- WHERE module_id = $1 AND id != $2 AND updated_at < $3 ORDER BY updated_at DESC LIMIT 1
abbrev pub previous_tag : ℕ → ℕ → ℕ → Db → Option ℕ
previous_tag m tag time d =
    Option.map (λ (t : TagRow). t.id)
      (head (
        order_desc (λ (t : TagRow). t.updated_at)
          (select (λ (t : TagRow). t.module_id == m && not (t.id == tag) && ltb t.updated_at time)
            d.tags)))

-- `none` is the empty id of a first version.
unfoldable pub previous_found : Result ℕ → Io (Option ℕ)
previous_found (ok t) = pure (some t)
previous_found (err e) = if is_no_rows e then pure none else raise e

unfoldable pub get_previous_tag_id : ℕ → ℕ → Io (Option ℕ)
get_previous_tag_id m tag = do
  time ←
      query_row (λ d.
        Option.map (λ (t : TagRow). t.updated_at) (first (λ (t : TagRow). t.id == tag) d.tags))
  found ← attempt (query_row (previous_tag m tag time))
  previous_found found

-- files[filename] = hash for the rows of the tag that have a hash
abbrev pub put_hash : FileRow → Map String → Map String
put_hash f files = elim f.content_hash [ some h ↦ put f.filename h files | none ↦ files ]

abbrev pub hashes : ℕ → List FileRow → Map String → Map String
hashes tag [] files = files
hashes tag (f ∷ fs) files = hashes tag fs (if f.tag_id == tag then put_hash f files else files)

unfoldable pub get_file_hashes_for_tag : ℕ → Io (Map String)
get_file_hashes_for_tag tag = query λ d. hashes tag d.protofiles []

module _ (unmarshal_proto : String → Option (Option Proto)) where
  abbrev pub decode_all : List ParsedRow → Map (Option Proto) → Option (Map (Option Proto))
  decode_all [] files = some files
  decode_all (r ∷ rs) files = elim (unmarshal_proto r.json) [
    | some p ↦ decode_all rs (put r.filename p files)
    | none ↦ none
  ]

  abbrev pub decoded_rows : Option (Map (Option Proto)) → Io (Map (Option Proto))
  decoded_rows none = raise (message "error unmarshaling json")
  decoded_rows (some m) = pure m

  -- getParsedProtoMap, with GetParsedProtoFiles in it
  unfoldable pub get_parsed_proto_map : ℕ → Io (Map (Option Proto))
  get_parsed_proto_map tag = do
    rows ← scan (λ d. select (λ (r : ParsedRow). r.tag_id == tag) d.parsed)
    decoded_rows (decode_all rows [])
