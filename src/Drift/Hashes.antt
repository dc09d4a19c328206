-- ===== src/Drift/Hashes.antt =====
-- The content hashes of internal/data/drift.go: GetTagsWithoutHashes, ComputeAndStoreHashes and
-- GetProtoFileContents. `sha256_hex` is the hexadecimal SHA-256 of a text, that is, computeHash.
use pbuf_registry.Prelude.{
  ℕ, String, Bool, true, false, ◌&&◌, ◌==◌, nat_eq, Option, none, some, List, [], ◌∷◌, select, any,
  if◌then◌else◌,
}
use pbuf_registry.Database.Tables.{FileRow}
use pbuf_registry.Database.Errors.{refused}
use pbuf_registry.Database.Io.{Io, pure, execute, query, transaction, ◌>>=◌, ◌>>◌}
use pbuf_registry.Drift.Maps.{Map, put}

-- content_hash IS NULL
abbrev pub is_null : Option String → Bool
is_null none = true
is_null (some h) = false

-- SELECT DISTINCT
abbrev pub distinct_ids : List FileRow → List ℕ
distinct_ids [] = []
distinct_ids (f ∷ fs) =
    let rest = distinct_ids fs in if any (λ t. t == f.tag_id) rest then rest else f.tag_id ∷ rest

unfoldable pub get_tags_without_hashes : Io (List ℕ)
get_tags_without_hashes =
    query λ d. distinct_ids (select (λ (f : FileRow). is_null f.content_hash) d.protofiles)

abbrev pub contents : ℕ → List FileRow → Map String → Map String
contents tag [] files = files
contents tag (f ∷ fs) files =
    contents tag fs (if f.tag_id == tag then put f.filename f.content files else files)

unfoldable pub get_proto_file_contents : ℕ → Io (Map String)
get_proto_file_contents tag = query λ d. contents tag d.protofiles []

-- UPDATE protofiles SET content_hash = $1 WHERE id = $2
abbrev pub set_hash : String → ℕ → List FileRow → List FileRow
set_hash hash id [] = []
set_hash hash id (f ∷ fs) =
    (if f.id == id then record f { content_hash = some hash } else f) ∷ set_hash hash id fs

-- The rows of a tag that have no hash
abbrev pub is_unhashed : ℕ → FileRow → Bool
is_unhashed tag f = f.tag_id == tag && is_null f.content_hash

module _ (sha256_hex : String → String) where
  abbrev pub update_hash : FileRow → Io (Unit {0})
  update_hash f =
      execute λ n d.
        some (tt, record d { protofiles = set_hash (sha256_hex f.content) f.id d.protofiles })

  unfoldable pub update_hashes : List FileRow → Io (Unit {0})
  update_hashes [] = pure tt
  update_hashes (f ∷ fs) = do update_hash f; update_hashes fs

  unfoldable pub hash_files : ℕ → Io (Unit {0})
  hash_files tag = do
    files ← query (λ d. select (is_unhashed tag) d.protofiles)
    update_hashes files

  unfoldable pub compute_and_store_hashes : ℕ → Io (Unit {0})
  compute_and_store_hashes tag = transaction refused refused (hash_files tag)
