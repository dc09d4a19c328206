-- ===== src/Drift/Hashed.antt =====
-- ComputeAndStoreHashes hashes every file of the tag that has no hash, or changes nothing.
use pbuf_registry.Prelude.{ℕ, String, Bool, some, List, [], ◌∷◌, ◌==◌, nat_eq, if◌then◌else◌}
use pbuf_registry.Database.Tables.{FileRow, Db}
use pbuf_registry.Drift.Hashes.{is_unhashed, set_hash}

abbrev pub same_id : FileRow → FileRow → Bool
same_id f g = f.id == g.id

module _ (sha256_hex : String → String) where
  abbrev pub with_hash : FileRow → FileRow
  with_hash f = record f { content_hash = some (sha256_hex f.content) }

  -- What is stored of a file after the hashes of the tag have been computed
  abbrev pub hashed : ℕ → FileRow → FileRow
  hashed tag f = if is_unhashed tag f then with_hash f else f

  abbrev set_hashes : List FileRow → List FileRow → List FileRow
  set_hashes [] rows = rows
  set_hashes (f ∷ fs) rows = set_hashes fs (set_hash (sha256_hex f.content) f.id rows)

  abbrev with_files : Db → List FileRow → Db
  with_files d rows = record d { protofiles = rows }
