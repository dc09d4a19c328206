-- ===== src/Metadata/Retrieve.antt =====
-- RetrieveMeta of internal/utils/meta.go. `none` is a panic.
use pbuf_registry.Prelude.{
  String, not, ◌==◌, string_eq, Option, none, some, List, [], ◌∷◌, ◌++◌, map, select,
}
use pbuf_registry.Database.Tables.{FileMeta, TagMeta}
use pbuf_registry.Drift.Protos.{Proto, ProtoBody}
use pbuf_registry.Metadata.Texts.{trim, is_quote, sorted_keys}
use pbuf_registry.Metadata.Refs.{body_refs}

-- model.ParsedProtoFile; `none` is a nil Proto.
pub record ParsedProtoFile : Type 0 where
  pub filename : String
  pub proto : Option Proto
  pub proto_json : String

-- The keys that one file puts into the three sets
pub record Seen : Type 0 where
  pub filename : String
  pub packages : List String
  pub imports : List String
  pub ref_packages : List String

abbrev pub seen_in : String → ProtoBody → Option (List String) → Option Seen
seen_in name b none = none
seen_in name b (some refs) = some (record {
  filename = name;
  packages = b.packages;
  imports = map (trim is_quote) b.imports;
  ref_packages = select (λ r. not (r == "")) refs;
})

abbrev pub seen_body : String → Option ProtoBody → Option Seen
seen_body name none = none
seen_body name (some b) = seen_in name b (body_refs b)

abbrev pub seen : String → Option Proto → Option Seen
seen name none = none
seen name (some p) = seen_body name p.body

abbrev pub put_first : Option Seen → Option (List Seen) → Option (List Seen)
put_first none ss = none
put_first (some s) none = none
put_first (some s) (some ss) = some (s ∷ ss)

abbrev pub seen_all : List ParsedProtoFile → Option (List Seen)
seen_all [] = some []
seen_all (f ∷ fs) = put_first (seen f.filename f.proto) (seen_all fs)

abbrev pub file_meta : Seen → FileMeta
file_meta s = record {
  filename = s.filename;
  packages = sorted_keys s.packages;
  imports = sorted_keys s.imports;
  ref_packages = sorted_keys s.ref_packages;
}

abbrev pub all_of : (Seen → List String) → List Seen → List String
all_of f [] = []
all_of f (s ∷ ss) = f s ++ all_of f ss

abbrev pub gathered_meta : List Seen → TagMeta
gathered_meta ss = record {
  packages = sorted_keys (all_of (λ s. s.packages) ss);
  imports = sorted_keys (all_of (λ s. s.imports) ss);
  ref_packages = sorted_keys (all_of (λ s. s.ref_packages) ss);
  files_meta = map file_meta ss;
}

abbrev pub tag_meta_of : Option (List Seen) → Option TagMeta
tag_meta_of none = none
tag_meta_of (some ss) = some (gathered_meta ss)

unfoldable pub retrieve_meta : List ParsedProtoFile → Option TagMeta
retrieve_meta files = tag_meta_of (seen_all files)
