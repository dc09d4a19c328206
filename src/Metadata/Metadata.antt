-- ===== src/Metadata/Metadata.antt =====
-- ToMetadata of internal/utils/metadata.go: the files of a tag by package. `none` is a panic.
use mathlib.Core.Option
use pbuf_registry.Prelude.{
  String, ◌==◌, string_eq, Option, none, some, List, [], ◌∷◌, ◌++◌, if◌then◌else◌,
}
use pbuf_registry.Drift.Protos.{Proto, ProtoBody}
use pbuf_registry.Metadata.Texts.{is_before}
use pbuf_registry.Metadata.Retrieve.{ParsedProtoFile}
use pbuf_registry.Metadata.Packages.{V1Messages, V1Service, retrieve_messages, retrieve_services}

-- v1.ParsedProtoFile
pub record V1ParsedProtoFile : Type 0 where
  pub filename : String
  pub messages : V1Messages
  pub services : List V1Service

-- v1.Package
pub record Package : Type 0 where
  pub name : String
  pub proto_files : List V1ParsedProtoFile

-- packagesMap[name].ProtoFiles = append(packagesMap[name].ProtoFiles, file), with a package that is
-- not there yet put in first; the packages stand in the order of their names, which the code gives
-- them in the end.
unfoldable pub add_file : String → V1ParsedProtoFile → List Package → List Package
add_file name f [] = record { name = name; proto_files = f ∷ [] } ∷ []
add_file name f (p ∷ ps) =
    let rest = add_file name f ps in
    if p.name == name
    then record p { proto_files = p.proto_files ++ f ∷ [] } ∷ ps
    else if is_before name p.name
    then record { name = name; proto_files = f ∷ [] } ∷ p ∷ ps
    else p ∷ rest

-- The packages of one file
unfoldable pub add_to_all : List String → V1ParsedProtoFile → List Package → List Package
add_to_all [] f ps = ps
add_to_all (name ∷ names) f ps = add_to_all names f (add_file name f ps)

abbrev pub file_of : String → Option V1Messages → Option (List V1Service) → Option V1ParsedProtoFile
file_of name none ss = none
file_of name (some ms) none = none
file_of name (some ms) (some ss) = some (record { filename = name; messages = ms; services = ss })

-- The packages of the file, each with the file: a file of no package is not looked into.
abbrev pub add_body : List String → Option V1ParsedProtoFile → List Package → Option (List Package)
add_body [] o ps = some ps
add_body (name ∷ names) none ps = none
add_body (name ∷ names) (some f) ps = some (add_to_all (name ∷ names) f ps)

abbrev pub parsed_file : String → ProtoBody → Option V1ParsedProtoFile
parsed_file filename b =
    file_of filename (retrieve_messages b.messages) (retrieve_services b.services)

abbrev pub add_optional : String → Option ProtoBody → List Package → Option (List Package)
add_optional filename none ps = none
add_optional filename (some b) ps = add_body b.packages (parsed_file filename b) ps

abbrev pub add_parsed : String → Option Proto → List Package → Option (List Package)
add_parsed filename none ps = none
add_parsed filename (some p) ps = add_optional filename p.body ps

abbrev pub add_files : List ParsedProtoFile → List Package → Option (List Package)
add_files [] ps = some ps
add_files (f ∷ fs) ps = Option.bind (add_parsed f.filename f.proto ps) (λ ps'. add_files fs ps')

unfoldable pub to_metadata : List ParsedProtoFile → Option (List Package)
to_metadata files = add_files files []
