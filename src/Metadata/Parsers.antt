-- ===== src/Metadata/Parsers.antt =====
-- ParseProtoFilesContents of internal/utils/parsers.go and ValidateProtoFiles of
-- internal/utils/checkers.go. The parser is a record of the functions of go-protoparser and
-- encoding/json that they call.
use Prim.Native.String.{String}
use pbuf_registry.Prelude.{
  ◌==◌, string_eq, Option, none, some, List, [], ◌∷◌, concat, if◌then◌else◌,
}
use pbuf_registry.Database.Tables.{ProtoFile}
use pbuf_registry.Database.Errors.{Error, message, wrapped, Result, ok, err}
use pbuf_registry.Drift.Protos.{Proto}
use pbuf_registry.Metadata.Retrieve.{ParsedProtoFile}

-- protoparser.Parse, unordered.InterpretProto, json.Marshal and json.Unmarshal into an
-- *unordered.Proto, which is nil for the JSON null
pub record Parser (Ast : Type 0) : Type 0 where
  pub parse : String → Result Ast
  pub interpret : Ast → Result (Option Proto)
  pub marshal : Option Proto → Result String
  pub unmarshal : String → Option (Option Proto)

-- fmt.Errorf("invalid proto file %s: %w", filename, err) and the like
abbrev pub wrapped_for : String → String → Error → Error
wrapped_for what filename e = wrapped (concat (what ∷ " " ∷ filename ∷ [])) e

abbrev pub empty_content : String → Error
empty_content filename = message (concat ("content of " ∷ filename ∷ " cannot be empty" ∷ []))

module _ {Ast : Type 0} (parser : Parser Ast) where
  abbrev pub marshalled : ProtoFile → Option Proto → Result String → Result ParsedProtoFile
  marshalled f p (err e) = err (wrapped_for "cannot marshall" f.filename e)
  marshalled f p (ok json) = ok (record { filename = f.filename; proto = p; proto_json = json })

  abbrev pub interpreted : ProtoFile → Result (Option Proto) → Result ParsedProtoFile
  interpreted f (err e) = err (wrapped_for "cannot interpret file" f.filename e)
  interpreted f (ok p) = marshalled f p (parser.marshal p)

  abbrev pub parsed : ProtoFile → Result Ast → Result ParsedProtoFile
  parsed f (err e) = err (wrapped_for "invalid proto file" f.filename e)
  parsed f (ok ast) = interpreted f (parser.interpret ast)

  unfoldable pub parse_file : ProtoFile → Result ParsedProtoFile
  parse_file f =
      if f.content == "" then err (empty_content f.filename) else parsed f (parser.parse f.content)

  abbrev pub then_file :
      Result ParsedProtoFile → Result (List ParsedProtoFile) → Result (List ParsedProtoFile)
  then_file (err e) rest = err e
  then_file (ok p) (err e) = err e
  then_file (ok p) (ok ps) = ok (p ∷ ps)

  -- The files that were parsed before an error are returned with it, but no caller uses them.
  unfoldable pub parse_proto_files_contents : List ProtoFile → Result (List ParsedProtoFile)
  parse_proto_files_contents [] = ok []
  parse_proto_files_contents (f ∷ fs) = then_file (parse_file f) (parse_proto_files_contents fs)

  abbrev pub invalid : ProtoFile → Result Ast → Option Error
  invalid f (err e) = some (wrapped_for "invalid proto file" f.filename e)
  invalid f (ok ast) = none

  abbrev pub file_error : ProtoFile → Option Error
  file_error f =
      if f.filename == ""
      then some (message "filename cannot be empty")
      else if f.content == ""
      then some (empty_content f.filename)
      else invalid f (parser.parse f.content)

  abbrev pub or_next : Option Error → Option Error → Option Error
  or_next (some e) next = some e
  or_next none next = next

  -- ValidateProtoFiles: `none` is nil.
  unfoldable pub validate_proto_files : List ProtoFile → Option Error
  validate_proto_files [] = none
  validate_proto_files (f ∷ fs) = or_next (file_error f) (validate_proto_files fs)
