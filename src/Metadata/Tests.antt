-- ===== src/Metadata/Tests.antt =====
-- The parsing of two tags in a small database.
use Prim.Native.String.{String}
use pbuf_registry.Prelude.{ℕ, true, false, Bool, none, some, ◌≡◌, refl, [], ◌∷◌, all, string_eq}
use pbuf_registry.Database.Tables.{TagRow, FileRow, TagMeta, empty_db}
use pbuf_registry.Database.Errors.{ok}
use pbuf_registry.Database.Io.{World}
use pbuf_registry.Drift.Numbers.{pos, negsuc, digits_from, parse_proto_number}
use pbuf_registry.Drift.Protos.{Field, message, nil, cons, Proto}
use pbuf_registry.Metadata.Texts.{upto, before_last, trim_left, trim_right, insert_key, sorted_keys}
use pbuf_registry.Metadata.Refs.{get_ref_package_name, message_refs, body_refs}
use pbuf_registry.Metadata.Retrieve.{ParsedProtoFile, retrieve_meta}
use pbuf_registry.Metadata.Packages.{atoi, int32, field_tag}
use pbuf_registry.Metadata.Parsers.{Parser, parse_file, parse_proto_files_contents}
use pbuf_registry.Metadata.Daemons.{run_parsing}
use pbuf_registry.Metadata.Processed.{AllReadable, ids_left}
use pbuf_registry.Metadata.Runs.{run_parsing-processes}
use pbuf_registry.Metadata.Gathered.{Gathered, retrieve_meta_lem}
use pbuf_registry.Metadata.Bounds.{field_tag-parse_proto_number}

abbrev field : Field
field = record {
  name = "owner";
  number = "1";
  type = "acme.users.User";
  is_required = false;
  is_repeated = false;
  is_optional = false;
  options = "(validate.rules).string" ∷ [];
}

abbrev bill : Proto
bill = record {
  body = some (record {
    packages = "acme.pay" ∷ [];
    imports = "\"acme/users.proto\"" ∷ [];
    options = "go_package" ∷ [];
    messages =
        cons
          (message "Bill"
            (record { fields = field ∷ []; maps = []; oneofs = []; enums = []; options = [] }) nil)
          nil;
    services = [];
    enums = [];
  });
}

-- A parser for which every text is the same file
abbrev parser : Parser String
parser = record {
  parse = λ s. ok s;
  interpret = λ s. ok (some bill);
  marshal = λ p. ok "{}";
  unmarshal = λ s. some (some bill);
}

abbrev tag_row : ℕ → Bool → TagRow
tag_row id done = record { id = id; module_id = 0; tag = "v"; updated_at = id; is_processed = done }

abbrev file_row : ℕ → ℕ → FileRow
file_row id tag = record {
  id = id;
  tag_id = tag;
  filename = "bill.proto";
  content = "message Bill {}";
  content_hash = none;
}

abbrev stocked : World
stocked = record {
  db = record empty_db {
    tags = tag_row 1 true ∷ tag_row 2 false ∷ tag_row 3 false ∷ [];
    protofiles = file_row 4 1 ∷ file_row 5 2 ∷ file_row 6 3 ∷ [];
  };
  answers = λ n. record {
    fails = false;
    uuid = n;
    now = n;
    salt = "";
    uuids = λ i. i;
    cut = none;
    order = λ i. 0;
  };
  turn = 7;
}

abbrev parsed_bill : ParsedProtoFile
parsed_bill = record { filename = "bill.proto"; proto = some bill; proto_json = "{}" }

abbrev bill_meta : TagMeta
bill_meta = record {
  packages = "acme.pay" ∷ [];
  imports = "acme/users.proto" ∷ [];
  ref_packages = "acme.users" ∷ "validate" ∷ [];
  files_meta =
      record {
        filename = "bill.proto";
        packages = "acme.pay" ∷ [];
        imports = "acme/users.proto" ∷ [];
        ref_packages = "acme.users" ∷ "validate" ∷ [];
      }
      ∷ [];
}

-- Opens what a test runs.
opened : ℕ → ℕ
unfolding upto before_last trim_left trim_right insert_key sorted_keys get_ref_package_name
    message_refs body_refs retrieve_meta atoi int32 field_tag parse_file parse_proto_files_contents
    digits_from parse_proto_number
opened n = n

bill_retrieved : retrieve_meta (parsed_bill ∷ []) ≡ some bill_meta
unfolding opened
bill_retrieved = refl

retrieve_meta_lem_example : Gathered "acme.users" bill_meta
retrieve_meta_lem_example =
    retrieve_meta_lem (parsed_bill ∷ []) bill_meta "acme.users" bill_retrieved

stocked-AllReadable : AllReadable parser stocked.db (ids_left stocked.db.tags)
unfolding opened
stocked-AllReadable =
    ((parsed_bill ∷ [], bill_meta, refl, refl), ((parsed_bill ∷ [], bill_meta, refl, refl), tt))

abbrev sha : String → String
sha s = s

run_parsing-processes_example :
    ((run_parsing sha parser stocked).0 ≡ ok tt)
    × (all (λ (t : TagRow). t.is_processed) (run_parsing sha parser stocked).1.db.tags ≡ true)
run_parsing-processes_example =
    run_parsing-processes sha parser stocked (λ n. (refl, refl)) stocked-AllReadable

wrapped_tag : field_tag "4294967297" ≡ pos 1
unfolding opened
wrapped_tag = refl

least : parse_proto_number "-2147483648" ≡ some (negsuc 2147483647)
unfolding opened
least = refl

field_tag-parse_proto_number_example : field_tag "-2147483648" ≡ negsuc 2147483647
field_tag-parse_proto_number_example =
    field_tag-parse_proto_number "-2147483648" (negsuc 2147483647) least
