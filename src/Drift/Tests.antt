-- ===== src/Drift/Tests.antt =====
-- Drift at concrete files.
use pbuf_registry.Prelude.{String, Bool, false, Option, none, some, ◌≡◌, refl, List, [], ◌∷◌}
use pbuf_registry.Database.Tables.{info, warning, critical}
use pbuf_registry.Database.Total.{Surely}
use pbuf_registry.Drift.Maps.{Map}
use pbuf_registry.Drift.Numbers.{
  negsuc, parse_proto_number, digits_from, field_key, format_int, show_digits,
}
use pbuf_registry.Drift.Protos.{Field, message, nil, cons, Proto, ProtoBody}
use pbuf_registry.Drift.Extract.{
  extract_messages, extract_services, extract_enums, extract_fields_by_number, extract_rpc_details,
  extract_enum_values_by_number, put_message, put_message_fields, count_required_fields,
}
use pbuf_registry.Drift.Severity.{
  body_breaks, body_may_break, has_breaking_changes, has_potentially_breaking_changes,
  determine_severity,
}
use pbuf_registry.Drift.Versions.{determine_severity-same}
use pbuf_registry.Drift.Detect.{compare_files}
use pbuf_registry.Drift.Detected.{Compared, compare_files-Surely}

abbrev field : String → String → String → Field
field name number type = record {
  name = name;
  number = number;
  type = type;
  is_required = false;
  is_repeated = false;
  is_optional = false;
  options = [];
}

abbrev body : List Field → ProtoBody
body fields = record {
  packages = "pay" ∷ [];
  imports = [];
  options = [];
  messages =
      cons
        (message "Bill"
          (record { fields = fields; maps = []; oneofs = []; enums = []; options = [] }) nil)
        nil;
  services = [];
  enums = [];
}

abbrev v1 : ProtoBody
v1 = body (field "id" "1" "string" ∷ [])

abbrev v2 : ProtoBody
v2 = body (field "id" "1" "string" ∷ field "sum" "2" "int64" ∷ [])

abbrev v3 : ProtoBody
v3 = body (field "key" "1" "string" ∷ field "sum" "2" "int64" ∷ field "day" "3" "int32" ∷ [])

abbrev file : ProtoBody → Proto
file b = record { body = some b }

-- Opens what a test runs.
opened : ProtoBody → ProtoBody → Bool
unfolding body_breaks body_may_break has_breaking_changes has_potentially_breaking_changes
    determine_severity extract_messages extract_services extract_enums extract_fields_by_number
    extract_rpc_details extract_enum_values_by_number put_message put_message_fields
    count_required_fields parse_proto_number digits_from field_key format_int show_digits
opened p q = body_breaks p q

parsed : parse_proto_number "-2147483648" ≡ some (negsuc 2147483647)
unfolding opened
parsed = refl

shown : field_key "a.B" (negsuc 2147483647) ≡ "a.B#-2147483648"
unfolding opened
shown = refl

grown : body_breaks v1 v2 ≡ false
unfolding opened
grown = refl

grown_more : body_breaks v2 v3 ≡ false
unfolding opened
grown_more = refl

shrunk : determine_severity (some (file v2)) (some (file v1)) ≡ critical
unfolding opened
shrunk = refl

renamed_field : determine_severity (some (file v2)) (some (file v3)) ≡ warning
unfolding opened
renamed_field = refl

determine_severity-same_example : determine_severity (some (file v2)) (some (file v2)) ≡ info
determine_severity-same_example = determine_severity-same (file v2)

abbrev unreadable : String → Option (Option Proto)
unreadable json = none

abbrev old_files : Map String
old_files = ("a.proto", "1") ∷ ("b.proto", "2") ∷ []

abbrev new_files : Map String
new_files = ("a.proto", "1") ∷ ("b.proto", "3") ∷ ("c.proto", "4") ∷ []

compare_files-Surely_example :
    Surely
      (Compared unreadable 1 8 7 0 old_files new_files
        (record { current = none; previous = none }, [], []))
      (compare_files unreadable 1 8 7 0 old_files new_files
        (record { current = none; previous = none }, [], []))
compare_files-Surely_example =
    compare_files-Surely unreadable 1 8 7 0 old_files new_files
      (record { current = none; previous = none }, [], [])
