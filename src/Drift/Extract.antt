-- ===== src/Drift/Extract.antt =====
-- The elements of a parsed file, as maps: the extract functions of driftdetection.go.
use pbuf_registry.Prelude.{
  ℕ, suc, ◌+◌, String, Bool, true, false, Option, none, some, List, [], ◌∷◌, ◌==◌, string_eq,
  concat, if◌then◌else◌,
}
use pbuf_registry.Drift.Maps.{Map, put}
use pbuf_registry.Drift.Numbers.{parse_proto_number, field_key, enum_value_key}
use pbuf_registry.Drift.Protos.{
  Field, MapField, OneofField, Oneof, MessageParts, Message, Messages, bare, message, nil, cons,
  RpcType, Rpc, Service, EnumField, Enum,
}

-- for k, v := range inner { result[prefix+"."+k] = v }
abbrev pub put_nested {ℓ} : {V : Type ℓ} → String → Map V → Map V → Map V
put_nested prefix [] result = result
put_nested prefix ((k, v) ∷ inner) result =
    put_nested prefix inner (put (concat (prefix ∷ "." ∷ k ∷ [])) v result)

-- extractMessagesFromParsed
unfoldable mutual
  pub put_message : Message → Map Bool → Map Bool
  put_message (bare name) result = put name true result
  put_message (message name parts inner) result =
      put_nested name (put_messages inner []) (put name true result)

  pub put_messages : Messages → Map Bool → Map Bool
  put_messages nil result = result
  put_messages (cons m ms) result = put_messages ms (put_message m result)

unfoldable pub extract_messages : Messages → Map Bool
unfolding put_message
extract_messages ms = put_messages ms []

-- extractServicesFromParsed
abbrev pub put_services : List Service → Map Bool → Map Bool
put_services [] result = result
put_services (s ∷ ss) result = put_services ss (put s.name true result)

unfoldable pub extract_services : List Service → Map Bool
extract_services ss = put_services ss []

-- extractEnumsFromParsed
abbrev pub put_enums : List Enum → Map Bool → Map Bool
put_enums [] result = result
put_enums (e ∷ es) result = put_enums es (put e.name true result)

unfoldable pub extract_enums : List Enum → Map Bool
extract_enums es = put_enums es []

pub record ParsedField : Type 0 where
  pub name : String
  pub type : String

-- A number that does not parse is passed over.
abbrev pub put_field : String → String → ParsedField → Map ParsedField → Map ParsedField
put_field owner number f result = elim (parse_proto_number number) [
  | some n ↦ put (field_key owner n) f result
  | none ↦ result
]

abbrev pub put_fields : String → List Field → Map ParsedField → Map ParsedField
put_fields owner [] result = result
put_fields owner (f ∷ fs) result =
    put_fields owner fs (put_field owner f.number (record { name = f.name; type = f.type }) result)

abbrev pub put_maps : String → List MapField → Map ParsedField → Map ParsedField
put_maps owner [] result = result
put_maps owner (f ∷ fs) result = put_maps owner fs (
    put_field owner f.number
      (record { name = f.name; type = concat ("map<" ∷ f.key_type ∷ "," ∷ f.type ∷ ">" ∷ []) })
      result)

abbrev pub put_oneof : String → List OneofField → Map ParsedField → Map ParsedField
put_oneof owner [] result = result
put_oneof owner (f ∷ fs) result =
    put_oneof owner fs (put_field owner f.number (record { name = f.name; type = f.type }) result)

abbrev pub put_oneofs : String → List Oneof → Map ParsedField → Map ParsedField
put_oneofs owner [] result = result
put_oneofs owner (o ∷ os) result = put_oneofs owner os (put_oneof owner o.fields result)

abbrev pub put_parts : String → MessageParts → Map ParsedField → Map ParsedField
put_parts owner p result =
    put_oneofs owner p.oneofs (put_maps owner p.maps (put_fields owner p.fields result))

abbrev pub qualified : String → String → String
qualified prefix name = if prefix == "" then name else concat (prefix ∷ "." ∷ name ∷ [])

-- extractFieldsByNumberFromMessagesWithPrefix
unfoldable mutual
  pub put_message_fields : String → Message → Map ParsedField → Map ParsedField
  put_message_fields prefix (bare name) result = result
  put_message_fields prefix (message name parts inner) result =
      put_messages_fields (qualified prefix name) inner
        (put_parts (qualified prefix name) parts result)

  pub put_messages_fields : String → Messages → Map ParsedField → Map ParsedField
  put_messages_fields prefix nil result = result
  put_messages_fields prefix (cons m ms) result =
      put_messages_fields prefix ms (put_message_fields prefix m result)

unfoldable pub extract_fields_by_number : Messages → Map ParsedField
unfolding put_message_fields
extract_fields_by_number ms = put_messages_fields "" ms []

pub record ParsedRpc : Type 0 where
  pub request_type : String
  pub response_type : String
  pub request_stream : Bool
  pub response_stream : Bool

abbrev pub type_of : Option RpcType → String
type_of none = ""
type_of (some t) = t.message_type

abbrev pub stream_of : Option RpcType → Bool
stream_of none = false
stream_of (some t) = t.is_stream

abbrev pub put_rpcs : String → List Rpc → Map ParsedRpc → Map ParsedRpc
put_rpcs owner [] result = result
put_rpcs owner (r ∷ rs) result = put_rpcs owner rs (
    put (concat (owner ∷ "." ∷ r.name ∷ []))
      (record {
        request_type = type_of r.request;
        response_type = type_of r.response;
        request_stream = stream_of r.request;
        response_stream = stream_of r.response;
      })
      result)

abbrev pub put_service_rpcs : List Service → Map ParsedRpc → Map ParsedRpc
put_service_rpcs [] result = result
put_service_rpcs (s ∷ ss) result =
    put_service_rpcs ss (elim s.body [ some b ↦ put_rpcs s.name b.rpcs result | none ↦ result ])

-- extractRPCDetailsFromParsed
unfoldable pub extract_rpc_details : List Service → Map ParsedRpc
extract_rpc_details ss = put_service_rpcs ss []

abbrev pub put_enum_fields : String → List EnumField → Map String → Map String
put_enum_fields owner [] result = result
put_enum_fields owner (f ∷ fs) result =
    put_enum_fields owner fs (elim (parse_proto_number f.number) [
      | some n ↦ put (enum_value_key owner n) f.ident result
      | none ↦ result
    ])

abbrev pub put_enum_values : List Enum → Map String → Map String
put_enum_values [] result = result
put_enum_values (e ∷ es) result =
    put_enum_values es
      (elim e.body [ some b ↦ put_enum_fields e.name b.fields result | none ↦ result ])

-- extractEnumValuesByNumberFromParsed: parsedEnumValue is its one field, the name.
unfoldable pub extract_enum_values_by_number : List Enum → Map String
extract_enum_values_by_number es = put_enum_values es []

-- extractPackageFromParsed
abbrev pub extract_package : List String → String
extract_package [] = ""
extract_package (p ∷ ps) = p

abbrev count_required : List Field → ℕ
count_required [] = 0
count_required (f ∷ fs) = if f.is_required then suc (count_required fs) else count_required fs

-- countRequiredFields
unfoldable mutual
  pub count_message : Message → ℕ
  count_message (bare name) = 0
  count_message (message name parts inner) =
      count_required parts.fields + count_required_fields inner

  pub count_required_fields : Messages → ℕ
  count_required_fields nil = 0
  count_required_fields (cons m ms) = count_message m + count_required_fields ms
