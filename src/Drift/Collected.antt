-- ===== src/Drift/Collected.antt =====
-- The maps of driftdetection.go hold what the file declares.

use pbuf_registry.Prelude.{
  String, Bool, true, Option, none, some, ◌≡◌, refl, sym, ◌∙◌, ap, List, [], ◌∷◌, ◌++◌, concat,
  Option-cases, inl, inr,
}
use pbuf_registry.Drift.Maps.{Map, put}
use pbuf_registry.Drift.Numbers.{parse_proto_number, field_key, enum_value_key}
use pbuf_registry.Drift.Protos.{
  Field, MapField, OneofField, Oneof, MessageParts, Message, Messages, bare, message, nil, cons,
  Rpc, RpcType, Service, EnumField, Enum,
}
use pbuf_registry.Drift.Extract.{
  put_services, extract_services, put_enums, extract_enums, ParsedField, put_field, put_fields,
  put_maps, put_oneof, put_oneofs, put_parts, qualified, put_message_fields, put_messages_fields,
  extract_fields_by_number, ParsedRpc, type_of, stream_of, put_rpcs, put_service_rpcs,
  extract_rpc_details, put_enum_fields, put_enum_values, extract_enum_values_by_number,
}
use pbuf_registry.Drift.Puts.{put_all, put_all-append}
use pbuf_registry.Drift.Declared.{
  at_number, plain_fields, map_fields, choices, oneof_fields, fields_in, fields_of, signature,
  rpcs_in, rpcs_of, services_of, enums_of, values_in, values_of,
}

put_field-all :
    (owner number : String) (f : ParsedField) (r : Map ParsedField)
    → put_field owner number f r
      ≡ put_all (at_number (field_key owner) f (parse_proto_number number)) r
put_field-all owner number f r = elim (Option-cases (parse_proto_number number)) [
  | inl e ↦ rw (e, put_field) refl
  | inr (n, e) ↦ rw (e, put_field) refl
]

put_fields-all :
    (owner : String) (fs : List Field) (r : Map ParsedField)
    → put_fields owner fs r ≡ put_all (plain_fields owner fs) r
put_fields-all owner [] r = refl
put_fields-all owner (f ∷ fs) r =
    let g : ParsedField = record { name = f.name; type = f.type } in
    put_fields-all owner fs (put_field owner f.number g r)
    ∙ ap (put_all (plain_fields owner fs)) (put_field-all owner f.number g r)
    ∙ sym (
        put_all-append (at_number (field_key owner) g (parse_proto_number f.number))
          (plain_fields owner fs) r)

put_maps-all :
    (owner : String) (fs : List MapField) (r : Map ParsedField)
    → put_maps owner fs r ≡ put_all (map_fields owner fs) r
put_maps-all owner [] r = refl
put_maps-all owner (f ∷ fs) r =
    let g : ParsedField = record {
      name = f.name;
      type = concat ("map<" ∷ f.key_type ∷ "," ∷ f.type ∷ ">" ∷ []);
    } in
    put_maps-all owner fs (put_field owner f.number g r)
    ∙ ap (put_all (map_fields owner fs)) (put_field-all owner f.number g r)
    ∙ sym (
        put_all-append (at_number (field_key owner) g (parse_proto_number f.number))
          (map_fields owner fs) r)

put_oneof-all :
    (owner : String) (fs : List OneofField) (r : Map ParsedField)
    → put_oneof owner fs r ≡ put_all (choices owner fs) r
put_oneof-all owner [] r = refl
put_oneof-all owner (f ∷ fs) r =
    let g : ParsedField = record { name = f.name; type = f.type } in
    put_oneof-all owner fs (put_field owner f.number g r)
    ∙ ap (put_all (choices owner fs)) (put_field-all owner f.number g r)
    ∙ sym (
        put_all-append (at_number (field_key owner) g (parse_proto_number f.number))
          (choices owner fs) r)

put_oneofs-all :
    (owner : String) (os : List Oneof) (r : Map ParsedField)
    → put_oneofs owner os r ≡ put_all (oneof_fields owner os) r
put_oneofs-all owner [] r = refl
put_oneofs-all owner (o ∷ os) r =
    put_oneofs-all owner os (put_oneof owner o.fields r)
    ∙ ap (put_all (oneof_fields owner os)) (put_oneof-all owner o.fields r)
    ∙ sym (put_all-append (choices owner o.fields) (oneof_fields owner os) r)

put_parts-all :
    (owner : String) (p : MessageParts) (r : Map ParsedField)
    → put_parts owner p r
      ≡ put_all
          (oneof_fields owner p.oneofs)
          (put_all (map_fields owner p.maps) (put_all (plain_fields owner p.fields) r))
put_parts-all owner p r =
    put_oneofs-all owner p.oneofs _
    ∙ ap (put_all (oneof_fields owner p.oneofs)) (
        put_maps-all owner p.maps _
        ∙ ap (put_all (map_fields owner p.maps)) (put_fields-all owner p.fields r))

mutual
  unfolding put_message_fields fields_in

  message_fields-all :
      (prefix : String) (m : Message) (r : Map ParsedField)
      → put_message_fields prefix m r ≡ put_all (fields_in prefix m) r
  message_fields-all prefix (bare name) r = refl
  message_fields-all prefix (message name parts inner) r =
      let owner = qualified prefix name in
      let plain = plain_fields owner parts.fields in
      let maps = map_fields owner parts.maps in
      let oneofs = oneof_fields owner parts.oneofs in
      let nested = fields_of owner inner in
      messages_fields-all owner inner (put_parts owner parts r)
      ∙ ap (put_all nested) (put_parts-all owner parts r)
      ∙ sym (
          put_all-append plain (maps ++ (oneofs ++ nested)) r
          ∙ put_all-append maps (oneofs ++ nested) _
          ∙ put_all-append oneofs nested _)

  messages_fields-all :
      (prefix : String) (ms : Messages) (r : Map ParsedField)
      → put_messages_fields prefix ms r ≡ put_all (fields_of prefix ms) r
  messages_fields-all prefix nil r = refl
  messages_fields-all prefix (cons m ms) r =
      messages_fields-all prefix ms (put_message_fields prefix m r)
      ∙ ap (put_all (fields_of prefix ms)) (message_fields-all prefix m r)
      ∙ sym (put_all-append (fields_in prefix m) (fields_of prefix ms) r)

pub extract_fields_by_number-all :
    (ms : Messages) → extract_fields_by_number ms ≡ put_all (fields_of "" ms) []
unfolding extract_fields_by_number
extract_fields_by_number-all ms = messages_fields-all "" ms []

put_rpcs-all :
    (owner : String) (rs : List Rpc) (r : Map ParsedRpc)
    → put_rpcs owner rs r ≡ put_all (rpcs_in owner rs) r
put_rpcs-all owner [] r = refl
put_rpcs-all owner (x ∷ xs) r =
    put_rpcs-all owner xs _
    ∙ ap (λ s. put_all (rpcs_in owner xs) (put (concat (owner ∷ "." ∷ x.name ∷ [])) s r))
        (signed x.request x.response)
  where
    signed :
        (a b : Option RpcType)
        → record {
          request_type = type_of a;
          response_type = type_of b;
          request_stream = stream_of a;
          response_stream = stream_of b;
        }
          ≡ signature a b
    signed none none = refl
    signed none (some b) = refl
    signed (some a) none = refl
    signed (some a) (some b) = refl

put_service_rpcs-all :
    (ss : List Service) (r : Map ParsedRpc) → put_service_rpcs ss r ≡ put_all (rpcs_of ss) r
put_service_rpcs-all [] r = refl
put_service_rpcs-all (s ∷ ss) r = elim (Option-cases s.body) [
  | inl e ↦ rw e (put_service_rpcs-all ss r)
  | inr (b, e) ↦ rw e (
      put_service_rpcs-all ss (put_rpcs s.name b.rpcs r)
      ∙ ap (put_all (rpcs_of ss)) (put_rpcs-all s.name b.rpcs r)
      ∙ sym (put_all-append (rpcs_in s.name b.rpcs) (rpcs_of ss) r))
]

pub extract_rpc_details-all : (ss : List Service) → extract_rpc_details ss ≡ put_all (rpcs_of ss) []
unfolding extract_rpc_details
extract_rpc_details-all ss = put_service_rpcs-all ss []

put_services-all :
    (ss : List Service) (r : Map Bool) → put_services ss r ≡ put_all (services_of ss) r
put_services-all [] r = refl
put_services-all (s ∷ ss) r = put_services-all ss (put s.name true r)

pub extract_services-all : (ss : List Service) → extract_services ss ≡ put_all (services_of ss) []
unfolding extract_services
extract_services-all ss = put_services-all ss []

put_enums-all : (es : List Enum) (r : Map Bool) → put_enums es r ≡ put_all (enums_of es) r
put_enums-all [] r = refl
put_enums-all (e ∷ es) r = put_enums-all es (put e.name true r)

pub extract_enums-all : (es : List Enum) → extract_enums es ≡ put_all (enums_of es) []
unfolding extract_enums
extract_enums-all es = put_enums-all es []

put_enum_fields-all :
    (owner : String) (fs : List EnumField) (r : Map String)
    → put_enum_fields owner fs r ≡ put_all (values_in owner fs) r
put_enum_fields-all owner [] r = refl
put_enum_fields-all owner (f ∷ fs) r = elim (Option-cases (parse_proto_number f.number)) [
  | inl e ↦ rw e (put_enum_fields-all owner fs r)
  | inr (n, e) ↦ rw e (put_enum_fields-all owner fs (put (enum_value_key owner n) f.ident r))
]

put_enum_values-all :
    (es : List Enum) (r : Map String) → put_enum_values es r ≡ put_all (values_of es) r
put_enum_values-all [] r = refl
put_enum_values-all (e ∷ es) r = elim (Option-cases e.body) [
  | inl h ↦ rw h (put_enum_values-all es r)
  | inr (b, h) ↦ rw h (
      put_enum_values-all es (put_enum_fields e.name b.fields r)
      ∙ ap (put_all (values_of es)) (put_enum_fields-all e.name b.fields r)
      ∙ sym (put_all-append (values_in e.name b.fields) (values_of es) r))
]

pub extract_enum_values_by_number-all :
    (es : List Enum) → extract_enum_values_by_number es ≡ put_all (values_of es) []
unfolding extract_enum_values_by_number
extract_enum_values_by_number-all es = put_enum_values-all es []
