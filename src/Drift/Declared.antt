-- ===== src/Drift/Declared.antt =====
-- What a parsed file declares, as lists in the order of the file.
use pbuf_registry.Prelude.{
  String, Bool, true, false, Option, none, some, List, [], ◌∷◌, ◌++◌, map, concat,
}
use pbuf_registry.Drift.Numbers.{ℤ, parse_proto_number, field_key, enum_value_key}
use pbuf_registry.Drift.Protos.{
  Field, MapField, OneofField, Oneof, Message, Messages, bare, message, nil, cons, Rpc, RpcType,
  Service, ServiceBody, EnumField, Enum, EnumBody,
}
use pbuf_registry.Drift.Extract.{ParsedField, ParsedRpc, qualified}

abbrev pub within : String → List (String × Bool) → List (String × Bool)
within prefix [] = []
within prefix ((k, v) ∷ ks) = (concat (prefix ∷ "." ∷ k ∷ []), v) ∷ within prefix ks

-- Messages by their full names, those in other messages after these
unfoldable mutual
  pub names_in : Message → List (String × Bool)
  names_in (bare name) = (name, true) ∷ []
  names_in (message name parts inner) = (name, true) ∷ within name (names_of inner)

  pub names_of : Messages → List (String × Bool)
  names_of nil = []
  names_of (cons m ms) = names_in m ++ names_of ms

-- A declaration whose number does not parse counts for nothing.
abbrev pub at_number {ℓ} : {V : Type ℓ} → (ℤ → String) → V → Option ℤ → List (String × V)
at_number key v none = []
at_number key v (some n) = (key n, v) ∷ []

abbrev pub plain_fields : String → List Field → List (String × ParsedField)
plain_fields owner [] = []
plain_fields owner (f ∷ fs) =
    at_number (field_key owner) (record { name = f.name; type = f.type })
      (parse_proto_number f.number)
    ++ plain_fields owner fs

abbrev pub map_fields : String → List MapField → List (String × ParsedField)
map_fields owner [] = []
map_fields owner (f ∷ fs) =
    at_number (field_key owner)
      (record { name = f.name; type = concat ("map<" ∷ f.key_type ∷ "," ∷ f.type ∷ ">" ∷ []) })
      (parse_proto_number f.number)
    ++ map_fields owner fs

abbrev pub choices : String → List OneofField → List (String × ParsedField)
choices owner [] = []
choices owner (f ∷ fs) =
    at_number (field_key owner) (record { name = f.name; type = f.type })
      (parse_proto_number f.number)
    ++ choices owner fs

abbrev pub oneof_fields : String → List Oneof → List (String × ParsedField)
oneof_fields owner [] = []
oneof_fields owner (o ∷ os) = choices owner o.fields ++ oneof_fields owner os

-- The fields of messages at every depth, plain, of maps and of oneofs
unfoldable mutual
  pub fields_in : String → Message → List (String × ParsedField)
  fields_in prefix (bare name) = []
  fields_in prefix (message name parts inner) =
      plain_fields (qualified prefix name) parts.fields
      ++ (map_fields (qualified prefix name) parts.maps
          ++ (oneof_fields (qualified prefix name) parts.oneofs
              ++ fields_of (qualified prefix name) inner))

  pub fields_of : String → Messages → List (String × ParsedField)
  fields_of prefix nil = []
  fields_of prefix (cons m ms) = fields_in prefix m ++ fields_of prefix ms

abbrev pub signature : Option RpcType → Option RpcType → ParsedRpc
signature none none = record {
  request_type = "";
  response_type = "";
  request_stream = false;
  response_stream = false;
}
signature none (some b) = record {
  request_type = "";
  response_type = b.message_type;
  request_stream = false;
  response_stream = b.is_stream;
}
signature (some a) none = record {
  request_type = a.message_type;
  response_type = "";
  request_stream = a.is_stream;
  response_stream = false;
}
signature (some a) (some b) = record {
  request_type = a.message_type;
  response_type = b.message_type;
  request_stream = a.is_stream;
  response_stream = b.is_stream;
}

abbrev pub rpcs_in : String → List Rpc → List (String × ParsedRpc)
rpcs_in owner [] = []
rpcs_in owner (r ∷ rs) =
    (concat (owner ∷ "." ∷ r.name ∷ []), signature r.request r.response) ∷ rpcs_in owner rs

abbrev pub service_rpcs : String → Option ServiceBody → List (String × ParsedRpc)
service_rpcs owner none = []
service_rpcs owner (some b) = rpcs_in owner b.rpcs

-- Methods by service and name
abbrev pub rpcs_of : List Service → List (String × ParsedRpc)
rpcs_of [] = []
rpcs_of (s ∷ ss) = service_rpcs s.name s.body ++ rpcs_of ss

abbrev pub services_of : List Service → List (String × Bool)
services_of = map λ (s : Service). (s.name, true)

abbrev pub enums_of : List Enum → List (String × Bool)
enums_of = map λ (e : Enum). (e.name, true)

abbrev pub values_in : String → List EnumField → List (String × String)
values_in owner [] = []
values_in owner (f ∷ fs) =
    at_number (enum_value_key owner) f.ident (parse_proto_number f.number) ++ values_in owner fs

abbrev pub body_values : String → Option EnumBody → List (String × String)
body_values owner none = []
body_values owner (some b) = values_in owner b.fields

-- Enum values by enum and number
abbrev pub values_of : List Enum → List (String × String)
values_of [] = []
values_of (e ∷ es) = body_values e.name e.body ++ values_of es

-- The first package clause, or "" for none
abbrev pub package_of : List String → String
package_of [] = ""
package_of (p ∷ ps) = p
