-- ===== src/Metadata/Refs.antt =====
-- The packages that a parsed file refers to: the getRef functions of internal/utils/meta.go. `none`
-- is the panic of a nil body.
use Prim.Native.Char.{code}
use Prim.Native.String.{String}
use pbuf_registry.Prelude.{
  ◌==◌, nat_eq, Option, none, some, List, [], ◌∷◌, ◌++◌, map, if◌then◌else◌,
}
use pbuf_registry.Drift.Protos.{
  Field, MapField, OneofField, Oneof, MessageParts, Message, Messages, bare, message, nil, cons,
  RpcType, Rpc, ServiceBody, Service, EnumBody, Enum, ProtoBody,
}
use pbuf_registry.Metadata.Texts.{upto, before_last, trim, is_space}

-- `names = append(names, ...)`, for each of the lists
abbrev pub joined : Option (List String) → Option (List String) → Option (List String)
joined none ys = none
joined (some xs) none = none
joined (some xs) (some ys) = some (xs ++ ys)

-- What stands in the parentheses of an option's name
abbrev pub unwrapped : String → String
unwrapped String.[] = String.[]
unwrapped (String.◌∷◌ c s) = if code c == 40 then upto 41 (upto 40 s) else String.◌∷◌ c s

abbrev pub package_part : Option String → String
package_part none = ""
package_part (some p) = trim is_space p

unfoldable pub get_ref_package_name : String → String
get_ref_package_name name = package_part (before_last 46 (unwrapped name))

-- getRefPackagesFromOptions and getRefPackagesFromFieldOptions
abbrev pub option_refs : List String → List String
option_refs = map get_ref_package_name

abbrev pub field_refs : List Field → List String
field_refs [] = []
field_refs (f ∷ fs) = option_refs f.options ++ get_ref_package_name f.type ∷ field_refs fs

abbrev pub map_refs : List MapField → List String
map_refs [] = []
map_refs (f ∷ fs) = option_refs f.options ++ get_ref_package_name f.type ∷ map_refs fs

abbrev pub oneof_field_refs : List OneofField → List String
oneof_field_refs [] = []
oneof_field_refs (f ∷ fs) =
    option_refs f.options ++ get_ref_package_name f.type ∷ oneof_field_refs fs

abbrev pub oneof_refs : List Oneof → List String
oneof_refs [] = []
oneof_refs (o ∷ os) = option_refs o.options ++ oneof_field_refs o.fields ++ oneof_refs os

abbrev pub enum_body_refs : Option EnumBody → Option (List String)
enum_body_refs none = none
enum_body_refs (some b) = some (option_refs b.options)

abbrev pub enum_refs : List Enum → Option (List String)
enum_refs [] = some []
enum_refs (e ∷ es) = joined (enum_body_refs e.body) (enum_refs es)

-- What a message refers to itself
abbrev pub parts_refs : MessageParts → Option (List String)
parts_refs p = joined (some (option_refs p.options)) (
    joined (enum_refs p.enums)
      (some (field_refs p.fields ++ oneof_refs p.oneofs ++ map_refs p.maps)))

-- getRefPackagesForMessages
unfoldable mutual
  pub message_refs : Message → Option (List String)
  message_refs (bare name) = none
  message_refs (message name parts inner) = joined (messages_refs inner) (parts_refs parts)

  pub messages_refs : Messages → Option (List String)
  messages_refs nil = some []
  messages_refs (cons m ms) = joined (message_refs m) (messages_refs ms)

abbrev pub rpc_type_refs : Option RpcType → Option (List String)
rpc_type_refs none = none
rpc_type_refs (some t) = some (get_ref_package_name t.message_type ∷ [])

abbrev pub rpc_refs : List Rpc → Option (List String)
rpc_refs [] = some []
rpc_refs (r ∷ rs) =
    joined (some (option_refs r.options))
      (joined (rpc_type_refs r.request) (joined (rpc_type_refs r.response) (rpc_refs rs)))

abbrev pub service_body_refs : Option ServiceBody → Option (List String)
service_body_refs none = none
service_body_refs (some b) = joined (some (option_refs b.options)) (rpc_refs b.rpcs)

abbrev pub service_refs : List Service → Option (List String)
service_refs [] = some []
service_refs (s ∷ ss) = joined (service_body_refs s.body) (service_refs ss)

-- retrievedRefPackages
unfoldable pub body_refs : ProtoBody → Option (List String)
body_refs b =
    joined (some (option_refs b.options))
      (joined (messages_refs b.messages) (joined (enum_refs b.enums) (service_refs b.services)))
