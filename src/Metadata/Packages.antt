-- ===== src/Metadata/Packages.antt =====
-- ToMetadata of internal/utils/metadata.go, and the messages of the generated v1 package that it
-- makes. `none` is the panic of a nil body.
use Prim.Native.Char.{code}
use Prim.Native.String.{String}
use pbuf_registry.Prelude.{
  ℕ, ◌-◌, ◌%◌, ◌^◌, Bool, true, false, ◌==◌, string_eq, nat_eq, ltb, leb, Option, none, some, List,
  [], ◌∷◌, ◌++◌, map, if◌then◌else◌,
}
use pbuf_registry.Drift.Numbers.{ℤ, pos, negsuc, digits}
use pbuf_registry.Drift.Protos.{
  Field, MapField, OneofField, Oneof, MessageParts, Message, Messages, bare, message, nil, cons,
  RpcType, Rpc, ServiceBody, Service, EnumField, EnumBody, Enum,
}

abbrev pub int_of : Option ℕ → Option ℤ
int_of none = none
int_of (some n) = if ltb n (2 ^ 63) then some (pos n) else none

abbrev pub minus_int_of : Option ℕ → Option ℤ
minus_int_of none = none
minus_int_of (some n) =
    if n == 0 then some (pos 0) else if leb n (2 ^ 63) then some (negsuc (n - 1)) else none

-- strconv.Atoi, with 64 bits
unfoldable pub atoi : String → Option ℤ
atoi String.[] = none
atoi (String.◌∷◌ c s) =
    if code c == 43
    then int_of (digits s)
    else if code c == 45
    then minus_int_of (digits s)
    else int_of (digits (String.◌∷◌ c s))

-- int32(n), which keeps the low 32 bits
abbrev pub low_half : ℕ → ℤ
low_half m = if ltb m (2 ^ 31) then pos m else negsuc (2 ^ 32 - m - 1)

unfoldable pub int32 : ℤ → ℤ
int32 (pos n) = low_half (n % 2 ^ 32)
int32 (negsuc n) = low_half (2 ^ 32 - 1 - n % 2 ^ 32)

abbrev pub or_minus_one : Option ℤ → ℤ
or_minus_one none = negsuc 0
or_minus_one (some n) = n

-- `fieldNumber, err := strconv.Atoi(s); if err != nil { fieldNumber = -1 }`, and int32(fieldNumber)
unfoldable pub field_tag : String → ℤ
field_tag s = int32 (or_minus_one (atoi s))

pub record V1Field : Type 0 where
  pub name : String
  pub message_type : String
  pub tag : ℤ
  pub is_repeated : Bool
  pub is_map : Bool
  pub is_oneof : Bool
  pub is_required : Bool
  pub is_optional : Bool
  pub oneof_names : List String
  pub oneof_types : List String
  pub map_key_type : String
  pub map_value_type : String

abbrev pub empty_field : V1Field
empty_field = record {
  name = "";
  message_type = "";
  tag = pos 0;
  is_repeated = false;
  is_map = false;
  is_oneof = false;
  is_required = false;
  is_optional = false;
  oneof_names = [];
  oneof_types = [];
  map_key_type = "";
  map_value_type = "";
}

pub record V1EnumValue : Type 0 where
  pub name : String
  pub tag : ℤ

pub record V1Enum : Type 0 where
  pub name : String
  pub values : List V1EnumValue

mutual
  pub data V1Message : Type 0 where
    v1_message : String → List V1Field → V1Messages → List V1Enum → V1Message

  pub data V1Messages : Type 0 where
    v1_nil : V1Messages
    v1_cons : V1Message → V1Messages → V1Messages

pub record V1Method : Type 0 where
  pub name : String
  pub input_type : String
  pub output_type : String

pub record V1Service : Type 0 where
  pub name : String
  pub methods : List V1Method

-- retrieveFields
abbrev pub field_of : Field → V1Field
field_of f = record empty_field {
  name = f.name;
  message_type = f.type;
  tag = field_tag f.number;
  is_repeated = f.is_repeated;
  is_required = f.is_required;
  is_optional = f.is_optional;
}

-- retrieveOneOfFields
abbrev pub oneof_of : Oneof → V1Field
oneof_of o = record empty_field {
  name = o.name;
  is_oneof = true;
  oneof_names = map (λ (f : OneofField). f.name) o.fields;
  oneof_types = map (λ (f : OneofField). f.type) o.fields;
}

-- retrieveMapFields
abbrev pub map_of : MapField → V1Field
map_of f = record empty_field {
  name = f.name;
  tag = field_tag f.number;
  is_map = true;
  map_key_type = f.key_type;
  map_value_type = f.type;
}

-- retrieveEnumValues
abbrev pub enum_value_of : EnumField → V1EnumValue
enum_value_of f = record { name = f.ident; tag = field_tag f.number }

abbrev pub put_first {ℓ} : {A : Type ℓ} → Option A → Option (List A) → Option (List A)
put_first none xs = none
put_first (some x) none = none
put_first (some x) (some xs) = some (x ∷ xs)

abbrev pub put_v1_message : Option V1Message → Option V1Messages → Option V1Messages
put_v1_message none ms = none
put_v1_message (some m) none = none
put_v1_message (some m) (some ms) = some (v1_cons m ms)

abbrev pub enum_of : String → Option EnumBody → Option V1Enum
enum_of name none = none
enum_of name (some b) = some (record { name = name; values = map enum_value_of b.fields })

-- retrieveEnums
abbrev pub retrieve_enums : List Enum → Option (List V1Enum)
retrieve_enums [] = some []
retrieve_enums (e ∷ es) = put_first (enum_of e.name e.body) (retrieve_enums es)

abbrev pub parts_fields : MessageParts → List V1Field
parts_fields p = map field_of p.fields ++ map oneof_of p.oneofs ++ map map_of p.maps

abbrev pub message_of :
    String → List V1Field → Option V1Messages → Option (List V1Enum) → Option V1Message
message_of name fields none enums = none
message_of name fields (some ms) none = none
message_of name fields (some ms) (some es) = some (v1_message name fields ms es)

-- retrieveMessages
unfoldable mutual
  pub retrieve_message : Message → Option V1Message
  retrieve_message (bare name) = none
  retrieve_message (message name parts inner) =
      message_of name (parts_fields parts) (retrieve_messages inner) (retrieve_enums parts.enums)

  pub retrieve_messages : Messages → Option V1Messages
  retrieve_messages nil = some v1_nil
  retrieve_messages (cons m ms) = put_v1_message (retrieve_message m) (retrieve_messages ms)

abbrev pub method_of : String → Option RpcType → Option RpcType → Option V1Method
method_of name none r = none
method_of name (some q) none = none
method_of name (some q) (some r) =
    some (record { name = name; input_type = q.message_type; output_type = r.message_type })

-- retrieveMethods
abbrev pub retrieve_methods : List Rpc → Option (List V1Method)
retrieve_methods [] = some []
retrieve_methods (r ∷ rs) = put_first (method_of r.name r.request r.response) (retrieve_methods rs)

abbrev pub service_with : String → Option (List V1Method) → Option V1Service
service_with name none = none
service_with name (some ms) = some (record { name = name; methods = ms })

abbrev pub service_of : String → Option ServiceBody → Option V1Service
service_of name none = none
service_of name (some b) = service_with name (retrieve_methods b.rpcs)

-- retrieveServices
abbrev pub retrieve_services : List Service → Option (List V1Service)
retrieve_services [] = some []
retrieve_services (s ∷ ss) = put_first (service_of s.name s.body) (retrieve_services ss)
