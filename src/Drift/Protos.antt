-- ===== src/Drift/Protos.antt =====
-- A parsed file as go-protoparser's package `unordered` represents it, with the fields that
-- internal/background and internal/utils read. Of an option, only its name is read.
use pbuf_registry.Prelude.{String, Bool, Option, List}

pub record Field : Type 0 where
  pub name : String
  pub number : String
  pub type : String
  pub is_required : Bool
  pub is_repeated : Bool
  pub is_optional : Bool
  pub options : List String

pub record MapField : Type 0 where
  pub name : String
  pub number : String
  pub key_type : String
  pub type : String
  pub options : List String

pub record OneofField : Type 0 where
  pub name : String
  pub number : String
  pub type : String
  pub options : List String

pub record Oneof : Type 0 where
  pub name : String
  pub fields : List OneofField
  pub options : List String

pub record EnumField : Type 0 where
  pub ident : String
  pub number : String

pub record EnumBody : Type 0 where
  pub fields : List EnumField
  pub options : List String

-- `none` is a nil EnumBody.
pub record Enum : Type 0 where
  pub name : String
  pub body : Option EnumBody

pub record MessageParts : Type 0 where
  pub fields : List Field
  pub maps : List MapField
  pub oneofs : List Oneof
  pub enums : List Enum
  pub options : List String

mutual
  pub data Message : Type 0 where
    -- MessageBody == nil
    bare : String → Message
    message : String → MessageParts → Messages → Message

  pub data Messages : Type 0 where
    nil : Messages
    cons : Message → Messages → Messages

-- RPCRequest and RPCResponse
pub record RpcType : Type 0 where
  pub message_type : String
  pub is_stream : Bool

pub record Rpc : Type 0 where
  pub name : String
  pub request : Option RpcType
  pub response : Option RpcType
  pub options : List String

pub record ServiceBody : Type 0 where
  pub rpcs : List Rpc
  pub options : List String

pub record Service : Type 0 where
  pub name : String
  pub body : Option ServiceBody

pub record ProtoBody : Type 0 where
  pub packages : List String
  pub imports : List String
  pub options : List String
  pub messages : Messages
  pub services : List Service
  pub enums : List Enum

-- `none` is a nil ProtoBody.
pub record Proto : Type 0 where
  pub body : Option ProtoBody
