-- ===== src/Ast/Descriptor.antt =====
-- The descriptors that protoc sends, as far as the program reads them: the input of the graph.
use protoc_gen_star.Base.{Text, ℕ, Bool, Option, List}
use protoc_gen_star.Proto.{ProtoLabel, ProtoType}

-- `FieldDescriptorProto`
pub record FieldDesc : Type 0 where
  pub name : Text
  pub label : ProtoLabel
  pub type : ProtoType
  pub type_name : Text
  pub extendee : Text
  pub oneof_index : Option ℕ
  pub proto3_optional : Bool

pub record EnumValueDesc : Type 0 where
  pub name : Text
  pub number : ℕ

pub record EnumDesc : Type 0 where
  pub name : Text
  pub values : List EnumValueDesc

pub record OneofDesc : Type 0 where
  pub name : Text

-- `DescriptorProto` without its nested types.
pub record MessageInfo : Type 0 where
  pub name : Text
  pub enum_types : List EnumDesc
  pub oneof_decls : List OneofDesc
  pub fields : List FieldDesc
  pub extensions : List FieldDesc
  pub map_entry : Bool

mutual
  pub data MessageDesc : Type 0 where
    message_desc : MessageInfo → MessageDescs → MessageDesc

  pub data MessageDescs : Type 0 where
    no_descs : MessageDescs
    desc_cons : MessageDesc → MessageDescs → MessageDescs

pub record MethodDesc : Type 0 where
  pub name : Text
  pub input_type : Text
  pub output_type : Text
  pub client_streaming : Bool
  pub server_streaming : Bool

pub record ServiceDesc : Type 0 where
  pub name : Text
  pub methods : List MethodDesc

-- `SourceCodeInfo_Location`; an index in a path is not negative.
pub record Location : Type 0 where
  pub path : List ℕ
  pub leading : Text
  pub trailing : Text
  pub leading_detached : List Text

-- `FileDescriptorProto`
pub record FileDesc : Type 0 where
  pub name : Text
  pub package_name : Text
  pub dependencies : List Text
  pub public_dependencies : List ℕ
  pub enum_types : List EnumDesc
  pub extensions : List FieldDesc
  pub message_types : MessageDescs
  pub services : List ServiceDesc
  pub syntax : Text
  pub go_package : Text
  pub locations : List Location

-- `CodeGeneratorRequest`
pub record Request : Type 0 where
  pub file_to_generate : List Text
  pub proto_files : List FileDesc
