-- ===== src/Ast/Entity.antt =====
-- The entities: file.go, message.go, enum.go, enum_value.go, field.go, oneof.go, service.go,
-- method.go and extension.go. A Go pointer is the number under which its object was made; the
-- owner of an object holds the object itself, and any other reference is its number. The message
-- that a message is nested in is its place in the tree.
use protoc_gen_star.Base.{if◌then◌else◌, Text, ℕ, Bool, Option, List, [], ◌∷◌, ◌++◌}
use protoc_gen_star.Ast.Descriptor.{FieldDesc, EnumValueDesc, MessageInfo, MethodDesc, FileDesc}

pub data Kind : Type 0 where
  file_k message_k enum_k enum_value_k field_k extension_k oneof_k service_k method_k : Kind

-- A pointer to an entity, with its dynamic type.
pub record Ref : Type 0 where
  pub kind : Kind
  pub id : ℕ

pub record EnumValue : Type 0 where
  pub id : ℕ
  pub fqn : Text
  pub desc : EnumValueDesc

pub record Enum : Type 0 where
  pub id : ℕ
  pub fqn : Text
  pub name : Text
  pub vals : List EnumValue

-- `field`; `oneof` is the index of its oneof in the message.
pub record Field : Type 0 where
  pub id : ℕ
  pub fqn : Text
  pub desc : FieldDesc
  pub oneof : Option ℕ

pub record Extension : Type 0 where
  pub id : ℕ
  pub fqn : Text
  pub desc : FieldDesc

pub record Oneof : Type 0 where
  pub id : ℕ
  pub fqn : Text
  pub name : Text
  pub flds : List Field

-- `msg` without the messages nested in it.
pub record MessageHead : Type 0 where
  pub id : ℕ
  pub fqn : Text
  pub info : MessageInfo
  pub enums : List Enum
  pub oneofs : List Oneof
  pub fields : List Field
  pub def_exts : List Extension

mutual
  -- The nested messages are the `preservedMsgs`, in the order of the descriptor.
  pub data Message : Type 0 where
    message : MessageHead → Messages → Message

  pub data Messages : Type 0 where
    no_messages : Messages
    msg_cons : Message → Messages → Messages

pub record Method : Type 0 where
  pub id : ℕ
  pub fqn : Text
  pub desc : MethodDesc
  pub input : ℕ
  pub output : ℕ

pub record Service : Type 0 where
  pub id : ℕ
  pub fqn : Text
  pub name : Text
  pub methods : List Method

-- `file`; `dependencies` are the numbers of the files that it imports.
pub record File : Type 0 where
  pub id : ℕ
  pub fqn : Text
  pub desc : FileDesc
  pub dependencies : List ℕ
  pub build_target : Bool
  pub enums : List Enum
  pub def_exts : List Extension
  pub msgs : Messages
  pub srvs : List Service

abbrev pub head_of : Message → MessageHead
head_of (message h _) = h

-- `msg.IsMapEntry`
abbrev pub is_map_entry : Message → Bool
is_map_entry m = (head_of m).info.map_entry

-- What `hydrateMessage` hands to `addMessage` and to `addMapEntry`.
abbrev pub plain_messages : Messages → List Message
plain_messages no_messages = []
plain_messages (msg_cons m ms) = if is_map_entry m then plain_messages ms else m ∷ plain_messages ms

abbrev pub entry_messages : Messages → List Message
entry_messages no_messages = []
entry_messages (msg_cons m ms) = if is_map_entry m then m ∷ entry_messages ms else entry_messages ms

-- A file keeps every message that it declares itself.
abbrev pub to_list : Messages → List Message
to_list no_messages = []
to_list (msg_cons m ms) = m ∷ to_list ms

-- `msg.AllMessages`: the messages of this one, then those of each of them. A map entry is passed
-- over with all that it holds.
unfoldable mutual
  pub all_messages : Message → List Message
  all_messages (message h ms) = plain_messages ms ++ below_messages ms

  pub below_messages : Messages → List Message
  below_messages no_messages = []
  below_messages (msg_cons m ms) =
      (if is_map_entry m then [] else all_messages m) ++ below_messages ms

unfoldable pub nested_messages : Messages → List Message
unfolding all_messages
nested_messages no_messages = []
nested_messages (msg_cons m ms) = all_messages m ++ nested_messages ms

-- `file.AllMessages`: the messages of the file, then those of each of them.
unfoldable pub file_all_messages : Messages → List Message
unfolding nested_messages
file_all_messages ms = to_list ms ++ nested_messages ms

-- `msg.AllEnums`
unfoldable mutual
  pub all_enums : Message → List Enum
  all_enums (message h ms) = h.enums ++ below_enums ms

  pub below_enums : Messages → List Enum
  below_enums no_messages = []
  below_enums (msg_cons m ms) = (if is_map_entry m then [] else all_enums m) ++ below_enums ms
