-- ===== src/Proto.antt =====
-- proto.go: syntaxes, labels and types of fields, and wkt.go: the well-known types.
pub mod WellKnown
mod Tests
use protoc_gen_star.Base.{◌==◌, nat_eq, Text, text_eq, text, Bool, true, false, []}

-- `Syntax`, a string; `""` is proto2.
abbrev pub proto2 : Text
proto2 = []

abbrev pub proto3 : Text
proto3 = text "proto3"

abbrev pub supports_required_prefix : Text → Bool
supports_required_prefix s = s == proto2

pub data ProtoLabel : Type 0 where
  optional required repeated : ProtoLabel

pub data ProtoType : Type 0 where
  double_t float_t int64_t uint64_t int32_t fixed64_t fixed32_t bool_t string_t : ProtoType
  group_t message_t bytes_t uint32_t enum_t sfixed32 sfixed64 sint32 sint64 : ProtoType

-- `ProtoType.IsInt`
unfoldable pub is_int : ProtoType → Bool
is_int int64_t = true
is_int uint64_t = true
is_int sfixed64 = true
is_int sint64 = true
is_int fixed64_t = true
is_int int32_t = true
is_int uint32_t = true
is_int sfixed32 = true
is_int sint32 = true
is_int fixed32_t = true
is_int _ = false

-- `ProtoType.IsNumeric`
unfoldable pub is_numeric : ProtoType → Bool
unfolding is_int
is_numeric double_t = true
is_numeric float_t = true
is_numeric t = is_int t

-- `==` on labels.
abbrev pub is_optional_label : ProtoLabel → Bool
is_optional_label optional = true
is_optional_label _ = false

abbrev pub is_required_label : ProtoLabel → Bool
is_required_label required = true
is_required_label _ = false
