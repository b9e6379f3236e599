-- ===== src/Ast/Presence.antt =====
-- What field.go, field_type.go, oneof.go and message.go tell of the presence of fields: the
-- optional keyword, required fields, oneofs, and the synthetic oneofs of proto3.
pub mod Partition
pub mod Request
pub mod Rules
mod Tests
use protoc_gen_star.Base.{
  if◌then◌else◌, ◌==◌, nat_eq, Text, text_eq, is_some, Bool, true, false, not, ◌&&◌, ◌||◌, Option,
  none, some, List, [], ◌∷◌, ◌++◌,
}
use protoc_gen_star.Proto.{
  proto2, proto3, supports_required_prefix, is_optional_label, is_required_label,
}
use protoc_gen_star.Ast.Entity.{Field, Extension, Oneof}
use protoc_gen_star.Ast.Graph.{FieldType, enum_ft, embed_ft, rep_t, map_t}

-- `f.Syntax()`. The field in an extension has no message to ask, which panics: `none`.
abbrev pub with_syntax : Option Text → (Text → Bool) → Option Bool
with_syntax none answer = none
with_syntax (some s) answer = some (answer s)

-- The `field` in an extension, which has neither a message nor a oneof.
abbrev pub extension_field : Extension → Field
extension_field x = record { id = x.id; fqn = x.fqn; desc = x.desc; oneof = none }

-- `FieldType.IsEmbed`
abbrev pub is_embed : FieldType → Bool
is_embed (embed_ft m) = true
is_embed _ = false

-- `FieldType.IsRepeated`
abbrev pub is_repeated : FieldType → Bool
is_repeated (rep_t el) = true
is_repeated _ = false

-- `FieldType.IsMap`
abbrev pub is_map : FieldType → Bool
is_map (map_t k el) = true
is_map _ = false

-- `FieldType.IsEnum`
abbrev pub is_enum : FieldType → Bool
is_enum (enum_ft e) = true
is_enum _ = false

-- `field.InOneOf`
abbrev pub in_oneof : Field → Bool
in_oneof f = is_some f.oneof

-- `field.InRealOneOf`
abbrev pub in_real_oneof : Field → Bool
in_real_oneof f = in_oneof f && not f.desc.proto3_optional

-- `field.HasOptionalKeyword`
abbrev pub has_optional_keyword : Option Text → Field → Option Bool
has_optional_keyword syntax f =
    with_syntax syntax
      (λ s. if s == proto3 then f.desc.proto3_optional else is_optional_label f.desc.label)

-- `if f.Syntax() == Proto2 { return true }; return f.HasOptionalKeyword()`
abbrev pub singular_presence : Option Text → Field → Option Bool
singular_presence none f = none
singular_presence (some s) f = if s == proto2 then some true else has_optional_keyword (some s) f

-- `field.HasPresence`
unfoldable pub has_presence : Option Text → FieldType → Field → Option Bool
has_presence syntax t f =
    if in_oneof f
    then some true
    else if is_embed t
    then some true
    else if not (is_repeated t) && not (is_map t)
    then singular_presence syntax f
    else some false

-- `field.Required`
abbrev pub field_required : Option Text → Field → Option Bool
field_required syntax f =
    with_syntax syntax (λ s. supports_required_prefix s && is_required_label f.desc.label)

-- `scalarT.IsOptional`
abbrev pub is_optional : Option Text → Field → Option Bool
is_optional syntax f =
    with_syntax syntax (λ s. not (supports_required_prefix s) || is_optional_label f.desc.label)

-- `scalarT.IsRequired`
abbrev pub is_required : Option Text → Field → Option Bool
is_required syntax f =
    with_syntax syntax (λ s. supports_required_prefix s && is_required_label f.desc.label)

-- `len(o.flds) == 1 && !o.flds[0].InRealOneOf()`
abbrev pub lone_optional : List Field → Bool
lone_optional (f ∷ []) = not (in_real_oneof f)
lone_optional _ = false

-- `oneof.IsSynthetic`
unfoldable pub is_synthetic : Text → Oneof → Bool
is_synthetic syntax o = syntax == proto3 && lone_optional o.flds

-- `msg.NonOneOfFields`
unfoldable pub non_oneof_fields : List Field → List Field
non_oneof_fields [] = []
non_oneof_fields (f ∷ fs) = let rest = non_oneof_fields fs in if in_oneof f then rest else f ∷ rest

-- `msg.OneOfFields`
unfoldable pub oneof_fields : List Oneof → List Field
oneof_fields [] = []
oneof_fields (o ∷ os) = o.flds ++ oneof_fields os

-- `msg.SyntheticOneOfFields`
unfoldable pub synthetic_oneof_fields : Text → List Oneof → List Field
unfolding is_synthetic
synthetic_oneof_fields syntax [] = []
synthetic_oneof_fields syntax (o ∷ os) =
    let rest = synthetic_oneof_fields syntax os in
    if is_synthetic syntax o then o.flds ++ rest else rest

-- `msg.RealOneOfs`
unfoldable pub real_oneofs : Text → List Oneof → List Oneof
unfolding is_synthetic
real_oneofs syntax [] = []
real_oneofs syntax (o ∷ os) =
    let rest = real_oneofs syntax os in if is_synthetic syntax o then rest else o ∷ rest
