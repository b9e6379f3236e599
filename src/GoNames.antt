-- ===== src/GoNames.antt =====
-- lang/go/name.go, and `context.Type` of lang/go/type_name.go: the names that protoc-gen-go gives to
-- what a plugin walks over. A message or enum is given by its own name and those of the messages
-- around it, the innermost first.
pub mod Clashes
pub mod Pointers
mod Tests
use protoc_gen_star.Base.{
  if◌then◌else◌, ◌==◌, nat_eq, Text, text_eq, text, ℕ, Bool, true, false, ◌&&◌, Option, none, some,
  List, [], ◌∷◌, ◌++◌,
}
use protoc_gen_star.Name.{Unicode}
use protoc_gen_star.Parameters.{Parameters, is_in}
use protoc_gen_star.Proto.{ProtoType, message_t, enum_t}
use protoc_gen_star.GoName.{pgg_upper_camel_case}
use protoc_gen_star.GoPackage.{package_name, go_import_path}
use protoc_gen_star.TypeName.{scalar_type, pointer, slice_of, map_of}
use protoc_gen_star.Ast.Entity.{Field, File}
use protoc_gen_star.Ast.Graph.{
  FieldTypeElem, scalar_e, enum_e, embed_e, FieldType, scalar_t, enum_ft, embed_ft, rep_t, map_t,
  Package,
}
use protoc_gen_star.Ast.Presence.{has_presence}

-- `joinNames`
abbrev pub join_names : Text → Text → Text
join_names a b = a ++ b'_' ∷ b

-- `protectedNames`, each of which goes to itself with an underscore.
abbrev pub protected_names : List Text
protected_names =
    text "Reset"
    ∷ text "String"
    ∷ text "ProtoMessage"
    ∷ text "Marshal"
    ∷ text "Unmarshal"
    ∷ text "ExtensionRangeArray"
    ∷ text "ExtensionMap"
    ∷ text "Descriptor"
    ∷ []

-- `replaceProtected`
abbrev pub replace_protected : Text → Text
replace_protected n = if is_in n protected_names then n ++ b'_' ∷ [] else n

-- `context.Name` of a field, and of a oneof.
abbrev pub go_field_name : Text → Text
go_field_name n = replace_protected (pgg_upper_camel_case n)

-- `ServerName`, which is also `context.Name` of a service.
abbrev pub server_name : Text → Text
server_name s = pgg_upper_camel_case s ++ text "Server"

-- `ClientName`
abbrev pub client_name : Text → Text
client_name s = pgg_upper_camel_case s ++ text "Client"

-- `ServerStream` of a method of a service
abbrev pub server_stream : Text → Text → Text
server_stream s m = join_names (pgg_upper_camel_case s) (pgg_upper_camel_case m) ++ text "Server"

-- `unicode.IsLower` is an argument beside the other tables.
module _ (u : Unicode) (is_lower : ℕ → Bool) where
  abbrev pub starts_lower_letter : Text → Bool
  starts_lower_letter [] = false
  starts_lower_letter (c ∷ s) = u.is_letter c && is_lower c

  -- `joinChild`
  abbrev pub join_child : Text → Text → Text
  join_child a b =
      if starts_lower_letter b
      then a ++ pgg_upper_camel_case b
      else join_names a (pgg_upper_camel_case b)

  -- `context.Name` of a message or an enum in these messages
  unfoldable pub go_type_name : Text → List Text → Text
  go_type_name n [] = pgg_upper_camel_case n
  go_type_name n (p ∷ ps) = join_child (go_type_name p ps) n

  -- `context.Name` of a value of an enum
  unfoldable pub go_value_name : Text → Text → List Text → Text
  unfolding go_type_name
  go_value_name n e [] = join_names (go_type_name e []) n
  go_value_name n e (p ∷ ps) = join_names (go_type_name p ps) n

  -- The Go names of the messages or enums with these names in a message.
  abbrev pub child_names : Text → List Text → List Text → List Text
  child_names m ms [] = []
  child_names m ms (n ∷ ns) = go_type_name n (m ∷ ms) ∷ child_names m ms ns

  -- `OneofOption` of a field, with the names of the messages and of the enums of its message
  unfoldable pub oneof_option : Text → List Text → Text → List Text → List Text → Text
  unfolding go_type_name
  oneof_option m ms f messages enums =
      let n : Text = join_names (go_type_name m ms) (go_field_name f) in
      if is_in n (child_names m ms messages)
      then n ++ b'_' ∷ []
      else if is_in n (child_names m ms enums)
      then n ++ b'_' ∷ []
      else n

-- An entity that a type refers to: its names, its package and its file.
pub record Referred : Type 0 where
  pub name : Text
  pub around : List Text
  pub pkg : Package
  pub file : File

-- `ft.Key().ProtoType()`
abbrev pub elem_proto_type : FieldTypeElem → ProtoType
elem_proto_type (scalar_e t) = t
elem_proto_type (enum_e e) = enum_t
elem_proto_type (embed_e m) = message_t

abbrev pub map_type : Option Text → Option Text → Option Text
map_type (some k) (some el) = some (map_of k el)
map_type _ _ = none

abbrev pub slice_type : Option Text → Option Text
slice_type (some el) = some (slice_of el)
slice_type none = none

-- `if f.HasPresence() { return t.Pointer() }; return t`
unfoldable pub with_presence : Option Text → Option Bool → Option Text
unfolding pointer
with_presence (some t) (some true) = some (pointer t)
with_presence (some t) (some false) = some t
with_presence _ _ = none

-- The type of a field of the file `home`. `refers` is what the numbers of the graph point to.
module _ (u : Unicode) (is_lower : ℕ → Bool) (is_keyword : Text → Bool) (p : Parameters)
    (refers : ℕ → Referred) (pkg : Package) (home : File) where
  -- `importableTypeName`
  unfoldable pub importable_type_name : Referred → Text
  unfolding go_type_name go_import_path package_name
  importable_type_name e =
      let t = go_type_name u is_lower e.name e.around in
      if go_import_path u p e.pkg e.file == go_import_path u p pkg home
      then t
      else package_name u p is_keyword e.pkg e.file ++ b'.' ∷ t

  -- `elType`
  unfoldable pub el_type : FieldTypeElem → Option Text
  unfolding importable_type_name pointer
  el_type (scalar_e t) = scalar_type t
  el_type (enum_e e) = some (importable_type_name (refers e))
  el_type (embed_e m) = some (pointer (importable_type_name (refers m)))

  -- `context.Type`; `none` where it panics.
  unfoldable pub go_type : Option Text → FieldType → Field → Option Text
  unfolding el_type with_presence importable_type_name has_presence pointer
  go_type syntax (map_t k el) f = map_type (scalar_type (elem_proto_type k)) (el_type el)
  go_type syntax (rep_t el) f = slice_type (el_type el)
  go_type syntax (embed_ft m) f = some (pointer (importable_type_name (refers m)))
  go_type syntax (enum_ft e) f =
      with_presence (some (importable_type_name (refers e))) (has_presence syntax (enum_ft e) f)
  go_type syntax (scalar_t t) f = with_presence (scalar_type t) (has_presence syntax (scalar_t t) f)
