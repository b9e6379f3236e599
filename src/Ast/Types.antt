-- ===== src/Ast/Types.antt =====
-- The types of fields: field_type.go, field_type_elem.go, and the functions of ast.go that make
-- them once every message that they name is in the graph.
use protoc_gen_star.Base.{
  if◌then◌else◌, nat_eq, Text, text_eq, get_elem?, lookup, insert, ℕ, Bool, true, false, List, [],
  ◌∷◌, ◌++◌,
}
use protoc_gen_star.Proto.{ProtoLabel, repeated, ProtoType, group_t, message_t, enum_t}
use protoc_gen_star.Ast.Descriptor.{FieldDesc}
use protoc_gen_star.Ast.Entity.{
  message_k, enum_k, Field, MessageHead, Message, message, head_of, entry_messages,
}
use protoc_gen_star.Ast.Graph.{
  FieldTypeElem, scalar_e, enum_e, embed_e, FieldType, scalar_t, enum_ft, embed_ft, rep_t, map_t,
  group_type, out_of_range, nil_type, repeated_element, done, Hydration, ◌>>=◌, return, fail, need,
  seen_as,
}

-- `FieldType.toElem`
unfoldable pub to_elem : FieldType → Hydration FieldTypeElem
to_elem (scalar_t t) = return (scalar_e t)
to_elem (enum_ft e) = return (enum_e e)
to_elem (embed_ft m) = return (embed_e m)
to_elem (rep_t el) = fail repeated_element
to_elem (map_t k el) = fail repeated_element

-- `m.Fields()[i].Type().toElem()`
unfoldable pub field_elem : MessageHead → ℕ → Hydration FieldTypeElem
unfolding to_elem
field_elem m i = do
  f ← need out_of_range (get_elem? m.fields i)
  t ← (λ g. need nil_type (lookup f.id g.types) g)
  to_elem t

-- `hydrateMapFieldType`
unfoldable pub hydrate_map_field_type : MessageHead → Hydration FieldType
unfolding field_elem
hydrate_map_field_type m = do key ← field_elem m 0; el ← field_elem m 1; return (map_t key el)

unfoldable pub message_field_type : ℕ → MessageHead → Hydration FieldType
unfolding hydrate_map_field_type
message_field_type id m =
    if m.info.map_entry then hydrate_map_field_type m else return (rep_t (embed_e id))

unfoldable pub repeated_field_type : Text → ProtoType → Hydration FieldType
unfolding message_field_type
repeated_field_type name enum_t = do e ← seen_as enum_k name; return (rep_t (enum_e e))
repeated_field_type name message_t = do
  m ← seen_as message_k name
  h ← (λ g. need nil_type (lookup m g.messages) g)
  message_field_type m h
repeated_field_type name t = return (rep_t (scalar_e t))

-- `hydrateRepeatedFieldType`
abbrev pub hydrate_repeated_field_type : FieldDesc → Hydration FieldType
hydrate_repeated_field_type fd = repeated_field_type fd.type_name fd.type

-- `hydrateEnumFieldType` and `hydrateEmbedFieldType`, or the scalar.
unfoldable pub single_field_type : Text → ProtoType → Hydration FieldType
single_field_type name enum_t = do e ← seen_as enum_k name; return (enum_ft e)
single_field_type name message_t = do m ← seen_as message_k name; return (embed_ft m)
single_field_type name t = return (scalar_t t)

abbrev pub is_group : ProtoType → Bool
is_group group_t = true
is_group _ = false

abbrev pub is_repeated_label : ProtoLabel → Bool
is_repeated_label repeated = true
is_repeated_label _ = false

-- `hydrateFieldType`
unfoldable pub hydrate_field_type : FieldDesc → Hydration FieldType
unfolding repeated_field_type single_field_type
hydrate_field_type fd =
    if is_group fd.type
    then fail group_type
    else if is_repeated_label fd.label
    then hydrate_repeated_field_type fd
    else single_field_type fd.type_name fd.type

abbrev pub add_type : ℕ → FieldType → Hydration {0} Unit
add_type id t g = done tt (record g { types = insert id t g.types })

-- `fld.addType(g.hydrateFieldType(fld))` for each field
unfoldable pub add_types : List Field → Hydration {0} Unit
unfolding hydrate_field_type
add_types [] = return tt
add_types (f ∷ fs) = do t ← hydrate_field_type f.desc; u ← add_type f.id t; add_types fs

abbrev pub fields_of : Message → List Field
fields_of m = (head_of m).fields

abbrev pub map_entries : Message → List Message
map_entries (message h ms) = entry_messages ms

-- The fields of a message's map entries.
abbrev pub entry_fields : List Message → List Field
entry_fields [] = []
entry_fields (m ∷ ms) = fields_of m ++ entry_fields ms

-- The fields of these messages in the order of the loop: a message's map entries first.
abbrev pub typed_fields : List Message → List Field
typed_fields [] = []
typed_fields (m ∷ ms) = entry_fields (map_entries m) ++ fields_of m ++ typed_fields ms
