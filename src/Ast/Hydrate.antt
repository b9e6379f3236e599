-- ===== src/Ast/Hydrate.antt =====
-- ast.go: the functions that build the entities of a file out of its descriptor. An entity is the
-- value that its `hydrate` function returns; the calls that append it to its owner are the lists
-- that the owner is made with.
use protoc_gen_star.Base.{
  nat_eq, Text, text_eq, text, insert, ℕ, zero, suc, Option, none, some, List, [], ◌∷◌, ◌++◌,
}
use protoc_gen_star.Ast.Descriptor.{
  FieldDesc, EnumValueDesc, EnumDesc, OneofDesc, MessageInfo, MessageDesc, message_desc,
  MessageDescs, no_descs, desc_cons, MethodDesc, ServiceDesc,
}
use protoc_gen_star.Ast.Entity.{
  message_k, enum_k, enum_value_k, field_k, extension_k, oneof_k, service_k, method_k, EnumValue,
  Enum, Field, Extension, Oneof, MessageHead, Message, message, Messages, no_messages, msg_cons,
  Method, Service,
}
use protoc_gen_star.Ast.Graph.{
  out_of_range, done, Hydration, ◌>>=◌, return, allocate, seen_as, need, each,
}

-- `fullyQualifiedName` of an entity with this name under an owner with that one.
abbrev pub fully_qualified_name : Text → Text → Text
fully_qualified_name p name = p ++ text "." ++ name

unfoldable pub hydrate_enum_value : Text → EnumValueDesc → Hydration EnumValue
hydrate_enum_value p vd = do
  id ← allocate (fully_qualified_name p vd.name) enum_value_k
  return (record { id = id; fqn = fully_qualified_name p vd.name; desc = vd })

abbrev pub hydrate_enum_values : Text → List EnumValueDesc → Hydration (List EnumValue)
hydrate_enum_values p = each (hydrate_enum_value p)

unfoldable pub hydrate_enum : Text → EnumDesc → Hydration Enum
hydrate_enum p ed = do
  id ← allocate (fully_qualified_name p ed.name) enum_k
  vs ← hydrate_enum_values (fully_qualified_name p ed.name) ed.values
  return (record { id = id; fqn = fully_qualified_name p ed.name; name = ed.name; vals = vs })

abbrev pub hydrate_enums : Text → List EnumDesc → Hydration (List Enum)
hydrate_enums p = each (hydrate_enum p)

-- `hydrateOneOf`
unfoldable pub hydrate_oneof : Text → OneofDesc → Hydration Oneof
hydrate_oneof p od = do
  id ← allocate (fully_qualified_name p od.name) oneof_k
  return (record { id = id; fqn = fully_qualified_name p od.name; name = od.name; flds = [] })

abbrev pub hydrate_oneofs : Text → List OneofDesc → Hydration (List Oneof)
hydrate_oneofs p = each (hydrate_oneof p)

-- `hydrateField`; the oneof of the field is set by `addField` of that oneof.
unfoldable pub hydrate_field : Text → FieldDesc → Hydration Field
hydrate_field p fd = do
  id ← allocate (fully_qualified_name p fd.name) field_k
  return
      (record { id = id; fqn = fully_qualified_name p fd.name; desc = fd; oneof = fd.oneof_index })

-- `m.oneofs[*idx].addField(fld)`: `none` where the index panics.
unfoldable pub add_field : ℕ → Field → List Oneof → Option (List Oneof)
add_field i f [] = none
add_field zero f (o ∷ os) = some (record o { flds = o.flds ++ f ∷ [] } ∷ os)
add_field (suc i) f (o ∷ os) = elim (add_field i f os) [ none ↦ none | some os' ↦ some (o ∷ os') ]

unfoldable pub join_oneof : Option ℕ → Field → List Oneof → Hydration (List Oneof)
unfolding add_field
join_oneof none f os = return os
join_oneof (some i) f os = need out_of_range (add_field i f os)

-- The loop on the fields of a message, with the oneofs that they join.
unfoldable pub hydrate_fields :
    Text → List FieldDesc → List Oneof → Hydration (List Field × List Oneof)
hydrate_fields p [] os = return ([], os)
hydrate_fields p (fd ∷ fds) os = do
  f ← hydrate_field p fd
  os' ← join_oneof fd.oneof_index f os
  rest ← hydrate_fields p fds os'
  return (f ∷ rest.0, rest.1)

abbrev pub append_extension : Extension → Hydration {0} Unit
append_extension x g = done tt (record g { extensions = g.extensions ++ x ∷ [] })

abbrev pub new_extension : Text → FieldDesc → ℕ → Extension
new_extension p fd id = record { id = id; fqn = fully_qualified_name p fd.name; desc = fd }

-- `hydrateExtension`
unfoldable pub hydrate_extension : Text → FieldDesc → Hydration Extension
hydrate_extension p fd = do
  id ← allocate (fully_qualified_name p fd.name) extension_k
  u ← append_extension (new_extension p fd id)
  return (new_extension p fd id)

abbrev pub hydrate_extensions : Text → List FieldDesc → Hydration (List Extension)
hydrate_extensions p = each (hydrate_extension p)

-- The object of a message with what the loops appended to it.
abbrev pub new_head :
    Text → MessageInfo → ℕ → List Enum → List Field × List Oneof → List Extension → MessageHead
new_head fqn md id es fs xs = record {
  id = id;
  fqn = fqn;
  info = md;
  enums = es;
  oneofs = fs.1;
  fields = fs.0;
  def_exts = xs;
}

-- The finished object of a message, where a pointer to it finds it.
abbrev pub keep_message : MessageHead → Hydration {0} Unit
keep_message h g = done tt (record g { messages = insert h.id h g.messages })

unfoldable mutual
  pub hydrate_message : Text → MessageDesc → Hydration Message
  hydrate_message p (message_desc md nested) = do
    id ← allocate (fully_qualified_name p md.name) message_k
    let fqn = fully_qualified_name p md.name
    es ← hydrate_enums fqn md.enum_types
    ms ← hydrate_messages fqn nested
    os ← hydrate_oneofs fqn md.oneof_decls
    fs ← hydrate_fields fqn md.fields os
    xs ← hydrate_extensions fqn md.extensions
    u ← keep_message (new_head fqn md id es fs xs)
    return (message (new_head fqn md id es fs xs) ms)

  pub hydrate_messages : Text → MessageDescs → Hydration Messages
  hydrate_messages p no_descs = return no_messages
  hydrate_messages p (desc_cons md mds) = do
    m ← hydrate_message p md
    ms ← hydrate_messages p mds
    return (msg_cons m ms)

unfoldable pub hydrate_method : Text → MethodDesc → Hydration Method
hydrate_method p md = do
  id ← allocate (fully_qualified_name p md.name) method_k
  i ← seen_as message_k md.input_type
  o ← seen_as message_k md.output_type
  return
      (record { id = id; fqn = fully_qualified_name p md.name; desc = md; input = i; output = o })

abbrev pub hydrate_methods : Text → List MethodDesc → Hydration (List Method)
hydrate_methods p = each (hydrate_method p)

unfoldable pub hydrate_service : Text → ServiceDesc → Hydration Service
hydrate_service p sd = do
  id ← allocate (fully_qualified_name p sd.name) service_k
  ms ← hydrate_methods (fully_qualified_name p sd.name) sd.methods
  return (record { id = id; fqn = fully_qualified_name p sd.name; name = sd.name; methods = ms })

abbrev pub hydrate_services : Text → List ServiceDesc → Hydration (List Service)
hydrate_services p = each (hydrate_service p)
