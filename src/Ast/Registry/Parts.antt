-- ===== src/Ast/Registry/Parts.antt =====
-- The functions that build the parts of a file leave the registers alone.
use protoc_gen_star.Base.{Text, ℕ, refl, Option, none, some, List, [], ◌∷◌}
use protoc_gen_star.Ast.Descriptor.{
  FieldDesc, EnumValueDesc, EnumDesc, OneofDesc, MessageDesc, message_desc, MessageDescs, no_descs,
  desc_cons, MethodDesc, ServiceDesc,
}
use protoc_gen_star.Ast.Entity.{
  message_k, enum_k, enum_value_k, field_k, extension_k, oneof_k, service_k, method_k, Field, Oneof,
  message, no_messages,
}
use protoc_gen_star.Ast.Graph.{out_of_range, allocate, seen_as, each}
use protoc_gen_star.Ast.Hydrate.{
  fully_qualified_name, hydrate_enum_value, hydrate_enum, hydrate_enums, hydrate_oneof,
  hydrate_oneofs, hydrate_field, add_field, join_oneof, hydrate_fields, append_extension,
  new_extension, hydrate_extension, hydrate_extensions, new_head, keep_message, hydrate_message,
  hydrate_messages, hydrate_method, hydrate_service, hydrate_services,
}
use protoc_gen_star.Ast.Registry.{
  Through, Through-step, Through-bind, Through-return, Through-need, Through-each, Through-allocate,
  seen_as-Through,
}

hydrate_enum_value-Through : (p : Text) (d : EnumValueDesc) → Through (hydrate_enum_value p d)
unfolding hydrate_enum_value
hydrate_enum_value-Through p d =
    Through-bind (allocate _ enum_value_k) _ (Through-allocate _ enum_value_k)
      (λ id. Through-return _)

hydrate_enum-Through : (p : Text) (d : EnumDesc) → Through (hydrate_enum p d)
unfolding hydrate_enum
hydrate_enum-Through p d = Through-bind (allocate _ enum_k) _ (Through-allocate _ enum_k) (λ id.
    Through-bind (each (hydrate_enum_value _) d.values) _
      (Through-each _ (hydrate_enum_value-Through _) d.values) (λ vs. Through-return _))

pub hydrate_enums-Through : (p : Text) (ds : List EnumDesc) → Through (hydrate_enums p ds)
hydrate_enums-Through p = Through-each (hydrate_enum p) (hydrate_enum-Through p)

hydrate_oneof-Through : (p : Text) (d : OneofDesc) → Through (hydrate_oneof p d)
unfolding hydrate_oneof
hydrate_oneof-Through p d =
    Through-bind (allocate _ oneof_k) _ (Through-allocate _ oneof_k) (λ id. Through-return _)

hydrate_field-Through : (p : Text) (d : FieldDesc) → Through (hydrate_field p d)
unfolding hydrate_field
hydrate_field-Through p d =
    Through-bind (allocate _ field_k) _ (Through-allocate _ field_k) (λ id. Through-return _)

join_oneof-Through : (i : Option ℕ) (f : Field) (os : List Oneof) → Through (join_oneof i f os)
unfolding join_oneof
join_oneof-Through none f os = Through-return os
join_oneof-Through (some i) f os = Through-need out_of_range (λ g. add_field i f os)

hydrate_fields-Through :
    (p : Text) (ds : List FieldDesc) (os : List Oneof) → Through (hydrate_fields p ds os)
unfolding hydrate_fields
hydrate_fields-Through p [] os = Through-return ([], os)
hydrate_fields-Through p (d ∷ ds) os =
    Through-bind (hydrate_field p d) _ (hydrate_field-Through p d) (λ f.
      Through-bind (join_oneof d.oneof_index f os) _ (join_oneof-Through d.oneof_index f os) (λ os'.
        Through-bind (hydrate_fields p ds os') _ (hydrate_fields-Through p ds os')
          (λ rest. Through-return _)))

hydrate_extension-Through : (p : Text) (d : FieldDesc) → Through (hydrate_extension p d)
unfolding hydrate_extension
hydrate_extension-Through p d =
    let fqn = fully_qualified_name p d.name in
    Through-bind (allocate fqn extension_k) _ (Through-allocate fqn extension_k) (λ id.
      Through-bind (append_extension (new_extension p d id)) _
        (Through-step (λ g. tt) _ (λ g. (refl, refl, refl, λ i x. x)))
        (λ u. Through-return (new_extension p d id)))

pub hydrate_extensions-Through :
    (p : Text) (ds : List FieldDesc) → Through (hydrate_extensions p ds)
hydrate_extensions-Through p = Through-each (hydrate_extension p) (hydrate_extension-Through p)

mutual
  unfolding hydrate_message

  hydrate_message-Through : (p : Text) (d : MessageDesc) → Through (hydrate_message p d)
  hydrate_message-Through p (message_desc md nested) =
      let fqn = fully_qualified_name p md.name in
      Through-bind (allocate fqn message_k) _ (Through-allocate fqn message_k) (λ id.
        Through-bind (hydrate_enums fqn md.enum_types) _ (hydrate_enums-Through fqn md.enum_types)
          (λ es.
            Through-bind (hydrate_messages fqn nested) _ (hydrate_messages-Through fqn nested)
              (λ ms.
                Through-bind (hydrate_oneofs fqn md.oneof_decls) _
                  (Through-each (hydrate_oneof fqn) (hydrate_oneof-Through fqn) md.oneof_decls)
                  (λ os.
                    Through-bind (hydrate_fields fqn md.fields os) _
                      (hydrate_fields-Through fqn md.fields os)
                      (λ fs.
                        Through-bind (hydrate_extensions fqn md.extensions) _
                          (hydrate_extensions-Through fqn md.extensions)
                          (λ xs.
                            Through-bind (keep_message (new_head fqn md id es fs xs)) _
                              (Through-step (λ g. tt) _ (λ g. (refl, refl, refl, λ i x. x)))
                              (λ u. Through-return (message (new_head fqn md id es fs xs) ms))))))))

  pub hydrate_messages-Through : (p : Text) (ds : MessageDescs) → Through (hydrate_messages p ds)
  hydrate_messages-Through p no_descs = Through-return no_messages
  hydrate_messages-Through p (desc_cons d ds) =
      Through-bind (hydrate_message p d) _ (hydrate_message-Through p d) (λ m.
        Through-bind (hydrate_messages p ds) _ (hydrate_messages-Through p ds)
          (λ ms. Through-return _))

hydrate_method-Through : (p : Text) (d : MethodDesc) → Through (hydrate_method p d)
unfolding hydrate_method
hydrate_method-Through p d =
    Through-bind (allocate _ method_k) _ (Through-allocate _ method_k) (λ id.
      Through-bind (seen_as message_k d.input_type) _ (seen_as-Through message_k d.input_type) (λ i.
        Through-bind (seen_as message_k d.output_type) _ (seen_as-Through message_k d.output_type)
          (λ o. Through-return _)))

hydrate_service-Through : (p : Text) (d : ServiceDesc) → Through (hydrate_service p d)
unfolding hydrate_service
hydrate_service-Through p d =
    Through-bind (allocate _ service_k) _ (Through-allocate _ service_k) (λ id.
      Through-bind (each (hydrate_method _) d.methods) _
        (Through-each _ (hydrate_method-Through _) d.methods) (λ ms. Through-return _))

pub hydrate_services-Through : (p : Text) (ds : List ServiceDesc) → Through (hydrate_services p ds)
hydrate_services-Through p = Through-each (hydrate_service p) (hydrate_service-Through p)
