-- ===== src/Ast/Names.antt =====
-- What the graph holds once the messages, the services and the files are in it.
use protoc_gen_star.Base.{Text, refl, sym, ap, ◌∙◌, List, [], ◌∷◌}
use protoc_gen_star.Ast.Descriptor.{
  MessageInfo, MessageDesc, message_desc, MessageDescs, no_descs, desc_cons, MethodDesc,
  ServiceDesc, FileDesc,
}
use protoc_gen_star.Ast.Entity.{file_k, message_k, service_k, method_k, message, file_all_messages}
use protoc_gen_star.Ast.Graph.{Graph, seen_as}
use protoc_gen_star.Ast.Hydrate.{
  fully_qualified_name, hydrate_enums, hydrate_oneofs, hydrate_fields, hydrate_extensions, new_head,
  keep_message, hydrate_message, hydrate_messages, hydrate_method, hydrate_service,
  hydrate_services,
}
use protoc_gen_star.Ast.Entries.{
  collect, entry, method_entries, service_entries, message_entries, messages_entries, file_entries,
  method_names, service_names, message_names, messages_names, file_names,
}
use protoc_gen_star.Ast.Leads.{
  Leads, done_graph, Leads-return, Leads-bind, Leads-keep, Leads-allocate, Leads-map, Same-append,
  Same-cons, Same-end, Made, Leads-each, Leads-owner,
}
use protoc_gen_star.Ast.Keeps.{
  seen_as-Keeps, add_types-Keeps, hydrate_dependencies-Keeps, mark_target-Keeps,
  hydrate_package-Keeps, add_file-Keeps, hydrate_source_code_info-Keeps,
}
use protoc_gen_star.Ast.SourceInfo.{hydrate_source_code_info}
use protoc_gen_star.Ast.Types.{add_types, typed_fields}
use protoc_gen_star.Ast.Process.{
  hydrate_package, hydrate_dependencies, mark_target, file_fqn, new_file, hydrate_file, add_file,
  hydrate_files,
}
use protoc_gen_star.Ast.Made.{
  hydrate_enums-Made, hydrate_oneofs-Made, hydrate_extensions-Made, hydrate_fields-Leads,
}

abbrev fqn : Text → MessageInfo → Text
fqn p md = fully_qualified_name p md.name

mutual
  unfolding hydrate_message

  hydrate_message-Made :
      (p : Text) (d : MessageDesc)
      → Leads (hydrate_message p d) (Made message_entries (message_names p d))
  hydrate_message-Made p (message_desc md nested) =
      Leads-allocate (fqn p md) message_k _
        (Made message_entries (message_names p (message_desc md nested)))
        (λ id.
          Leads-bind (hydrate_enums (fqn p md) md.enum_types) _ _ _
            (hydrate_enums-Made (fqn p md) md.enum_types)
            (λ es l1 q1.
              Leads-bind (hydrate_messages (fqn p md) nested) _ _ _
                (hydrate_messages-Made (fqn p md) nested)
                (λ ms l2 q2.
                  Leads-bind (hydrate_oneofs (fqn p md) md.oneof_decls) _ _ _
                    (hydrate_oneofs-Made (fqn p md) md.oneof_decls)
                    (λ os l3 q3.
                      Leads-bind (hydrate_fields (fqn p md) md.fields os) _ _ _
                        (hydrate_fields-Leads (fqn p md) md.fields os)
                        (λ fs l4 q4.
                          Leads-bind (hydrate_extensions (fqn p md) md.extensions) _ _ _
                            (hydrate_extensions-Made (fqn p md) md.extensions)
                            (λ xs l5 q5.
                              Leads-keep (keep_message (new_head (fqn p md) md id es fs xs)) _ _
                                (λ g g' u h. ap (λ (x : Graph). x.entities) (sym (done_graph h)))
                                (λ u.
                                  Leads-return (message (new_head (fqn p md) md id es fs xs) ms) _ (
                                    Same-cons (fqn p md) (record { kind = message_k; id = id })
                                      (Same-append q1 (
                                        Same-append q2 (
                                          Same-append (q3.0 ∙ sym q4.1, q3.1)
                                            (Same-append q4.0 (Same-end q5)))))))))))))

  pub hydrate_messages-Made :
      (p : Text) (ds : MessageDescs)
      → Leads (hydrate_messages p ds) (Made messages_entries (messages_names p ds))
  hydrate_messages-Made p no_descs = Leads-return _ _ (refl, refl)
  hydrate_messages-Made p (desc_cons d ds) =
      Leads-bind (hydrate_message p d) _ _ _ (hydrate_message-Made p d) (λ m l q.
        Leads-map (hydrate_messages p ds) _ _ _ (hydrate_messages-Made p ds)
          (λ ms l' q'. Same-append q q'))

hydrate_method-Made :
    (p : Text) (d : MethodDesc)
    → Leads (hydrate_method p d) (Made method_entries (method_names p d))
unfolding hydrate_method
hydrate_method-Made p d =
    Leads-allocate (fully_qualified_name p d.name) method_k _
      (Made method_entries (method_names p d))
      (λ id.
        Leads-keep (seen_as message_k d.input_type) _ _ (seen_as-Keeps message_k d.input_type) (λ i.
          Leads-keep (seen_as message_k d.output_type) _ _ (seen_as-Keeps message_k d.output_type)
            (λ o.
              Leads-return _
                (λ a l.
                  Made method_entries (method_names p d) a
                    (entry (fully_qualified_name p d.name) method_k id ∷ l))
                (refl, refl))))

hydrate_service-Made :
    (p : Text) (d : ServiceDesc)
    → Leads (hydrate_service p d) (Made service_entries (service_names p d))
unfolding hydrate_service
hydrate_service-Made p d =
    Leads-owner (fully_qualified_name p d.name) service_k _ _ service_entries
      (collect method_entries) _ (λ id ms. refl)
      (Leads-each _ method_entries (method_names (fully_qualified_name p d.name))
        (hydrate_method-Made (fully_qualified_name p d.name)) d.methods)

hydrate_services-Made :
    (p : Text) (ds : List ServiceDesc)
    → Leads (hydrate_services p ds) (Made (collect service_entries) (collect (service_names p) ds))
hydrate_services-Made p = Leads-each _ service_entries (service_names p) (hydrate_service-Made p)

pub hydrate_file-Made : (d : FileDesc) → Leads (hydrate_file d) (Made file_entries (file_names d))
unfolding hydrate_file
hydrate_file-Made d = Leads-allocate d.name file_k _ (Made file_entries (file_names d)) (λ id.
    Leads-keep (hydrate_dependencies id d.dependencies) _ _
      (hydrate_dependencies-Keeps id d.dependencies)
      (λ ds. Leads-keep (mark_target d.name id) _ _ (mark_target-Keeps d.name id) (λ target.
        Leads-bind (hydrate_enums p d.enum_types) _ _ _ (hydrate_enums-Made p d.enum_types)
          (λ es l1 q1.
            Leads-bind (hydrate_extensions p d.extensions) _ _ _
              (hydrate_extensions-Made p d.extensions)
              (λ xs l2 q2.
                Leads-bind (hydrate_messages p d.message_types) _ _ _
                  (hydrate_messages-Made p d.message_types)
                  (λ ms l3 q3.
                    Leads-bind (hydrate_services p d.services) _ _ _
                      (hydrate_services-Made p d.services)
                      (λ ss l4 q4.
                        Leads-keep (add_types (typed_fields (file_all_messages ms))) _ _
                          (add_types-Keeps (typed_fields (file_all_messages ms)))
                          (λ u.
                            Leads-keep
                              (hydrate_source_code_info (new_file d id ds target es xs ms ss)
                                d.locations)
                              _ _
                              (hydrate_source_code_info-Keeps (new_file d id ds target es xs ms ss)
                                d.locations)
                              (λ v. Leads-return (new_file d id ds target es xs ms ss) _ (
                                Same-cons d.name (record { kind = file_k; id = id })
                                  (Same-append q1
                                    (Same-append q2 (Same-append q3 (Same-end q4))))))))))))))
  where
    p : Text
    p = file_fqn d.package_name

pub hydrate_files-Made :
    (ds : List FileDesc)
    → Leads (hydrate_files ds) (Made (collect file_entries) (collect file_names ds))
unfolding hydrate_files
hydrate_files-Made [] = Leads-return [] _ (refl, refl)
hydrate_files-Made (d ∷ ds) =
    Leads-keep (hydrate_package d.package_name) _ _ (hydrate_package-Keeps d.package_name) (λ u.
      Leads-bind (hydrate_file d) _ _ _ (hydrate_file-Made d) (λ fl l q.
        Leads-keep (add_file d.package_name fl) _ _ (add_file-Keeps d.package_name fl) (λ v.
          Leads-map (hydrate_files ds) _ _ _ (hydrate_files-Made ds)
            (λ fls l' q'. Same-append q q'))))
