-- ===== src/Ast/Presence/Request.antt =====
-- Every message that a request builds has its fields parted by its oneofs.
use mathlib.Core.List.{Perm}
use mathlib.Core.Path.{subst}
use protoc_gen_star.Base.{Text, All, ◌≡◌, refl, ap, ◌∙◌, List, [], ◌∷◌, ◌++◌}
use protoc_gen_star.Ast.Descriptor.{
  OneofDesc, MessageDesc, message_desc, MessageDescs, no_descs, desc_cons, FileDesc, Request,
}
use protoc_gen_star.Ast.Entity.{
  file_k, message_k, oneof_k, Oneof, MessageHead, Message, message, Messages, no_messages, msg_cons,
  File, file_all_messages,
}
use protoc_gen_star.Ast.Graph.{Graph, done, allocate, each}
use protoc_gen_star.Ast.Types.{add_types, typed_fields}
use protoc_gen_star.Ast.Hydrate.{
  fully_qualified_name, hydrate_enums, hydrate_oneof, hydrate_oneofs, hydrate_fields,
  hydrate_extensions, new_head, keep_message, hydrate_message, hydrate_messages, hydrate_services,
}
use protoc_gen_star.Ast.SourceInfo.{hydrate_source_code_info}
use protoc_gen_star.Ast.Process.{
  hydrate_package, hydrate_dependencies, mark_target, file_fqn, new_file, hydrate_file, add_file,
  hydrate_files, connect_extensions, new_graph, process_request,
}
use protoc_gen_star.Ast.Returns.{Returns, Returns-return, Returns-bind, Returns-after}
use protoc_gen_star.Ast.Presence.{non_oneof_fields, oneof_fields}
use protoc_gen_star.Ast.Presence.Partition.{hydrate_fields-Perm}

abbrev Empty : List Oneof → Type 0
Empty os = oneof_fields os ≡ []

hydrate_oneof-Empty : (p : Text) (d : OneofDesc) → Returns (hydrate_oneof p d) (λ o. o.flds ≡ [])
unfolding hydrate_oneof
hydrate_oneof-Empty p d =
    Returns-after (allocate (fully_qualified_name p d.name) oneof_k) _ (λ o. o.flds ≡ [])
      (λ id. Returns-return _ (λ o. o.flds ≡ []) refl)

hydrate_oneofs-Empty : (p : Text) (ds : List OneofDesc) → Returns (hydrate_oneofs p ds) Empty
unfolding each oneof_fields
hydrate_oneofs-Empty p [] = Returns-return [] Empty refl
hydrate_oneofs-Empty p (d ∷ ds) =
    Returns-bind (hydrate_oneof p d) _ (λ o. o.flds ≡ []) Empty (hydrate_oneof-Empty p d)
      (λ o e.
        Returns-bind (hydrate_oneofs p ds) _ Empty Empty (hydrate_oneofs-Empty p ds)
          (λ os e'. Returns-return (o ∷ os) Empty (ap (◌++ oneof_fields os) e ∙ e')))

-- The fields in the oneofs of a message and those in none are its fields.
abbrev pub Parted : MessageHead → Type 0
Parted h = Perm (oneof_fields h.oneofs ++ non_oneof_fields h.fields) h.fields

abbrev mutual
  -- This message and all below it.
  pub PartedAll : Message → Type 0
  PartedAll (message h ms) = Parted h × PartedEach ms

  pub PartedEach : Messages → Type 0
  PartedEach no_messages = Unit
  PartedEach (msg_cons m ms) = PartedAll m × PartedEach ms

mutual
  unfolding hydrate_message

  hydrate_message-PartedAll : (p : Text) (d : MessageDesc) → Returns (hydrate_message p d) PartedAll
  hydrate_message-PartedAll p (message_desc md nested) =
      let fqn = fully_qualified_name p md.name in
      Returns-after (allocate fqn message_k) _ PartedAll (λ id.
        Returns-after (hydrate_enums fqn md.enum_types) _ PartedAll (λ es.
          Returns-bind (hydrate_messages fqn nested) _ PartedEach PartedAll
            (hydrate_messages-PartedEach fqn nested)
            (λ ms below.
              Returns-bind (hydrate_oneofs fqn md.oneof_decls) _ Empty PartedAll
                (hydrate_oneofs-Empty fqn md.oneof_decls)
                (λ os empty.
                  Returns-bind (hydrate_fields fqn md.fields os) _
                    (λ fs.
                      Perm (oneof_fields fs.1 ++ non_oneof_fields fs.0) (oneof_fields os ++ fs.0))
                    PartedAll (hydrate_fields-Perm fqn md.fields os)
                    (λ fs parts.
                      Returns-after (hydrate_extensions fqn md.extensions) _ PartedAll (λ xs.
                        Returns-after (keep_message (new_head fqn md id es fs xs)) _ PartedAll (λ u.
                          Returns-return (message (new_head fqn md id es fs xs) ms) PartedAll (
                            subst
                                (λ l. Perm (oneof_fields fs.1 ++ non_oneof_fields fs.0) (l ++ fs.0))
                                empty parts,
                            below,
                          ))))))))

  hydrate_messages-PartedEach :
      (p : Text) (ds : MessageDescs) → Returns (hydrate_messages p ds) PartedEach
  hydrate_messages-PartedEach p no_descs = Returns-return no_messages PartedEach tt
  hydrate_messages-PartedEach p (desc_cons d ds) =
      Returns-bind (hydrate_message p d) _ PartedAll PartedEach (hydrate_message-PartedAll p d)
        (λ m this.
          Returns-bind (hydrate_messages p ds) _ PartedEach PartedEach
            (hydrate_messages-PartedEach p ds)
            (λ ms rest. Returns-return (msg_cons m ms) PartedEach (this, rest)))

abbrev PartedFile : File → Type 0
PartedFile f = PartedEach f.msgs

hydrate_file-PartedFile : (d : FileDesc) → Returns (hydrate_file d) PartedFile
unfolding hydrate_file
hydrate_file-PartedFile d =
    let fqn = file_fqn d.package_name in
    Returns-after (allocate d.name file_k) _ PartedFile (λ id.
      Returns-after (hydrate_dependencies id d.dependencies) _ PartedFile (λ ds.
        Returns-after (mark_target d.name id) _ PartedFile (λ target.
          Returns-after (hydrate_enums fqn d.enum_types) _ PartedFile (λ es.
            Returns-after (hydrate_extensions fqn d.extensions) _ PartedFile (λ xs.
              Returns-bind (hydrate_messages fqn d.message_types) _ PartedEach PartedFile
                (hydrate_messages-PartedEach fqn d.message_types)
                (λ ms parts. Returns-after (hydrate_services fqn d.services) _ PartedFile (λ ss.
                  let fl = new_file d id ds target es xs ms ss in
                  Returns-after (add_types (typed_fields (file_all_messages ms))) _ PartedFile (λ u.
                    Returns-after (hydrate_source_code_info fl d.locations) _ PartedFile
                      (λ v. Returns-return fl PartedFile parts)))))))))

hydrate_files-PartedFile : (ds : List FileDesc) → Returns (hydrate_files ds) (All PartedFile)
unfolding hydrate_files
hydrate_files-PartedFile [] = Returns-return [] (All PartedFile) tt
hydrate_files-PartedFile (d ∷ ds) =
    Returns-after (hydrate_package d.package_name) _ (All PartedFile) (λ u.
      Returns-bind (hydrate_file d) _ PartedFile (All PartedFile) (hydrate_file-PartedFile d)
        (λ f parts. Returns-after (add_file d.package_name f) _ (All PartedFile) (λ v.
          Returns-bind (hydrate_files ds) _ (All PartedFile) (All PartedFile)
            (hydrate_files-PartedFile ds)
            (λ fs rest. Returns-return (f ∷ fs) (All PartedFile) (parts, rest)))))

-- If a request is processed without failure, then in each of its messages, nested ones and map
-- entries included, the fields of the oneofs and the fields in no oneof are together the fields of
-- the message, each of them once.
pub process_request-PartedEach :
    (req : Request) (fs : List File) (g : Graph)
    → process_request req ≡ done fs g
    → All (λ (f : File). PartedEach f.msgs) fs
unfolding process_request
process_request-PartedEach req fs g =
    Returns-bind (hydrate_files req.proto_files) _ (All PartedFile) (All PartedFile)
      (hydrate_files-PartedFile req.proto_files)
      (λ fls parts.
        Returns-after (λ g'. connect_extensions g'.extensions g') _ (All PartedFile)
          (λ u. Returns-return fls (All PartedFile) parts))
      (new_graph req) g fs
