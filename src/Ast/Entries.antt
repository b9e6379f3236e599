-- ===== src/Ast/Entries.antt =====
-- What the entities of a tree are called and where each is found: the entries that the graph gets
-- for it, in the order in which it gets them, and their names as the descriptor gives them.
use protoc_gen_star.Base.{Text, ℕ, List, [], ◌∷◌, ◌++◌}
use protoc_gen_star.Ast.Descriptor.{
  FieldDesc, EnumValueDesc, EnumDesc, OneofDesc, MessageDesc, message_desc, MessageDescs, no_descs,
  desc_cons, MethodDesc, ServiceDesc, FileDesc,
}
use protoc_gen_star.Ast.Entity.{
  Kind, file_k, message_k, enum_k, enum_value_k, field_k, extension_k, oneof_k, service_k, method_k,
  Ref, EnumValue, Enum, Field, Extension, Oneof, Message, message, Messages, no_messages, msg_cons,
  Method, Service, File,
}
use protoc_gen_star.Ast.Process.{file_fqn}
use protoc_gen_star.Ast.Hydrate.{fully_qualified_name}

abbrev pub Entries : Type 0
Entries = List (Text × Ref)

abbrev pub collect {ℓ κ} : {A : Type ℓ} {B : Type κ} → (A → List B) → List A → List B
collect f [] = []
collect f (x ∷ xs) = f x ++ collect f xs

abbrev pub entry : Text → Kind → ℕ → Text × Ref
entry fqn k id = (fqn, record { kind = k; id = id })

abbrev pub enum_value_entries : EnumValue → Entries
enum_value_entries v = entry v.fqn enum_value_k v.id ∷ []

abbrev pub enum_entries : Enum → Entries
enum_entries e = entry e.fqn enum_k e.id ∷ collect enum_value_entries e.vals

abbrev pub oneof_entries : Oneof → Entries
oneof_entries o = entry o.fqn oneof_k o.id ∷ []

abbrev pub field_entries : Field → Entries
field_entries f = entry f.fqn field_k f.id ∷ []

abbrev pub extension_entries : Extension → Entries
extension_entries x = entry x.fqn extension_k x.id ∷ []

abbrev pub method_entries : Method → Entries
method_entries m = entry m.fqn method_k m.id ∷ []

abbrev pub service_entries : Service → Entries
service_entries s = entry s.fqn service_k s.id ∷ collect method_entries s.methods

abbrev mutual
  pub message_entries : Message → Entries
  message_entries (message h ms) =
      entry h.fqn message_k h.id
      ∷ (collect enum_entries h.enums
          ++ (messages_entries ms
              ++ (collect oneof_entries h.oneofs
                  ++ (collect field_entries h.fields ++ collect extension_entries h.def_exts))))

  pub messages_entries : Messages → Entries
  messages_entries no_messages = []
  messages_entries (msg_cons m ms) = message_entries m ++ messages_entries ms

abbrev pub file_entries : File → Entries
file_entries f =
    entry f.desc.name file_k f.id
    ∷ (collect enum_entries f.enums
        ++ (collect extension_entries f.def_exts
            ++ (messages_entries f.msgs ++ collect service_entries f.srvs)))

abbrev pub enum_value_names : Text → EnumValueDesc → List Text
enum_value_names p d = fully_qualified_name p d.name ∷ []

abbrev pub enum_names : Text → EnumDesc → List Text
enum_names p d =
    fully_qualified_name p d.name
    ∷ collect (enum_value_names (fully_qualified_name p d.name)) d.values

abbrev pub oneof_names : Text → OneofDesc → List Text
oneof_names p d = fully_qualified_name p d.name ∷ []

abbrev pub field_names : Text → FieldDesc → List Text
field_names p d = fully_qualified_name p d.name ∷ []

abbrev pub method_names : Text → MethodDesc → List Text
method_names p d = fully_qualified_name p d.name ∷ []

abbrev pub service_names : Text → ServiceDesc → List Text
service_names p d =
    fully_qualified_name p d.name ∷ collect (method_names (fully_qualified_name p d.name)) d.methods

abbrev mutual
  pub message_names : Text → MessageDesc → List Text
  message_names p (message_desc d ds) =
      fully_qualified_name p d.name
      ∷ (collect (enum_names (fully_qualified_name p d.name)) d.enum_types
          ++ (messages_names (fully_qualified_name p d.name) ds
              ++ (collect (oneof_names (fully_qualified_name p d.name)) d.oneof_decls
                  ++ (collect (field_names (fully_qualified_name p d.name)) d.fields
                      ++ collect (field_names (fully_qualified_name p d.name)) d.extensions))))

  pub messages_names : Text → MessageDescs → List Text
  messages_names p no_descs = []
  messages_names p (desc_cons d ds) = message_names p d ++ messages_names p ds

abbrev pub file_names : FileDesc → List Text
file_names d =
    d.name
    ∷ (collect (enum_names (file_fqn d.package_name)) d.enum_types
        ++ (collect (field_names (file_fqn d.package_name)) d.extensions
            ++ (messages_names (file_fqn d.package_name) d.message_types
                ++ collect (service_names (file_fqn d.package_name)) d.services)))
