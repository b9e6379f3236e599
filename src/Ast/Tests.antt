-- ===== src/Ast/Tests.antt =====
-- Requests of two small files, and what is built for them.
use protoc_gen_star.Ast.Registry.Groups.{in_package, grouped, last_named, all_edges}
use protoc_gen_star.Ast.Registry.Typed.{
  MessageTyped, process_request-Typed, process_request-assign_files,
}
use protoc_gen_star.Ast.Dependents.{Uses, assign_files}
use protoc_gen_star.Ast.Dependents.Converse.{Converse, PlainKeys}
use protoc_gen_star.Ast.Registry.Packages.{AreMade, process_request-registers}
use protoc_gen_star.Base.{
  if◌then◌else◌, nat_eq, Text, text_eq, text, ne_of_beq, All, is_some, lookup, insert, String, ◌≡◌,
  refl, Bool, true, false, none, some, List, [], ◌∷◌, ◌++◌,
}
use protoc_gen_star.Proto.{
  proto3, ProtoLabel, optional, repeated, ProtoType, int64_t, string_t, message_t,
}
use protoc_gen_star.Ast.Descriptor.{
  FieldDesc, MessageDesc, message_desc, MessageDescs, no_descs, desc_cons, FileDesc, Request,
}
use protoc_gen_star.Ast.Entity.{file_k, File, file_all_messages}
use protoc_gen_star.Ast.Graph.{
  scalar_e, embed_ft, map_t, Graph, not_seen, Outcome, done, failed, each,
}
use protoc_gen_star.Ast.Hydrate.{hydrate_field, join_oneof, hydrate_fields, hydrate_message}
use protoc_gen_star.Ast.Types.{add_types}
use protoc_gen_star.Ast.Process.{hydrate_dependencies, file_fqn, new_graph, process_request}
use protoc_gen_star.Ast.SourceInfo.{hydrate_source_code_info}
use protoc_gen_star.Ast.Entries.{collect, file_entries, file_names}
use protoc_gen_star.Ast.Imports.{hydrate_dependencies-AreFiles, hydrate_dependencies-unseen}
use protoc_gen_star.Ast.Lookup.{is_in, process_request-names, process_request-finds}

abbrev a_field : String → ProtoLabel → ProtoType → String → FieldDesc
a_field n l t ref = record {
  name = text n;
  label = l;
  type = t;
  type_name = text ref;
  extendee = [];
  oneof_index = none;
  proto3_optional = false;
}

abbrev a_message : String → List FieldDesc → Bool → MessageDescs → MessageDesc
a_message n fs is_entry nested =
    message_desc
      (record {
        name = text n;
        enum_types = [];
        oneof_decls = [];
        fields = fs;
        extensions = [];
        map_entry = is_entry;
      })
      nested

abbrev a_file : String → List Text → MessageDescs → FileDesc
a_file n deps ms = record {
  name = text n;
  package_name = text "p";
  dependencies = deps;
  public_dependencies = [];
  enum_types = [];
  extensions = [];
  message_types = ms;
  services = [];
  syntax = proto3;
  go_package = [];
  locations = [];
}

-- A message with a map field, and a second file with a message that holds the first.
abbrev request : Request
request = record {
  file_to_generate = text "b.proto" ∷ [];
  proto_files =
      a_file "a.proto" [] (
        desc_cons
          (a_message "M" (a_field "m" repeated message_t ".p.M.E" ∷ []) false (
            desc_cons
              (a_message "E"
                (a_field "key" optional string_t "" ∷ a_field "value" optional int64_t "" ∷ []) true
                no_descs)
              no_descs))
          no_descs)
      ∷ a_file "b.proto" (text "a.proto" ∷ []) (
          desc_cons (a_message "N" (a_field "f" optional message_t ".p.M" ∷ []) false no_descs)
            no_descs)
      ∷ [];
}

abbrev small_request : Request
small_request = record {
  file_to_generate = [];
  proto_files = a_file "a.proto" [] (desc_cons (a_message "M" [] false no_descs) no_descs) ∷ [];
}

abbrev files_of : Outcome (List File) → List File
files_of (done fls g) = fls
files_of (failed e) = []

abbrev graph_of : Outcome (List File) → Graph
graph_of (done fls g) = g
graph_of (failed e) = new_graph small_request

-- The map field of M and the field of N, by their numbers.
types_made :
    (lookup 5 (graph_of (process_request request)).types
      ≡ some (map_t (scalar_e string_t) (scalar_e int64_t)))
    × (lookup 8 (graph_of (process_request request)).types ≡ some (embed_ft 1))
unfolding process_request lookup insert hydrate_dependencies each hydrate_message hydrate_fields
    hydrate_field join_oneof add_types file_all_messages hydrate_source_code_info
types_made = (refl, refl)

-- A file that comes before the file that it imports.
not_in_order :
    process_request
      (record small_request { proto_files = a_file "b.proto" (text "a.proto" ∷ []) no_descs ∷ [] })
    ≡ failed (not_seen (text "a.proto"))
unfolding process_request lookup insert hydrate_dependencies each hydrate_message hydrate_fields
    hydrate_field join_oneof add_types file_all_messages hydrate_source_code_info
not_in_order = refl

request-done :
    process_request request
    ≡ done (files_of (process_request request)) (graph_of (process_request request))
unfolding process_request lookup insert hydrate_dependencies each hydrate_message hydrate_fields
    hydrate_field join_oneof add_types file_all_messages hydrate_source_code_info
request-done = refl

small_request-done :
    process_request small_request
    ≡ done (files_of (process_request small_request)) (graph_of (process_request small_request))
unfolding process_request lookup insert hydrate_dependencies each hydrate_message hydrate_fields
    hydrate_field join_oneof add_types file_all_messages hydrate_source_code_info
small_request-done = refl

process_request-names_example :
    is_some (lookup (text ".p.M.E.key") (graph_of (process_request request)).entities)
    ≡ is_in (text ".p.M.E.key") (collect file_names request.proto_files)
process_request-names_example =
    process_request-names request (files_of (process_request request))
      (graph_of (process_request request)) (text ".p.M.E.key") request-done

process_request-finds_example :
    All
      (λ e. lookup e.0 (graph_of (process_request small_request)).entities ≡ some e.1)
      (collect file_entries (files_of (process_request small_request)))
unfolding file_fqn
process_request-finds_example =
    process_request-finds small_request (files_of (process_request small_request))
      (graph_of (process_request small_request)) small_request-done
      (((λ e. ne_of_beq (text ".p.M") (text "a.proto") refl e), tt), (tt, tt))

abbrev one_file : Graph
one_file = record (new_graph small_request) {
  next = 1;
  entities = (text "a.proto", record { kind = file_k; id = 0 }) ∷ [];
}

one_dependency :
    hydrate_dependencies 7 (text "a.proto" ∷ []) one_file
    ≡ done (0 ∷ []) (record one_file { dependents = one_file.dependents ++ (0, 7) ∷ [] })
one_dependency =
    hydrate_dependencies-AreFiles 7 (text "a.proto" ∷ []) (0 ∷ []) one_file
      ((unfold lookup in refl), tt)

unseen_dependency :
    hydrate_dependencies 7 (text "a.proto" ∷ text "b.proto" ∷ []) one_file
    ≡ failed (not_seen (text "b.proto"))
unseen_dependency =
    hydrate_dependencies-unseen 7 (text "a.proto" ∷ []) (0 ∷ []) (text "b.proto") [] one_file
      ((unfold lookup in refl), tt) (unfold lookup in refl)

-- The registers of the two files.
process_request-registers_example :
    let g = graph_of (process_request request) in
    let fls = files_of (process_request request) in
    AreMade request.proto_files fls
    × ((k : Text) → lookup k g.packages ≡ grouped k (in_package k fls))
    × ((k : Text)
        → lookup k g.targets
          ≡ (if is_in k (text "b.proto" ∷ []) then some (last_named k none fls) else none))
    × (g.dependents ≡ all_edges fls)
    × All (λ (f : File). f.build_target ≡ is_in f.desc.name (text "b.proto" ∷ [])) fls
process_request-registers_example =
    process_request-registers request (files_of (process_request request))
      (graph_of (process_request request)) request-done

request-PlainKeys : PlainKeys (graph_of (process_request request)).types
unfolding process_request lookup insert hydrate_dependencies each hydrate_message hydrate_fields
    hydrate_field join_oneof add_types file_all_messages hydrate_source_code_info
request-PlainKeys = (tt, (tt, (tt, (tt, tt))))

process_request-Typed_example :
    All
      (λ (f : File).
        All (MessageTyped (graph_of (process_request request)).types) (file_all_messages f.msgs))
      (files_of (process_request request))
process_request-Typed_example =
    process_request-Typed request (files_of (process_request request))
      (graph_of (process_request request)) request-done

process_request-assign_files_example :
    (u : Uses) × (assign_files
        (graph_of (process_request request)).types
        (files_of (process_request request))
        (record { dependents = []; dependencies = []; enum_dependents = [] })
      ≡ some u)
    × Converse u.dependents u.dependencies
process_request-assign_files_example =
    process_request-assign_files request (files_of (process_request request))
      (graph_of (process_request request)) request-done request-PlainKeys
      (files_of (process_request request)) (λ f i. i)
