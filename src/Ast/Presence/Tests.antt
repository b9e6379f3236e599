-- ===== src/Ast/Presence/Tests.antt =====
-- Fields in a real oneof, in a synthetic one, and in none.
use mathlib.Core.List.{Perm}
use protoc_gen_star.Ast.Presence.{
  extension_field, in_real_oneof, has_presence, field_required, oneof_fields,
  synthetic_oneof_fields, real_oneofs,
}
use protoc_gen_star.Ast.Hydrate.{
  hydrate_oneof, hydrate_field, join_oneof, hydrate_fields, hydrate_message,
}
use protoc_gen_star.Ast.Types.{add_types}
use protoc_gen_star.Ast.SourceInfo.{hydrate_source_code_info}
use protoc_gen_star.Base.{
  nat_eq, Text, text_eq, text, All, lookup, insert, ℕ, ◌≡◌, refl, inr, Bool, true, false, Option,
  none, some, List, [], ◌∷◌, ◌++◌,
}
use protoc_gen_star.Proto.{proto2, proto3, optional, bool_t}
use protoc_gen_star.Ast.Descriptor.{FieldDesc, message_desc, no_descs, desc_cons, Request}
use protoc_gen_star.Ast.Entity.{Field, Extension, Oneof, File, file_all_messages}
use protoc_gen_star.Ast.Graph.{embed_ft, Graph, Outcome, done, failed, each}
use protoc_gen_star.Ast.Process.{hydrate_dependencies, new_graph, process_request}
use protoc_gen_star.Ast.Presence.Rules.{has_presence-Tracked, synthetic_oneof_fields-Perm}
use protoc_gen_star.Ast.Presence.Request.{PartedEach, process_request-PartedEach}

abbrev a_desc : Text → Option ℕ → Bool → FieldDesc
a_desc name index keyword = record {
  name = name;
  label = optional;
  type = bool_t;
  type_name = [];
  extendee = [];
  oneof_index = index;
  proto3_optional = keyword;
}

-- The oneof `o` of two fields, the synthetic one of `d`, and the field `c`.
abbrev a_request : Request
a_request = record {
  file_to_generate = [];
  proto_files =
      record {
        name = text "f";
        package_name = [];
        dependencies = [];
        public_dependencies = [];
        enum_types = [];
        extensions = [];
        message_types =
            desc_cons
              (message_desc
                (record {
                  name = text "m";
                  enum_types = [];
                  oneof_decls = record { name = text "o" } ∷ record { name = text "_d" } ∷ [];
                  fields =
                      a_desc (text "a") (some 0) false
                      ∷ a_desc (text "d") (some 1) true
                      ∷ a_desc (text "c") none false
                      ∷ a_desc (text "b") (some 0) false
                      ∷ [];
                  extensions = [];
                  map_entry = false;
                })
                no_descs)
              no_descs;
        services = [];
        syntax = proto3;
        go_package = [];
        locations = [];
      }
      ∷ [];
}

abbrev result_of : Outcome (List File) → List File × Graph
result_of (done fs g) = (fs, g)
result_of (failed e) = ([], new_graph a_request)

a_request-done :
    process_request a_request
    ≡ done (result_of (process_request a_request)).0 (result_of (process_request a_request)).1
unfolding process_request lookup insert hydrate_dependencies each hydrate_message hydrate_oneof
    hydrate_fields hydrate_field join_oneof add_types file_all_messages hydrate_source_code_info
a_request-done = refl

process_request-PartedEach_example :
    All (λ (f : File). PartedEach f.msgs) (result_of (process_request a_request)).0
process_request-PartedEach_example =
    process_request-PartedEach a_request (result_of (process_request a_request)).0
      (result_of (process_request a_request)).1 a_request-done

abbrev plain_field : Field
plain_field = record { id = 1; fqn = []; desc = a_desc (text "c") none false; oneof = none }

message_has_presence : has_presence (some proto3) (embed_ft 3) plain_field ≡ some true
message_has_presence = has_presence-Tracked proto3 (embed_ft 3) plain_field (inr refl) (λ h. cc h)

abbrev optional_field : Field
optional_field = record { id = 2; fqn = []; desc = a_desc (text "d") (some 0) true; oneof = some 0 }

abbrev a_oneof : List Field → Oneof
a_oneof fs = record { id = 4; fqn = []; name = []; flds = fs }

-- The lone optional field makes its oneof synthetic in proto3, and in proto2 it does not.
synthetic :
    (synthetic_oneof_fields proto3 (a_oneof (optional_field ∷ []) ∷ []) ≡ optional_field ∷ [])
    × (real_oneofs proto2 (a_oneof (optional_field ∷ []) ∷ []) ≡ a_oneof (optional_field ∷ []) ∷ [])
unfolding synthetic_oneof_fields real_oneofs
synthetic = (refl, refl)

-- For the field in an extension the question panics.
extension_panics : (x : Extension) → field_required none (extension_field x) ≡ none
extension_panics x = refl

synthetic_oneof_fields-Perm_example :
    Perm
      (synthetic_oneof_fields proto3 (a_oneof (optional_field ∷ []) ∷ [])
        ++ oneof_fields (real_oneofs proto3 (a_oneof (optional_field ∷ []) ∷ [])))
      (oneof_fields (a_oneof (optional_field ∷ []) ∷ []))
    × All
        (λ f. in_real_oneof f ≡ false)
        (synthetic_oneof_fields proto3 (a_oneof (optional_field ∷ []) ∷ []))
synthetic_oneof_fields-Perm_example =
    synthetic_oneof_fields-Perm proto3 (a_oneof (optional_field ∷ []) ∷ [])
