-- ===== src/Loader/Tests.antt =====
-- Loading a set of one file.
use protoc_gen_star.Base.{
  nat_eq, Text, text_eq, text, All, lookup, insert, ℕ, ◌≡◌, refl, false, Option, none, some, List,
  [], ◌∷◌,
}
use protoc_gen_star.Proto.{proto3}
use protoc_gen_star.Ast.Descriptor.{no_descs, FileDesc}
use protoc_gen_star.Ast.Entity.{File, file_all_messages}
use protoc_gen_star.Ast.Graph.{each}
use protoc_gen_star.Ast.Process.{process_request, hydrate_dependencies}
use protoc_gen_star.Ast.Hydrate.{hydrate_messages}
use protoc_gen_star.Ast.Types.{add_types}
use protoc_gen_star.Ast.SourceInfo.{hydrate_source_code_info}
use protoc_gen_star.Ast.Registry.Groups.{grouped, in_package}
use protoc_gen_star.Workflow.Standard.{Gathered}
use protoc_gen_star.Loader.{
  nil_fs, no_protos, Loader, fatal, loaded, Loaded, load_fdset_reader, load_protos, resolve_args,
}
use protoc_gen_star.Loader.Targets.{load_fdset_reader-untargeted}

abbrev lone_file : FileDesc
lone_file = record {
  name = text "a.proto";
  package_name = text "p";
  dependencies = [];
  public_dependencies = [];
  enum_types = [];
  extensions = [];
  message_types = no_descs;
  services = [];
  syntax = proto3;
  go_package = [];
  locations = [];
}

abbrev test_loader : Loader
test_loader = record {
  protoc = [];
  import_paths = text "inc" ∷ [];
  bidirectional = false;
  fs = nil_fs;
}

abbrev set_of : ℕ → Option (List FileDesc)
set_of n = some (lone_file ∷ [])

abbrev the_graph : Loaded Gathered → Gathered
the_graph (loaded ast) = ast
the_graph (fatal e) = record {
  graph = record {
    next = 0;
    targets = [];
    packages = [];
    entities = [];
    extensions = [];
    messages = [];
    types = [];
    dependents = [];
    extendees = [];
    infos = [];
    package_infos = [];
  };
  uses = record { dependents = []; dependencies = []; enum_dependents = [] };
}

abbrev the_load : Loaded Gathered
the_load = load_fdset_reader (λ ps. []) set_of test_loader (some 0)

the_load-loaded : the_load ≡ loaded (the_graph the_load)
unfolding load_fdset_reader process_request lookup file_all_messages hydrate_dependencies each
    hydrate_messages add_types hydrate_source_code_info insert
the_load-loaded = refl

load_fdset_reader-untargeted_example :
    (fls : List File) × ((k : Text) → lookup k (the_graph the_load).graph.targets ≡ none)
    × All (λ (f : File). f.build_target ≡ false) fls
    × ((k : Text) → lookup k (the_graph the_load).graph.packages ≡ grouped k (in_package k fls))
load_fdset_reader-untargeted_example =
    load_fdset_reader-untargeted (λ ps. []) set_of test_loader (some 0) (the_graph the_load)
      the_load-loaded

args_given :
    resolve_args test_loader (text "t") (text "a.proto" ∷ [])
    ≡ text "-o"
      ∷ text "t"
      ∷ text "--include_imports"
      ∷ text "--include_source_info"
      ∷ text "-I"
      ∷ text "inc"
      ∷ text "a.proto"
      ∷ []
unfolding resolve_args
args_given = refl

-- No glob matches.
no_targets :
    load_protos
      (λ ps. [])
      set_of
      (λ n. some n)
      (λ f. some [])
      (some (text "tmp"))
      (λ p args. some (λ f. some (some 0)))
      test_loader
      (text "*.proto" ∷ [])
    ≡ fatal no_protos
unfolding load_protos
no_targets = refl
