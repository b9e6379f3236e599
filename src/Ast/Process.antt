-- ===== src/Ast/Process.antt =====
-- ast.go: a file, its package, and `ProcessCodeGeneratorRequest`.
use protoc_gen_star.Base.{
  nat_eq, Text, text_eq, text, lookup, insert, ℕ, Bool, true, false, Option, none, some, List, [],
  ◌∷◌, ◌++◌,
}
use protoc_gen_star.Ast.Descriptor.{FileDesc, Request}
use protoc_gen_star.Ast.Entity.{
  file_k, message_k, Enum, Extension, Messages, Service, File, file_all_messages,
}
use protoc_gen_star.Ast.Graph.{
  Package, Graph, nil_type, Outcome, done, failed, Hydration, ◌>>=◌, return, allocate, seen_as,
}
use protoc_gen_star.Ast.Hydrate.{
  hydrate_enums, hydrate_extensions, hydrate_messages, hydrate_services,
}
use protoc_gen_star.Ast.SourceInfo.{hydrate_source_code_info}
use protoc_gen_star.Ast.Types.{hydrate_field_type, add_type, add_types, typed_fields}

abbrev pub new_package : Text → Option Package → Hydration {0} Unit
new_package name (some p) g = done tt g
new_package name none g =
    let p : Package = record { proto_name = name; files = [] } in
    done tt (record g { packages = insert name p g.packages })

-- `hydratePackage`
abbrev pub hydrate_package : Text → Hydration {0} Unit
hydrate_package name g = new_package name (lookup name g.packages) g

abbrev pub add_dependent : ℕ → ℕ → Hydration {0} Unit
add_dependent d f g = done tt (record g { dependents = g.dependents ++ (d, f) ∷ [] })

-- The loop on the dependencies of the file `f`.
unfoldable pub hydrate_dependencies : ℕ → List Text → Hydration (List ℕ)
hydrate_dependencies f [] = return []
hydrate_dependencies f (dep ∷ deps) = do
  d ← seen_as file_k dep
  u ← add_dependent d f
  ds ← hydrate_dependencies f deps
  return (d ∷ ds)

abbrev pub set_target : Text → ℕ → Option (Option ℕ) → Hydration Bool
set_target name id none g = done false g
set_target name id (some t) g = done true (record g { targets = insert name (some id) g.targets })

-- `_, fl.buildTarget = g.targets[name]`, with the target set to the file
abbrev pub mark_target : Text → ℕ → Hydration Bool
mark_target name id g = set_target name id (lookup name g.targets) g

-- `fl.fqn`
unfoldable pub file_fqn : Text → Text
file_fqn [] = []
file_fqn (c ∷ cs) = text "." ++ c ∷ cs

abbrev pub new_file :
    FileDesc → ℕ → List ℕ → Bool → List Enum → List Extension → Messages → List Service → File
new_file f id ds target es xs ms ss = record {
  id = id;
  fqn = file_fqn f.package_name;
  desc = f;
  dependencies = ds;
  build_target = target;
  enums = es;
  def_exts = xs;
  msgs = ms;
  srvs = ss;
}

unfoldable pub hydrate_file : FileDesc → Hydration File
unfolding file_fqn
hydrate_file f = do
  let fqn = file_fqn f.package_name
  id ← allocate f.name file_k
  ds ← hydrate_dependencies id f.dependencies
  target ← mark_target f.name id
  es ← hydrate_enums fqn f.enum_types
  xs ← hydrate_extensions fqn f.extensions
  ms ← hydrate_messages fqn f.message_types
  ss ← hydrate_services fqn f.services
  u ← add_types (typed_fields (file_all_messages ms))
  v ← hydrate_source_code_info (new_file f id ds target es xs ms ss) f.locations
  return (new_file f id ds target es xs ms ss)

abbrev pub add_to_package : Text → File → Option Package → Hydration {0} Unit
add_to_package name fl none g = failed nil_type
add_to_package name fl (some p) g =
    done tt
      (record g { packages = insert name (record p { files = p.files ++ fl ∷ [] }) g.packages })

-- `pkg.addFile`; the package is there, since `hydratePackage` comes first.
abbrev pub add_file : Text → File → Hydration {0} Unit
add_file name fl g = add_to_package name fl (lookup name g.packages) g

unfoldable pub hydrate_files : List FileDesc → Hydration (List File)
unfolding hydrate_file
hydrate_files [] = return []
hydrate_files (f ∷ fs) = do
  u ← hydrate_package f.package_name
  fl ← hydrate_file f
  v ← add_file f.package_name fl
  fls ← hydrate_files fs
  return (fl ∷ fls)

abbrev pub set_extendee : ℕ → ℕ → Hydration {0} Unit
set_extendee x m g = done tt (record g { extendees = g.extendees ++ (x, m) ∷ [] })

-- The loop on `g.extensions`.
unfoldable pub connect_extensions : List Extension → Hydration {0} Unit
connect_extensions [] = return tt
connect_extensions (x ∷ xs) = do
  t ← hydrate_field_type x.desc
  u ← add_type x.id t
  m ← seen_as message_k x.desc.extendee
  v ← set_extendee x.id m
  connect_extensions xs

unfoldable pub new_targets : List Text → List (Text × Option ℕ)
new_targets [] = []
new_targets (f ∷ fs) = insert f none (new_targets fs)

unfoldable pub new_graph : Request → Graph
unfolding new_targets
new_graph req = record {
  next = 0;
  targets = new_targets req.file_to_generate;
  packages = [];
  entities = [];
  extensions = [];
  messages = [];
  types = [];
  dependents = [];
  extendees = [];
  infos = [];
  package_infos = [];
}

-- `ProcessCodeGeneratorRequest`, with the files in the order in which they were made.
unfoldable pub process_request : Request → Outcome (List File)
unfolding new_graph hydrate_files connect_extensions
process_request req =
    (do
      fls ← hydrate_files req.proto_files
      u ← (λ g. connect_extensions g.extensions g)
      return fls)
      (new_graph req)
