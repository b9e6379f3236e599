-- ===== src/Loader.antt =====
-- testutils/loader.go: how tests get a graph out of protoc or of a serialized set of descriptors.
-- The file system, running protoc, and `proto.Unmarshal` are arguments. `Fatal` and `Fatalf` of the
-- testing package end the test. The mock debugger does not end the process, so the graph may be
-- built on after a failure: it panics, which is recovered, or returns with `Failed` or `Exited`
-- set; the test ends in each case.
pub mod Targets
mod Tests
use protoc_gen_star.Base.{
  if◌then◌else◌, ◌==◌, nat_eq, Text, text_eq, text, Bool, Option, none, some, List, [], ◌∷◌, ◌++◌,
}
use protoc_gen_star.FilePath.{join_elems}
use protoc_gen_star.Ast.Descriptor.{FileDesc, Request}
use protoc_gen_star.Ast.Graph.{Package}
use protoc_gen_star.Workflow.Standard.{Progress, stopped, reached, Gathered, process_as}

-- What a test ends with.
pub data Fatal : Type 0 where
  other_file_system cannot_open cannot_read cannot_unmarshal cannot_process : Fatal
  no_protoc bad_glob no_protos no_temp_dir protoc_fails : Fatal

pub data Loaded {ℓ} (T : Type ℓ) : Type ℓ where
  fatal : Fatal → Loaded T
  loaded : T → Loaded T

infixl 5 ◌>>=◌
abbrev pub ◌>>=◌ {ℓ κ} : {S : Type ℓ} {T : Type κ} → Loaded S → (S → Loaded T) → Loaded T
fatal e >>= next = fatal e
loaded s >>= next = next s

-- `if err != nil { t.Fatalf(…) }`
abbrev pub check {ℓ} : {T : Type ℓ} → Fatal → Option T → Loaded T
check e none = fatal e
check e (some t) = loaded t

-- The dynamic type of `FS`: nil, the file system of the operating system, or another one.
pub data FsKind : Type 0 where
  nil_fs os_fs other_fs : FsKind

-- `Loader`
pub record Loader : Type 0 where
  pub protoc : Text
  pub import_paths : List Text
  pub bidirectional : Bool
  pub fs : FsKind

-- `for _, imp := range l.ImportPaths { args = append(args, "-I", imp) }`
abbrev pub import_args : List Text → List Text
import_args [] = []
import_args (p ∷ ps) = text "-I" ∷ p ∷ import_args ps

-- `resolveArgs`
unfoldable pub resolve_args : Loader → Text → List Text → List Text
resolve_args l tmp_file targets =
    (text "-o" ∷ tmp_file ∷ text "--include_imports" ∷ text "--include_source_info" ∷ [])
    ++ (import_args l.import_paths ++ targets)

-- The loop of `resolveTargets`; `glob` is `afero.Glob` on the loader's file system.
unfoldable pub glob_all : (Text → Option (List Text)) → List Text → Loaded (List Text)
glob_all glob [] = loaded []
glob_all glob (f ∷ fs) = do
  matches ← check bad_glob (glob f)
  rest ← glob_all glob fs
  loaded (matches ++ rest)

abbrev pub some_targets : List Text → Loaded (List Text)
some_targets [] = fatal no_protos
some_targets (t ∷ ts) = loaded (t ∷ ts)

-- `resolveTargets`
unfoldable pub resolve_targets : (Text → Option (List Text)) → List Text → Loaded (List Text)
unfolding glob_all
resolve_targets glob files = do targets ← glob_all glob files; some_targets targets

-- `resolveProtoc`; `look_path` is `exec.LookPath`.
abbrev pub resolve_protoc : (Text → Option Text) → Loader → Loaded Text
resolve_protoc look_path l =
    check no_protoc (look_path (if l.protoc == [] then text "protoc" else l.protoc))

-- `ProcessFileDescriptorSet` and `ProcessFileDescriptorSetBidirectional` make this request.
abbrev pub request_of : List FileDesc → Request
request_of files = record { file_to_generate = []; proto_files = files }

abbrev pub built : Progress Gathered → Loaded Gathered
built (stopped e) = fatal cannot_process
built (reached ast) = loaded ast

module _ (order : List (Text × Package) → List Package) {D : Type 0}
    (unmarshal : D → Option (List FileDesc)) where
  -- `LoadFDSetReader`, on what reading gives.
  unfoldable pub load_fdset_reader : Loader → Option D → Loaded Gathered
  load_fdset_reader l input = do
    raw ← check cannot_read input
    fdset ← check cannot_unmarshal (unmarshal raw)
    built (process_as order l.bidirectional (request_of fdset))

  -- `LoadFDSet`; opening gives what reading the file will give. A failure to close is only logged.
  unfoldable pub load_fdset : (Text → Option (Option D)) → Loader → Text → Loaded Gathered
  unfolding load_fdset_reader
  load_fdset open_file l path = do
    input ← check cannot_open (open_file path)
    load_fdset_reader l input

  abbrev pub check_fs : FsKind → Loaded (Unit {0})
  check_fs nil_fs = loaded tt
  check_fs os_fs = loaded tt
  check_fs other_fs = fatal other_file_system

  -- `LoadProtos`, with `withTempDir` around the run of protoc: the directory, if it can be made,
  -- and what opening a file gives after protoc has run with these arguments.
  unfoldable pub load_protos :
      (Text → Option Text)
      → (Text → Option (List Text))
      → Option Text
      → (Text → List Text → Option (Text → Option (Option D)))
      → Loader
      → List Text
      → Loaded Gathered
  unfolding resolve_targets resolve_args load_fdset
  load_protos look_path glob temp_dir run l files = do
    u ← check_fs l.fs
    protoc ← resolve_protoc look_path l
    targets ← resolve_targets glob files
    tmp_dir ← check no_temp_dir temp_dir
    let tmp_file = join_elems (tmp_dir ∷ text "fdset.bin" ∷ [])
    open_file ← check protoc_fails (run protoc (resolve_args l tmp_file targets))
    load_fdset open_file l tmp_file
