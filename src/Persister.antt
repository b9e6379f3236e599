-- ===== src/Persister.antt =====
-- persister.go and post_process.go: how the artifacts of all modules become the response to protoc
-- and files on disk. `CheckErr`, `Assert` and `Failf` end the process with the real debugger: here
-- they end the run with an error. The file system is afero's, the parameter `fs`.
pub mod Groups
pub mod Past
pub mod Insert
pub mod Kept
pub mod Runs
pub mod Refine
pub mod Messages
pub mod Disk
mod Tests
use protoc_gen_star.Base.{
  if◌then◌else◌, ◌==◌, nat_eq, Text, text_eq, ℕ, zero, suc, ◌+◌, Bool, true, false, not, ◌&&◌,
  Option, none, some, List, [], ◌∷◌, ◌++◌,
}
use protoc_gen_star.Text.{take, drop, join}
use protoc_gen_star.FilePath.{dir}
use protoc_gen_star.Artifact.{
  Error, process_failed, io_failed, append_target_missing, unrecognized_artifact, Result, err, ok,
  ◌>>=◌, render_template, Artifact, file, template_file, append, template_append, injection,
  template_injection, custom_file, custom_template_file, error, unrecognized, ResponseFile,
  clean_generator_file_name, file_proto_file, template_file_proto_file, append_proto_file,
  template_append_proto_file, injection_proto_file, template_injection_proto_file,
}

-- `PostProcessor`: `none` where `Process` returns an error.
pub record PostProcessor : Type 0 where
  pub matches : Artifact → Bool
  pub process : Text → Option Text

-- `CodeGeneratorResponse`
pub record Response : Type 0 where
  pub error : Option Text
  pub supported_features : Option ℕ
  pub files : List ResponseFile

-- What the persister calls of afero: `none` is an error, and writing gives the next disk.
pub record FileSystem : Type 1 where
  pub Disk : Type 0
  pub mkdir_all : Text → ℕ → Disk → Option Disk
  pub exists : Text → Disk → Option Bool
  pub write_file : Text → Text → ℕ → Disk → Option Disk

-- `stdPersister` without its debugger and its file system.
pub record Persister : Type 0 where
  pub procs : List PostProcessor
  pub supported_features : Option ℕ

-- `CheckErr`
abbrev pub check_err {ℓ} : {A : Type ℓ} → Option A → Error → Result A
check_err none e = err e
check_err (some a) e = ok a

-- The getters of optional fields.
abbrev pub get_text : Option Text → Text
get_text none = []
get_text (some s) = s

abbrev pub is_nil {ℓ} : {A : Type ℓ} → Option A → Bool
is_nil none = true
is_nil (some _) = false

-- `postProcess`
unfoldable pub post_process : List PostProcessor → Artifact → Text → Result Text
post_process [] a b = ok b
post_process (pp ∷ procs) a b = elim (pp.matches a) [
  | true ↦ elim (pp.process b) [ none ↦ err process_failed | some b' ↦ post_process procs a b' ]
  | false ↦ post_process procs a b
]

-- `indexOfFile`
abbrev pub is_target : Text → ResponseFile → Bool
is_target name f = get_text f.name == name && is_nil f.insertion_point

unfoldable pub index_of_file : List ResponseFile → Text → Option ℕ
index_of_file [] name = none
index_of_file (f ∷ files) name =
    let rest = index_of_file files name in
    if is_target name f then some 0 else elim rest [ none ↦ none | some i ↦ some (suc i) ]

-- The files without a name at the front: the loop of `tailOfFile` passes over them.
unfoldable pub nameless_run : List ResponseFile → ℕ
nameless_run [] = 0
nameless_run (f ∷ files) =
    let rest = nameless_run files in if get_text f.name == [] then suc rest else 0

unfoldable pub tail_of_file : List ResponseFile → Text → Option ℕ
unfolding index_of_file nameless_run
tail_of_file files name = elim (index_of_file files name) [
  | none ↦ none
  | some i ↦ some (i + nameless_run (drop (suc i) files))
]

-- `resp.File[i] = f`
abbrev pub set_file : List ResponseFile → ℕ → ResponseFile → List ResponseFile
set_file [] i f = []
set_file (g ∷ files) zero f = f ∷ files
set_file (g ∷ files) (suc i) f = g ∷ set_file files i f

unfoldable pub insert_file : List ResponseFile → ResponseFile → Bool → List ResponseFile
unfolding index_of_file
insert_file files f overwrite =
    if overwrite
    then elim (index_of_file files (get_text f.name)) [
      | some i ↦ set_file files i f
      | none ↦ files ++ (f ∷ [])
    ]
    else files ++ (f ∷ [])

unfoldable pub insert_append : List ResponseFile → Text → ResponseFile → Result (List ResponseFile)
unfolding tail_of_file
insert_append files name f = elim (tail_of_file files name) [
  | none ↦ err append_target_missing
  | some i ↦ ok (take (suc i) files ++ (f ∷ drop (suc i) files))
]

-- `strings.Join([]string{resp.GetError(), a.Message}, "; ")`, or the first message.
abbrev pub add_error : Option Text → Text → Option Text
add_error none m = some m
add_error (some e) m = some (join (b';' ∷ b' ' ∷ []) (e ∷ m ∷ []))

-- `f.Content = proto.String(p.postProcess(a, f.GetContent()))`
unfoldable pub processed : Persister → Artifact → ResponseFile → Result ResponseFile
unfolding post_process
processed p a f = do
  content ← post_process p.procs a (get_text f.content)
  ok (record f { content = some content })

module _ (fs : FileSystem) where
  open fs use {Disk, mkdir_all, exists, write_file}

  -- The response and the disk, which the run changes.
  pub record Output : Type 0 where
    pub response : Response
    pub disk : Disk

  -- The end of `writeFile`, on whether the file exists and is kept.
  abbrev pub write_unless : Bool → Text → Text → ℕ → Disk → Result Disk
  write_unless skip name content perms d =
      if skip then ok d else check_err (write_file name content perms d) io_failed

  -- `writeFile`
  unfoldable pub write_artifact : Text → Text → Bool → ℕ → Disk → Result Disk
  write_artifact name content overwrite perms d = do
    d₁ ← check_err (mkdir_all (dir name) 0o755 d) io_failed
    found ← check_err (exists name d₁) io_failed
    write_unless (found && not overwrite) name content perms d₁

  abbrev pub with_files : Output → List ResponseFile → Output
  with_files o files = record o { response = record (o.response) { files = files } }

  module _ (p : Persister) where
    unfoldable pub persist_file : Artifact → Result ResponseFile → Bool → Output → Result Output
    unfolding processed insert_file
    persist_file a made overwrite o = do
      f ← made
      f' ← processed p a f
      ok (with_files o (insert_file o.response.files f' overwrite))

    unfoldable pub persist_append : Artifact → Result ResponseFile → Text → Output → Result Output
    unfolding processed insert_append
    persist_append a made file_name o = do
      f ← made
      f' ← processed p a f
      n ← clean_generator_file_name file_name
      files ← insert_append o.response.files n f'
      ok (with_files o files)

    unfoldable pub persist_custom :
        Artifact → Result Text → Text → Bool → ℕ → Output → Result Output
    unfolding write_artifact
    persist_custom a made name overwrite perms o = do
      contents ← made
      contents' ← post_process p.procs a contents
      d ← write_artifact name contents' overwrite perms o.disk
      ok (record o { disk = d })

    -- The switch of `Persist`.
    unfoldable pub persist_one : Artifact → Output → Result Output
    unfolding persist_file persist_append persist_custom
    persist_one (file f) o = persist_file (file f) (file_proto_file f) f.overwrite o
    persist_one (template_file f) o =
        persist_file (template_file f) (template_file_proto_file f) f.overwrite o
    persist_one (append f) o = persist_append (append f) (append_proto_file f) f.file_name o
    persist_one (template_append f) o =
        persist_append (template_append f) (template_append_proto_file f) f.file_name o
    persist_one (injection f) o = persist_file (injection f) (injection_proto_file f) false o
    persist_one (template_injection f) o =
        persist_file (template_injection f) (template_injection_proto_file f) false o
    persist_one (custom_file f) o =
        persist_custom (custom_file f) (ok f.contents) f.name f.overwrite f.perms o
    persist_one (custom_template_file f) o =
        persist_custom (custom_template_file f) (render_template f.template) f.name f.overwrite
          f.perms o
    persist_one (error e) o = ok (record o {
      response = record (o.response) { error = add_error o.response.error e.message };
    })
    persist_one unrecognized o = err unrecognized_artifact

    unfoldable pub persist_all : List Artifact → Output → Result Output
    unfolding persist_one
    persist_all [] o = ok o
    persist_all (a ∷ arts) o = do o' ← persist_one a o; persist_all arts o'

    -- `Persist`
    unfoldable pub persist : List Artifact → Disk → Result Output
    unfolding persist_all
    persist arts d = persist_all arts (record {
      response = record { error = none; supported_features = p.supported_features; files = [] };
      disk = d;
    })
