-- ===== src/Workflow/Tests.antt =====
-- A workflow that counts its phases, and modules that log.
use protoc_gen_star.FilePath.{clean}
use protoc_gen_star.Ast.Process.{process_request}
use protoc_gen_star.Ast.Dependents.{assign_files}
use protoc_gen_star.Artifact.{
  ok, Artifact, file, ResponseFile, file_proto_file, clean_generator_file_name,
}
use protoc_gen_star.Persister.{FileSystem, get_text}
use protoc_gen_star.Ast.Descriptor.{Request}
use protoc_gen_star.Workflow.Plugin.{Generator, plugin_run, Delivers, plugin_run-Delivers}
use protoc_gen_star.Workflow.Standard.{
  no_files, short_write, stopped, reached, Gathered, standard_init, standard_persist,
}
use protoc_gen_star.Base.{
  nat_eq, text_eq, Text, length, Option, false, String, text, lookup, ℕ, ◌+◌, ◌≡◌, refl, true, none,
  some, List, [], ◌∷◌, ◌++◌,
}
use protoc_gen_star.Workflow.{
  Phases, new_once, ast_call, render_call, perform_all, Module, standard_run,
}
use protoc_gen_star.Debugger.{Format, new_console, ended, init_debugger, root_debugger}
use protoc_gen_star.Workflow.Setup.{
  Settings, debug_mode, mutate_params, init_generator, register_module,
}
use protoc_gen_star.Workflow.Register.{register_module-all}
use protoc_gen_star.Workflow.Once.{perform_all-once}

-- The world logs the phases; the graph and the artifacts are numbers.
abbrev logging : Phases (List ℕ) ℕ ℕ
logging = record {
  init = λ w. (7, w ++ 1 ∷ []);
  run = λ a w. (a + 1, w ++ 2 ∷ a ∷ []);
  persist = λ r w. w ++ 3 ∷ r ∷ [];
}

perform_all-once_example :
    (perform_all logging (ast_call ∷ render_call ∷ ast_call ∷ render_call ∷ []) (new_once, [])).1
    ≡ 1 ∷ 2 ∷ 7 ∷ 3 ∷ 8 ∷ []
perform_all-once_example =
    perform_all-once logging [] ast_call (render_call ∷ ast_call ∷ render_call ∷ [])

abbrev log_module : ℕ → Module (List ℕ) ℕ ℕ
log_module n = record {
  name = n ∷ [];
  init_context = λ ctx w. w ++ n ∷ [];
  execute = λ ast w. ((n + ast) ∷ [], w ++ (n + 10) ∷ []);
}

-- Every module is initialised before any is executed.
two_modules :
    standard_run [] (log_module 1 ∷ log_module 2 ∷ []) 5 [] ≡ (6 ∷ 7 ∷ [], 1 ∷ 2 ∷ 11 ∷ 12 ∷ [])
unfolding standard_run lookup
two_modules = refl

-- A write that is shorter than the message stops the run.
short_writes :
    standard_persist (λ (t : ℕ). some (t ∷ t ∷ [])) (λ bytes (w : ℕ). some (1, w)) (ok 5) 0
    ≡ stopped short_write
unfolding standard_persist
short_writes = refl

-- A request without files to generate stops the run.
no_files_to_generate :
    standard_init
      (λ ps. [])
      true
      []
      (λ (d : ℕ). some (record { file_to_generate = []; proto_files = [] }, text "a=b"))
      (some 1)
    ≡ stopped no_files
unfolding standard_init
no_files_to_generate = refl

-- A disk that is never asked.
abbrev no_disk : FileSystem
no_disk = record {
  Disk = Unit {0};
  mkdir_all = λ n p d. some d;
  exists = λ n d. some false;
  write_file = λ n c p d. some d;
}

abbrev file_module : String → Module (List ℕ) Gathered Artifact
file_module n = record {
  name = text n;
  init_context = λ ctx w. w ++ 1 ∷ [];
  execute = λ ast w. (file (record { name = text n; contents = w; overwrite = false }) ∷ [], w);
}

abbrev generator : Generator (List ℕ)
generator = record {
  bidirectional = true;
  mutators = [];
  persister = record { procs = []; supported_features = none };
  mods = file_module "a" ∷ file_module "b" ∷ [];
}

abbrev one_request : ℕ → Option (Request × Text)
one_request d = some (record { file_to_generate = text "x" ∷ []; proto_files = [] }, text "k=v")

abbrev names_of : List ResponseFile → List ℕ
names_of [] = []
names_of (f ∷ fs) = get_text f.name ++ names_of fs

plugin_run-reached :
    plugin_run no_disk
      (λ ps. [])
      one_request
      (λ r. some (names_of r.files))
      (λ bytes out. some (length bytes, out ++ bytes))
      generator
      (some 7)
      tt
      []
      (9 ∷ [])
    ≡ reached (9 ∷ text "ab")
unfolding plugin_run process_request assign_files file_proto_file clean_generator_file_name clean
plugin_run-reached = refl

plugin_run-Delivers_example :
    Delivers no_disk
      (λ ps. [])
      one_request
      (λ r. some (names_of r.files))
      (λ bytes out. some (length bytes, out ++ bytes))
      generator
      (some 7)
      tt
      []
      (9 ∷ [])
      (9 ∷ text "ab")
plugin_run-Delivers_example =
    plugin_run-Delivers no_disk (λ ps. []) one_request (λ r. some (names_of r.files))
      (λ bytes out. some (length bytes, out ++ bytes)) generator (some 7) tt [] (9 ∷ [])
      (9 ∷ text "ab") plugin_run-reached

abbrev all_of : List Text → Text
all_of [] = []
all_of (t ∷ ts) = t ++ all_of ts

-- A format that prints texts one after another.
abbrev plain : Format Text Text
plain = record {
  of_text = λ t. t;
  of_error = λ e. e;
  sprint = all_of;
  sprintf = λ f v. f ++ all_of v;
  println = all_of;
  printf = λ f v. f ++ all_of v;
}

abbrev no_modules : Settings ℕ ℕ ℕ Text ℕ
no_modules = init_generator 0 1 2 (debug_mode ∷ mutate_params [] ∷ [])

-- A nil module behind another.
register_module-all_example :
    register_module plain
      (init_debugger plain true)
      root_debugger
      (λ m. m)
      (some (text "a") ∷ none ∷ some (text "b") ∷ [])
      no_modules
      new_console
    ≡ ended 1 (record new_console {
      output = text "registering module: a" ∷ text "nil module provided" ∷ [];
    })
register_module-all_example =
    register_module-all plain (λ m. m) true (some (text "a") ∷ none ∷ some (text "b") ∷ [])
      no_modules new_console

options_applied : no_modules.debug ≡ true
unfolding init_generator
options_applied = refl
