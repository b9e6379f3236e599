-- ===== src/Workflow/Setup.antt =====
-- generator.go and init_option.go: how a generator is configured, and how modules and post
-- processors are registered. A module or post processor that is nil is `none`.
use protoc_gen_star.Base.{
  ◌==◌, nat_eq, Text, text_eq, text, is_some, ℕ, Bool, true, false, not, Option, none, some, List,
  [], ◌∷◌, ◌++◌,
}
use protoc_gen_star.Parameters.{Parameters}
use protoc_gen_star.Debugger.{
  Format, running, panicked, Action, ◌>>=◌, return, RootDebugger, Debugger,
}
use protoc_gen_star.Debugger.Methods.{debug, assert}

-- What the options set in a `Generator` and in its persister, and what is registered. `Input`,
-- `Writer` and `Fs` are readers, writers and file systems, `M` modules and `P` post processors.
pub record Settings (Input Writer Fs M P : Type 0) : Type 0 where
  pub input : Input
  pub output : Writer
  pub file_system : Fs
  pub bidirectional : Bool
  pub debug : Bool
  pub mutators : List (Parameters → Parameters)
  pub supported_features : Option ℕ
  pub mods : List M
  pub procs : List P

-- The options: `ProtocInput`, `ProtocOutput`, `DebugMode`, `DebugEnv` on the value of the variable,
-- `MutateParams`, `FileSystem`, `BiDirectional` and `SupportedFeatures`.
pub data InitOption (Input Writer Fs : Type 0) : Type 0 where
  protoc_input : Input → InitOption Input Writer Fs
  protoc_output : Writer → InitOption Input Writer Fs
  debug_mode bi_directional : InitOption Input Writer Fs
  debug_env : Text → InitOption Input Writer Fs
  mutate_params : List (Parameters → Parameters) → InitOption Input Writer Fs
  use_file_system : Fs → InitOption Input Writer Fs
  with_supported_features : Option ℕ → InitOption Input Writer Fs

module _ {Input Writer Fs M P : Type 0} where
  unfoldable pub apply_option :
      InitOption Input Writer Fs → Settings Input Writer Fs M P → Settings Input Writer Fs M P
  apply_option (protoc_input r) g = record g { input = r }
  apply_option (protoc_output w) g = record g { output = w }
  apply_option debug_mode g = record g { debug = true }
  apply_option bi_directional g = record g { bidirectional = true }
  apply_option (debug_env value) g = record g { debug = not (value == []) }
  apply_option (mutate_params pm) g = record g { mutators = g.mutators ++ pm }
  apply_option (use_file_system fs) g = record g { file_system = fs }
  apply_option (with_supported_features feat) g = record g { supported_features = feat }

  -- The loop on the options in `Init`.
  unfoldable pub apply_options :
      List (InitOption Input Writer Fs)
      → Settings Input Writer Fs M P
      → Settings Input Writer Fs M P
  unfolding apply_option
  apply_options [] g = g
  apply_options (o ∷ os) g = apply_options os (apply_option o g)

  -- `Init`, on the standard streams and the file system of the operating system.
  unfoldable pub init_generator :
      Input → Writer → Fs → List (InitOption Input Writer Fs) → Settings Input Writer Fs M P
  unfolding apply_options
  init_generator stdin stdout os_fs opts = apply_options opts (record {
    input = stdin;
    output = stdout;
    file_system = os_fs;
    bidirectional = false;
    debug = false;
    mutators = [];
    supported_features = none;
    mods = [];
    procs = [];
  })

-- A method call on a value that may be nil.
abbrev pub need_value : {E T : Type 0} → Option T → Action E T
need_value none w = panicked w
need_value (some t) w = running t w

module _ {V E : Type 0} (fmt : Format V E) (root : RootDebugger V E) (d : Debugger) where
  -- The loop of `RegisterModule`, with what it appends.
  unfoldable pub check_modules : {M : Type 0} → (M → Text) → List (Option M) → Action E (List M)
  unfolding assert debug
  check_modules name [] = return []
  check_modules name (o ∷ os) = do
    u ← assert fmt root d (is_some o) (fmt.of_text (text "nil module provided") ∷ [])
    m ← need_value o
    v ← debug fmt root d (fmt.of_text (text "registering module: ") ∷ fmt.of_text (name m) ∷ [])
    ms ← check_modules name os
    return (m ∷ ms)

  -- `RegisterModule`
  unfoldable pub register_module :
      {Input Writer Fs M P : Type 0}
      → (M → Text)
      → List (Option M)
      → Settings Input Writer Fs M P
      → Action E (Settings Input Writer Fs M P)
  unfolding check_modules
  register_module name os g = do
    ms ← check_modules name os
    return (record g { mods = g.mods ++ ms })

  -- The loop of `RegisterPostProcessor`.
  unfoldable pub check_processors : {P : Type 0} → List (Option P) → Action E (Unit {0})
  unfolding assert
  check_processors [] = return tt
  check_processors (o ∷ os) = do
    u ← assert fmt root d (is_some o) (fmt.of_text (text "nil post-processor provided") ∷ [])
    check_processors os

  -- `RegisterPostProcessor`: the persister keeps what it is given.
  unfoldable pub register_post_processor :
      {Input Writer Fs M P : Type 0}
      → List (Option P)
      → Settings Input Writer Fs M (Option P)
      → Action E (Settings Input Writer Fs M (Option P))
  unfolding check_processors
  register_post_processor os g = do
    u ← check_processors os
    return (record g { procs = g.procs ++ os })
