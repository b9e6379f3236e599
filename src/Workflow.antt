-- ===== src/Workflow.antt =====
-- workflow.go and generator.go: the phases of a run. A phase of the wrapped workflow changes the
-- state of the world `W` and gives what it returns; the modules, the reading and the writing are
-- arguments.
pub mod Once
pub mod Standard
pub mod Plugin
pub mod Processed
pub mod Setup
pub mod Register
mod Tests
use protoc_gen_star.Base.{
  if◌then◌else◌, Text, Bool, true, false, Option, none, some, List, [], ◌∷◌, ◌++◌,
}
use protoc_gen_star.Parameters.{Parameters, output_path}
use protoc_gen_star.Context.{BuildContext, context, push_prefix}

-- The methods of the interface `workflow`, on the world, the graph and the artifacts.
pub record Phases (W A R : Type 0) : Type 0 where
  pub init : W → A × W
  pub run : A → W → R × W
  pub persist : R → W → W

-- `onceWorkflow`: what each of its `sync.Once` has been done with.
pub record OnceWorkflow (A R : Type 0) : Type 0 where
  pub ast : Option A
  pub arts : Option R
  pub persisted : Bool

abbrev pub new_once : {A R : Type 0} → OnceWorkflow A R
new_once = record { ast = none; arts = none; persisted = false }

module _ {W A R : Type 0} (wf : Phases W A R) where
  -- A generator's workflow and the world.
  abbrev pub State : Type 0
  State = OnceWorkflow A R × W

  abbrev pub keep_ast : OnceWorkflow A R → A × W → A × State
  keep_ast o (a, w) = (a, (record o { ast = some a }, w))

  abbrev pub keep_arts : OnceWorkflow A R → R × W → R × State
  keep_arts o (r, w) = (r, (record o { arts = some r }, w))

  abbrev pub init_or : Option A → State → A × State
  init_or (some a) s = (a, s)
  init_or none (o, w) = keep_ast o (wf.init w)

  -- `onceWorkflow.Init`
  unfoldable pub once_init : State → A × State
  once_init (o, w) = init_or o.ast (o, w)

  abbrev pub run_or : Option R → A → State → R × State
  run_or (some r) a s = (r, s)
  run_or none a (o, w) = keep_arts o (wf.run a w)

  -- `onceWorkflow.Run`
  unfoldable pub once_run : A → State → R × State
  once_run a (o, w) = run_or o.arts a (o, w)

  -- `onceWorkflow.Persist`
  unfoldable pub once_persist : R → State → State
  once_persist r (o, w) =
      if o.persisted then (o, w) else (record o { persisted = true }, wf.persist r w)

  -- `Generator.AST`
  abbrev pub generator_ast : State → A × State
  generator_ast s = once_init s

  -- `Generator.Render`
  unfoldable pub render : State → State
  unfolding once_init once_run once_persist
  render s = let init = once_init s in let run = once_run init.0 init.1 in once_persist run.0 run.1

-- The calls on a generator.
pub data Call : Type 0 where
  ast_call render_call : Call

module _ {W A R : Type 0} (wf : Phases W A R) where
  unfoldable pub perform : Call → State wf → State wf
  unfolding once_init render
  perform ast_call s = (generator_ast wf s).1
  perform render_call s = render wf s

  unfoldable pub perform_all : List Call → State wf → State wf
  unfolding perform
  perform_all [] s = s
  perform_all (c ∷ cs) s = perform_all cs (perform c s)

-- A module as `standardWorkflow.Run` uses it, on the targets and packages of a graph, with its state
-- in the world.
pub record Module (W A T : Type 0) : Type 0 where
  pub name : Text
  pub init_context : BuildContext → W → W
  pub execute : A → W → List T × W

module _ {W A T : Type 0} where
  -- `for _, m := range wf.mods { m.InitContext(ctx.Push(m.Name())) }`
  unfoldable pub init_modules : BuildContext → List (Module W A T) → W → W
  init_modules ctx [] w = w
  init_modules ctx (m ∷ ms) w = init_modules ctx ms (m.init_context (push_prefix ctx m.name) w)

  -- `for _, m := range wf.mods { arts = append(arts, m.Execute(…)...) }`
  unfoldable pub execute_modules : A → List (Module W A T) → List T → W → List T × W
  execute_modules ast [] arts w = (arts, w)
  execute_modules ast (m ∷ ms) arts w =
      let (more, w') = m.execute ast w in execute_modules ast ms (arts ++ more) w'

  -- `standardWorkflow.Run`
  unfoldable pub standard_run : Parameters → List (Module W A T) → A → W → List T × W
  unfolding init_modules execute_modules
  standard_run params ms ast w =
      execute_modules ast ms [] (init_modules (context params (output_path params)) ms w)
