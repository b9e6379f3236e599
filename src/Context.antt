-- ===== src/Context.antt =====
-- build_context.go: the contexts in which modules run. A context is the value that the interface `BuildContext` holds; its debugger is left out.
pub mod Paths
mod Tests
use protoc_gen_star.Base.{Text, Option, none, some, List, [], ◌∷◌}
use protoc_gen_star.FilePath.{clean, join_elems}
use protoc_gen_star.Parameters.{Parameters}

-- `rootContext` with its path and parameters, `prefixContext` with its parent and prefix, and
-- `dirContext` with its parent and its path.
pub data BuildContext : Type 0 where
  root_context : Text → Parameters → BuildContext
  prefix_context : BuildContext → Text → BuildContext
  dir_context : BuildContext → Text → BuildContext

-- `Context`
abbrev pub context : Parameters → Text → BuildContext
context params output = root_context (clean output) params

-- `Push`
abbrev pub push_prefix : BuildContext → Text → BuildContext
push_prefix c prefix = prefix_context c prefix

-- `PushDir`
abbrev pub push_dir : BuildContext → Text → BuildContext
push_dir c d = dir_context c (clean d)

-- `OutputPath`
abbrev pub context_path : BuildContext → Text
context_path (root_context p params) = p
context_path (prefix_context c prefix) = context_path c
context_path (dir_context c p) = join_elems (context_path c ∷ p ∷ [])

-- `JoinPath`; a prefix asks its parent.
abbrev pub join_path : BuildContext → List Text → Text
join_path (root_context p params) names = join_elems (p ∷ names)
join_path (prefix_context c prefix) names = join_path c names
join_path (dir_context c p) names = join_elems (context_path (dir_context c p) ∷ names)

-- `Parameters`
abbrev pub context_parameters : BuildContext → Parameters
context_parameters (root_context p params) = params
context_parameters (prefix_context c prefix) = context_parameters c
context_parameters (dir_context c p) = context_parameters c

-- `Pop`: `none` where it fails.
abbrev pub pop : BuildContext → Option BuildContext
pop (root_context p params) = none
pop (prefix_context c prefix) = some c
pop (dir_context c p) = some c

-- `PopDir`
abbrev pub pop_dir : BuildContext → BuildContext
pop_dir (root_context p params) = root_context p params
pop_dir (prefix_context c prefix) = pop_dir c
pop_dir (dir_context c p) = c
