-- ===== src/Workflow/Standard.antt =====
-- workflow.go: `Init` and `Persist` of `standardWorkflow`. Reading the input, `proto.Unmarshal`,
-- `proto.Marshal` and the writer are arguments, as is the order in which Go goes through the
-- packages. `CheckErr` and `Assert` end the process: the run stops.
use protoc_gen_star.Base.{
  ◌==◌, nat_eq, Text, text_eq, length, ℕ, Bool, true, false, not, Option, none, some, List, [], ◌∷◌,
  ◌++◌,
}
use protoc_gen_star.Parameters.{Parameters, parse_parameters}
use protoc_gen_star.Artifact.{Error, Result, err, ok}
use protoc_gen_star.Ast.Descriptor.{Request}
use protoc_gen_star.Ast.Entity.{File}
use protoc_gen_star.Ast.Graph.{Package, Graph, Fault, nil_type, Outcome, done, failed}
use protoc_gen_star.Ast.Process.{process_request}
use protoc_gen_star.Ast.Dependents.{Uses, assign_files}

-- What stops a run.
pub data Stop : Type 0 where
  read_failed parse_failed no_files marshal_failed write_failed short_write : Stop
  not_hydrated : Fault → Stop
  not_persisted : Error → Stop

pub data Progress {ℓ} (T : Type ℓ) : Type ℓ where
  stopped : Stop → Progress T
  reached : T → Progress T

infixl 5 ◌>>=◌
abbrev pub ◌>>=◌ {ℓ κ} : {S : Type ℓ} {T : Type κ} → Progress S → (S → Progress T) → Progress T
stopped e >>= next = stopped e
reached s >>= next = next s

-- `wf.CheckErr(err, …)`
abbrev pub check {ℓ} : {T : Type ℓ} → Stop → Option T → Progress T
check e none = stopped e
check e (some t) = reached t

-- `wf.Assert(cond, …)`
abbrev pub assert : Stop → Bool → Progress {0} Unit
assert e true = reached tt
assert e false = stopped e

-- The graph, and its lists of dependents.
pub record Gathered : Type 0 where
  pub graph : Graph
  pub uses : Uses

abbrev no_uses : Uses
no_uses = record { dependents = []; dependencies = []; enum_dependents = [] }

-- The files of the packages in this order.
abbrev pub files_of : List Package → List File
files_of [] = []
files_of (p ∷ ps) = p.files ++ files_of ps

abbrev pub hydrated : Outcome (List File) → Progress Graph
hydrated (done fls g) = reached g
hydrated (failed e) = stopped (not_hydrated e)

-- `for _, pm := range wf.paramMutators { pm(wf.params) }`
unfoldable pub mutate : List (Parameters → Parameters) → Parameters → Parameters
mutate [] p = p
mutate (pm ∷ pms) p = mutate pms (pm p)

module _ (order : List (Text × Package) → List Package) where
  -- `ProcessCodeGeneratorRequestBidirectional`
  abbrev pub process_bidirectional : Request → Progress Gathered
  process_bidirectional req = do
    g ← hydrated (process_request req)
    u ← check (not_hydrated nil_type) (assign_files g.types (files_of (order g.packages)) no_uses)
    reached (record { graph = g; uses = u })

  abbrev pub process_plain : Request → Progress Gathered
  process_plain req = do
    g ← hydrated (process_request req)
    reached (record { graph = g; uses = no_uses })

  abbrev pub process_as : Bool → Request → Progress Gathered
  process_as true req = process_bidirectional req
  process_as false req = process_plain req

  -- `standardWorkflow.Init`: the parameters and the graph. The input is what reading gives, and
  -- unmarshalling gives a request with the text of its parameters.
  unfoldable pub standard_init :
      {D : Type 0}
      → Bool
      → List (Parameters → Parameters)
      → (D → Option (Request × Text))
      → Option D
      → Progress (Parameters × Gathered)
  unfolding mutate parse_parameters
  standard_init bidirectional mutators unmarshal input = do
    data_ ← check read_failed input
    req ← check parse_failed (unmarshal data_)
    u ← assert no_files (not (length req.0.file_to_generate == 0))
    let params = mutate mutators (parse_parameters req.1)
    ast ← process_as bidirectional req.0
    reached (params, ast)

abbrev pub persisted : {T : Type 0} → Result T → Progress T
persisted (err e) = stopped (not_persisted e)
persisted (ok t) = reached t

-- `standardWorkflow.Persist` on what the persister gives. The writer takes bytes and the world, and
-- gives the number of bytes written, or nothing for an error, and the world.
unfoldable pub standard_persist :
    {T W : Type 0}
    → (T → Option (List ℕ))
    → (List ℕ → W → Option (ℕ × W))
    → Result T
    → W
    → Progress W
standard_persist marshal write result w = do
  resp ← persisted result
  bytes ← check marshal_failed (marshal resp)
  written ← check write_failed (write bytes w)
  u ← assert short_write (length bytes == written.0)
  reached written.1
