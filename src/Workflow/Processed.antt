-- ===== src/Workflow/Processed.antt =====
-- The graph of either mode is the graph of the request.
use protoc_gen_star.Base.{Text, ◌≡◌, ap, ◌∙◌, Bool, true, false, Option, none, some, List}
use protoc_gen_star.Ast.Descriptor.{Request}
use protoc_gen_star.Ast.Entity.{File}
use protoc_gen_star.Ast.Graph.{Package, Graph, Outcome, done, failed}
use protoc_gen_star.Ast.Process.{process_request}
use protoc_gen_star.Ast.Dependents.{Uses}
use protoc_gen_star.Workflow.Standard.{Stop, reached, ◌>>=◌, Gathered, hydrated, check, process_as}
use protoc_gen_star.Workflow.Plugin.{reached-injective, bind-eq-reached}

hydrated-eq-reached :
    (o : Outcome (List File)) {g : Graph}
    → hydrated o ≡ reached g
    → (fls : List File) × (o ≡ done fls g)
hydrated-eq-reached (done fls g) h = (fls, ap (done fls) (reached-injective h))
hydrated-eq-reached (failed e) h = cc

same_graph :
    (e : Stop) (o : Option Uses) (g : Graph) {ast : Gathered}
    → (check e o >>= (λ u. reached (record { graph = g; uses = u }))) ≡ reached ast
    → g ≡ ast.graph
same_graph e (some u) g h = ap (λ (a : Gathered). a.graph) (reached-injective h)
same_graph e none g h = cc

pub process_as-graph :
    (order : List (Text × Package) → List Package) (bidirectional : Bool) (req : Request)
    (ast : Gathered)
    → process_as order bidirectional req ≡ reached ast
    → (fls : List File) × (process_request req ≡ done fls ast.graph)
process_as-graph order false req ast h =
    let (g, e, h') = bind-eq-reached (hydrated (process_request req)) _ h in
    let (fls, e') = hydrated-eq-reached (process_request req) e in
    (fls, e' ∙ ap (λ (a : Gathered). done fls a.graph) (reached-injective h'))
process_as-graph order true req ast h =
    let (g, e, h') = bind-eq-reached (hydrated (process_request req)) _ h in
    let (fls, e') = hydrated-eq-reached (process_request req) e in
    (fls, e' ∙ ap (done fls) (same_graph _ _ g h'))
