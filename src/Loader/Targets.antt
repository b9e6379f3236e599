-- ===== src/Loader/Targets.antt =====
-- A graph that is loaded from a set of descriptors has no targets.
use protoc_gen_star.Base.{Text, text_eq, All, lookup, ◌≡◌, refl, ap, false, Option, none, List}
use protoc_gen_star.Ast.Descriptor.{FileDesc}
use protoc_gen_star.Ast.Entity.{File}
use protoc_gen_star.Ast.Graph.{Package}
use protoc_gen_star.Ast.Registry.Groups.{grouped, in_package}
use protoc_gen_star.Ast.Registry.Packages.{process_request-registers}
use protoc_gen_star.Workflow.Standard.{Progress, stopped, reached, Gathered, process_as}
use protoc_gen_star.Workflow.Processed.{process_as-graph}
use protoc_gen_star.Loader.{
  Loader, Loaded, cannot_read, cannot_unmarshal, fatal, loaded, ◌>>=◌, request_of, built,
  load_fdset_reader,
}
use protoc_gen_star.Loader

loaded-injective {ℓ} : {T : Type ℓ} {a b : T} → loaded a ≡ loaded b → a ≡ b
loaded-injective h = cc

bind-eq-loaded {ℓ κ} :
    {S : Type ℓ} {T : Type κ} (m : Loaded S) (f : S → Loaded T) {t : T}
    → (m >>= f) ≡ loaded t
    → (s : S) × (m ≡ loaded s) × (f s ≡ loaded t)
bind-eq-loaded (loaded s) f h = (s, refl, h)
bind-eq-loaded (fatal e) f h = cc

built-eq-loaded : (p : Progress Gathered) {ast : Gathered} → built p ≡ loaded ast → p ≡ reached ast
built-eq-loaded (reached a) h = ap reached (loaded-injective h)
built-eq-loaded (stopped e) h = cc

module _ (order : List (Text × Package) → List Package) where
  -- A graph that `LoadFDSetReader` gives, in either mode, has no target. It is the graph of some
  -- files, none of them a build target, and its packages have these files, each package its own in
  -- order.
  pub load_fdset_reader-untargeted :
      {D : Type 0} (unmarshal : D → Option (List FileDesc)) (l : Loader) (input : Option D)
      (ast : Gathered)
      → load_fdset_reader order unmarshal l input ≡ loaded ast
      → (fls : List File) × ((k : Text) → lookup k ast.graph.targets ≡ none)
        × All (λ (f : File). f.build_target ≡ false) fls
        × ((k : Text) → lookup k ast.graph.packages ≡ grouped k (in_package k fls))
  unfolding load_fdset_reader
  load_fdset_reader-untargeted unmarshal l input ast h =
      let (raw, e₁, h₁) = bind-eq-loaded (Loader.check cannot_read input) _ h in
      let (fdset, e₂, h₂) = bind-eq-loaded (Loader.check cannot_unmarshal (unmarshal raw)) _ h₁ in
      let req = request_of fdset in
      let (fls, e₃) =
        process_as-graph order l.bidirectional req ast
          (built-eq-loaded (process_as order l.bidirectional req) h₂) in
      let (made, packages, targets, dependents, marked) =
        process_request-registers req fls ast.graph e₃ in
      (fls, targets, marked, packages)
