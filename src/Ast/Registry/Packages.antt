-- ===== src/Ast/Registry/Packages.antt =====
-- The registers of a graph that was built: its packages, its targets, and who imports its files.
use mathlib.Core.Path.{subst}
use protoc_gen_star.Base.{
  if◌then◌else◌, ◌==◌, nat_eq, Text, text_eq, length, All, lookup, lookup-insert, ℕ, ◌≡◌, refl, sym,
  ap, ◌∙◌, Bool, true, false, ◌||◌, Option, none, some, List, [], ◌∷◌, ◌++◌, append-nil,
  append_assoc,
}
use protoc_gen_star.Ast.Descriptor.{FileDesc, Request}
use protoc_gen_star.Ast.Entity.{File}
use protoc_gen_star.Ast.Graph.{Graph, done, ◌>>=◌, return}
use protoc_gen_star.Ast.Process.{
  hydrate_package, hydrate_file, add_file, hydrate_files, connect_extensions, new_targets,
  new_graph, process_request,
}
use protoc_gen_star.Ast.Leads.{done_value, done_graph, bind-eq-done}
use protoc_gen_star.Ast.Returns.{Returns, Returns-return, Returns-bind, Returns-after}
use protoc_gen_star.Ast.Lookup.{is_in}
use protoc_gen_star.Ast.Registry.Types.{connect_extensions-Through}
use protoc_gen_star.Ast.Registry.Files.{hydrate_file-Enters}
use protoc_gen_star.Ast.Registry.Groups.{in_package, grouped, last_named, all_edges, Registers}
use protoc_gen_star.Ast.Registry.Steps.{step-Registers, step-build_target}

hydrate_files-Registers :
    (wanted : List Text) (ds : List FileDesc) (fs fls : List File) (g g' : Graph)
    → Registers wanted fs g
    → hydrate_files ds g ≡ done fls g'
    → Registers wanted (fs ++ fls) g'
      × All (λ (f : File). f.build_target ≡ is_in f.desc.name wanted) fls
unfolding hydrate_files
hydrate_files-Registers wanted [] fs fls g g' r h =
    let e : [] ≡ fls = done_value h in
    (
      subst (λ l. Registers wanted (fs ++ l) g') e
          (rw append-nil (subst (Registers wanted fs) (done_graph h) r)),
      subst (All (λ (f : File). f.build_target ≡ is_in f.desc.name wanted)) e tt,
    )
hydrate_files-Registers wanted (d ∷ ds) fs fls g g' r h =
    let (u, g₀, e₀, h₀) =
      bind-eq-done (hydrate_package d.package_name g)
        (λ u. hydrate_file d >>= (λ fl.
          add_file d.package_name fl >>= (λ v. hydrate_files ds >>= (λ fls. return (fl ∷ fls)))))
        h in
    let (f, g₁, e₁, h₁) =
      bind-eq-done (hydrate_file d g₀)
        (λ fl.
          add_file d.package_name fl >>= (λ v. hydrate_files ds >>= (λ fls. return (fl ∷ fls))))
        h₀ in
    let (v, g₂, e₂, h₂) =
      bind-eq-done (add_file d.package_name f g₁)
        (λ v. hydrate_files ds >>= (λ fls. return (f ∷ fls))) h₁ in
    let (rest, g₃, e₃, h₃) = bind-eq-done (hydrate_files ds g₂) (λ fls. return (f ∷ fls)) h₂ in
    let enters = hydrate_file-Enters d g₀ g₁ f e₁ in
    let r₂ = step-Registers wanted fs d f g g₀ g₁ g₂ u v r e₀ enters e₂ in
    let (r₃, below) = hydrate_files-Registers wanted ds (fs ++ f ∷ []) rest g₂ g₃ r₂ e₃ in
    let e : f ∷ rest ≡ fls = done_value h₃ in
    (
      subst (λ l. Registers wanted (fs ++ l) g') e
          (subst (Registers wanted (fs ++ f ∷ rest)) (done_graph h₃)
            (subst (λ l. Registers wanted l g₃) (append_assoc fs (f ∷ []) rest) r₃)),
      subst (All (λ (x : File). x.build_target ≡ is_in x.desc.name wanted)) e
          (step-build_target wanted fs d f g g₀ g₁ g₂ u v r e₀ enters e₂, below),
    )

-- These files are those of these descriptors, in their order, each with as many imports.
abbrev pub AreMade : List FileDesc → List File → Type 0
AreMade [] [] = Unit
AreMade (d ∷ ds) (f ∷ fs) =
    ((f.desc ≡ d) × (length f.dependencies ≡ length d.dependencies)) × AreMade ds fs
AreMade _ _ = ⊥

hydrate_files-AreMade : (ds : List FileDesc) → Returns (hydrate_files ds) (AreMade ds)
unfolding hydrate_files
hydrate_files-AreMade [] = Returns-return [] (AreMade []) tt
hydrate_files-AreMade (d ∷ ds) =
    let Q : List File → Type 0 = AreMade (d ∷ ds) in
    Returns-after (hydrate_package d.package_name) _ Q (λ u.
      Returns-bind (hydrate_file d) _
        (λ f. (f.desc ≡ d) × (length f.dependencies ≡ length d.dependencies)) Q
        (λ g g' f h.
          let enters = hydrate_file-Enters d g g' f h in (enters.same_desc, enters.imports))
        (λ f made. Returns-after (add_file d.package_name f) _ Q (λ v.
          Returns-bind (hydrate_files ds) _ (AreMade ds) Q (hydrate_files-AreMade ds)
            (λ fls below. Returns-return (f ∷ fls) Q (made, below)))))

lookup-new_targets :
    (k : Text) (fs : List Text)
    → lookup k (new_targets fs) ≡ (if is_in k fs then some none else none)
unfolding new_targets lookup
lookup-new_targets k [] = refl
lookup-new_targets k (f ∷ fs) =
    lookup-insert f k none (new_targets fs)
    ∙ ap (λ o. if f == k then some none else o) (lookup-new_targets k fs)
    ∙ or_if (f == k) (is_in k fs)
  where
    or_if :
        (b c : Bool)
        → ◌≡◌ {A = Option (Option ℕ)}
            (if b then some none else if c then some none else none)
            (if b || c then some none else none)
    or_if true c = refl
    or_if false c = refl

-- If a request is processed without failure, then it gives one file for each file of the request,
-- in the order of the request, of that descriptor and with as many imports as it names; each
-- package has those of these files whose descriptor is in it, in this order, and there is no other
-- package; a name is a target exactly if it is to be generated, with the last file of that name if
-- there is one; the dependents are exactly the imports of these files turned round, in this order;
-- and a file is a build target exactly if its name is to be generated.
pub process_request-registers :
    (req : Request) (fls : List File) (g : Graph)
    → process_request req ≡ done fls g
    → AreMade req.proto_files fls
      × ((k : Text) → lookup k g.packages ≡ grouped k (in_package k fls))
      × ((k : Text)
          → lookup k g.targets
            ≡ (if is_in k req.file_to_generate then some (last_named k none fls) else none))
      × (g.dependents ≡ all_edges fls)
      × All (λ (f : File). f.build_target ≡ is_in f.desc.name req.file_to_generate) fls
unfolding process_request new_graph lookup
process_request-registers req fls g h =
    let (fs, g₁, e₁, h₁) =
      bind-eq-done (hydrate_files req.proto_files (new_graph req))
        (λ fs. (λ g'. connect_extensions g'.extensions g') >>= (λ u. return fs)) h in
    let (u, g₂, e₂, h₂) = bind-eq-done (connect_extensions g₁.extensions g₁) (λ u. return fs) h₁ in
    let start : Registers req.file_to_generate [] (new_graph req) = record {
      packages = λ k. refl;
      targets = λ k. lookup-new_targets k req.file_to_generate;
      dependents = refl;
    } in
    let (r, marked) =
      hydrate_files-Registers req.file_to_generate req.proto_files [] fs (new_graph req) g₁ start
        e₁ in
    let (p, t, d, n) = connect_extensions-Through g₁.extensions g₁ g₂ u e₂ in
    let same : fs ≡ fls = done_value h₂ in
    let last : g₂ ≡ g = done_graph h₂ in
    (
      subst (AreMade req.proto_files) same
          (hydrate_files-AreMade req.proto_files (new_graph req) g₁ fs e₁),
      λ k.
          ap (λ (x : Graph). lookup k x.packages) (sym last)
          ∙ ap (lookup k) p
          ∙ r.packages k
          ∙ ap (λ l. grouped k (in_package k l)) same,
      λ k.
          ap (λ (x : Graph). lookup k x.targets) (sym last)
          ∙ ap (lookup k) t
          ∙ r.targets k
          ∙ ap (λ l. if is_in k req.file_to_generate then some (last_named k none l) else none)
              same,
      ap (λ (x : Graph). x.dependents) (sym last) ∙ d ∙ r.dependents ∙ ap all_edges same,
      subst (All (λ (f : File). f.build_target ≡ is_in f.desc.name req.file_to_generate)) same
          marked,
    )
