-- ===== src/Ast/Registry/Files.antt =====
-- What one file does to the registers: `hydrateFile` with `hydratePackage` and `addFile`.
use protoc_gen_star.Base.{
  if◌then◌else◌, nat_eq, Text, text_eq, length, is_some, lookup, insert, ℕ, suc, ◌≡◌, refl, sym, ap,
  ◌∙◌, Bool, true, Option, none, some, List, [], ◌∷◌, ◌++◌, append-nil, append_assoc,
}
use protoc_gen_star.Ast.Descriptor.{FileDesc}
use protoc_gen_star.Ast.Entity.{file_k, File, file_all_messages}
use protoc_gen_star.Ast.Graph.{Graph, done, ◌>>=◌, return, seen_as}
use protoc_gen_star.Ast.Types.{typed_fields}
use protoc_gen_star.Ast.Process.{
  add_dependent, hydrate_dependencies, set_target, mark_target, hydrate_file,
}
use protoc_gen_star.Ast.Returns.{Returns, Returns-return, Returns-bind, Returns-after}
use protoc_gen_star.Ast.Leads.{done_value, done_graph, bind-eq-done}
use protoc_gen_star.Ast.Imports.{edges}
use mathlib.Core.Path.{subst}
use protoc_gen_star.Ast.Registry.Fields.{HasTypes}
use protoc_gen_star.Ast.Registry.{KeepsTypes, seen_as-Through}
use protoc_gen_star.Ast.Registry.Rest.{
  rest_of_file, rest_of_file-Through, IsNew, rest_of_file-IsNew, rest_of_file-HasTypes,
}

-- The targets once a file of this name and number is made.
abbrev pub retarget : Text → ℕ → List (Text × Option ℕ) → List (Text × Option ℕ)
retarget name id ts = if is_some (lookup name ts) then insert name (some id) ts else ts

-- The file of this descriptor, and the registers after it is made.
pub record Enters (d : FileDesc) (g g' : Graph) (f : File) : Type 0 where
  pub same_desc : f.desc ≡ d
  pub imports : length f.dependencies ≡ length d.dependencies
  pub packages : g'.packages ≡ g.packages
  pub target : f.build_target ≡ is_some (lookup d.name g.targets)
  pub targets : g'.targets ≡ retarget d.name f.id g.targets
  pub dependents : g'.dependents ≡ g.dependents ++ edges f.id f.dependencies
  pub types : KeepsTypes g g'
  pub typed : HasTypes g' (typed_fields (file_all_messages f.msgs))

hydrate_dependencies-edges :
    (f : ℕ) (deps : List Text) (g g' : Graph) (ids : List ℕ)
    → hydrate_dependencies f deps g ≡ done ids g'
    → (g'.packages ≡ g.packages)
      × (g'.targets ≡ g.targets)
      × (g'.dependents ≡ g.dependents ++ edges f ids)
      × KeepsTypes g g'
unfolding hydrate_dependencies
hydrate_dependencies-edges f [] g g' ids h =
    let e = done_graph h in
    (
      ap (λ (x : Graph). x.packages) (sym e),
      ap (λ (x : Graph). x.targets) (sym e),
      ap (λ (x : Graph). x.dependents) (sym e)
          ∙ sym (append-nil g.dependents)
          ∙ ap (λ l. g.dependents ++ edges f l) (done_value h),
      λ i x. subst (λ (y : Graph). is_some (lookup i y.types) ≡ true) e x,
    )
hydrate_dependencies-edges f (dep ∷ deps) g g' ids h =
    let (d, g₁, e₁, h₁) = bind-eq-done (seen_as file_k dep g) _ h in
    let g₂ : Graph = record g₁ { dependents = g₁.dependents ++ (d, f) ∷ [] } in
    let (ds, g₃, e₃, h₃) =
      bind-eq-done (hydrate_dependencies f deps g₂) (λ ds. return (d ∷ ds)) h₁ in
    let (p₁, t₁, d₁, n₁) = seen_as-Through file_k dep g g₁ d e₁ in
    let (p₃, t₃, d₃, n₃) = hydrate_dependencies-edges f deps g₂ g₃ ds e₃ in
    let last : g₃ ≡ g' = done_graph h₃ in
    (
      ap (λ (x : Graph). x.packages) (sym last) ∙ p₃ ∙ p₁,
      ap (λ (x : Graph). x.targets) (sym last) ∙ t₃ ∙ t₁,
      ap (λ (x : Graph). x.dependents) (sym last)
          ∙ d₃
          ∙ append_assoc g₁.dependents ((d, f) ∷ []) (edges f ds)
          ∙ ap (λ l. l ++ edges f (d ∷ ds)) d₁
          ∙ ap (λ l. g.dependents ++ edges f l) (done_value h₃),
      λ i x. subst (λ (y : Graph). is_some (lookup i y.types) ≡ true) last (n₃ i (n₁ i x)),
    )

hydrate_dependencies-length :
    (f : ℕ) (deps : List Text)
    → Returns (hydrate_dependencies f deps) (λ ids. length ids ≡ length deps)
unfolding hydrate_dependencies
hydrate_dependencies-length f [] = Returns-return [] _ refl
hydrate_dependencies-length f (dep ∷ deps) =
    let Q : List ℕ → Type 0 = λ ids. length ids ≡ length (dep ∷ deps) in
    Returns-after (seen_as file_k dep) _ Q (λ d. Returns-after (add_dependent d f) _ Q (λ u.
      Returns-bind (hydrate_dependencies f deps) _ (λ ids. length ids ≡ length deps) Q
        (hydrate_dependencies-length f deps)
        (λ ids same. Returns-return (d ∷ ids) Q (ap suc same))))

set_target-retarget :
    (name : Text) (id : ℕ) (t : Option (Option ℕ)) (g g' : Graph) (b : Bool)
    → set_target name id t g ≡ done b g'
    → (g'.packages ≡ g.packages)
      × (b ≡ is_some t)
      × (g'.targets ≡ (if is_some t then insert name (some id) g.targets else g.targets))
      × (g'.dependents ≡ g.dependents)
      × (g'.types ≡ g.types)
set_target-retarget name id none g g' b h =
    let e = done_graph h in
    (
      ap (λ (x : Graph). x.packages) (sym e),
      sym (done_value h),
      ap (λ (x : Graph). x.targets) (sym e),
      ap (λ (x : Graph). x.dependents) (sym e),
      ap (λ (x : Graph). x.types) (sym e),
    )
set_target-retarget name id (some t) g g' b h =
    let e = done_graph h in
    (
      ap (λ (x : Graph). x.packages) (sym e),
      sym (done_value h),
      ap (λ (x : Graph). x.targets) (sym e),
      ap (λ (x : Graph). x.dependents) (sym e),
      ap (λ (x : Graph). x.types) (sym e),
    )

pub hydrate_file-Enters :
    (d : FileDesc) (g g' : Graph) (f : File) → hydrate_file d g ≡ done f g' → Enters d g g' f
unfolding hydrate_file rest_of_file
hydrate_file-Enters d g g' f h =
    let id = g.next in
    let (ds, g₁, e₁, h₁) =
      bind-eq-done (hydrate_dependencies id d.dependencies _)
        (λ ds. mark_target d.name id >>= (λ t. rest_of_file d id ds t)) h in
    let (t, g₂, e₂, h₂) =
      bind-eq-done (mark_target d.name id g₁) (λ t. rest_of_file d id ds t) h₁ in
    let (p₁, t₁, d₁, n₁) = hydrate_dependencies-edges id d.dependencies _ g₁ ds e₁ in
    let (p₂, b₂, t₂, d₂, t₄) =
      set_target-retarget d.name id (lookup d.name g₁.targets) g₁ g₂ t e₂ in
    let (p₃, t₃, d₃, n₃) = rest_of_file-Through d id ds t g₂ g' f h₂ in
    let new : IsNew d id ds t f = rest_of_file-IsNew d id ds t g₂ g' f h₂ in
    record {
      same_desc = new.same_desc;
      imports = ap length new.same_deps ∙ hydrate_dependencies-length id d.dependencies _ g₁ ds e₁;
      packages = p₃ ∙ p₂ ∙ p₁;
      target = new.same_target ∙ b₂ ∙ ap (λ ts. is_some (lookup d.name ts)) t₁;
      targets =
          t₃
          ∙ t₂
          ∙ ap (retarget d.name id) t₁
          ∙ ap (λ i. retarget d.name i g.targets) (sym new.same_id);
      dependents =
          d₃
          ∙ d₂
          ∙ d₁
          ∙ ap (λ i. g.dependents ++ edges i ds) (sym new.same_id)
          ∙ ap (λ l. g.dependents ++ edges f.id l) (sym new.same_deps);
      types = λ i x. n₃ i (rw t₄ (n₁ i x));
      typed = rest_of_file-HasTypes d id ds t g₂ g' f h₂;
    }
