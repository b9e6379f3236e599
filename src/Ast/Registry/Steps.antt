-- ===== src/Ast/Registry/Steps.antt =====
-- The registers after one more file.
use protoc_gen_star.Base.{
  if◌then◌else◌, Bool-cases, ◌==◌, nat_eq, Text, text_beq_iff, text_eq, beq_refl, is_some, lookup,
  ◌≡◌, sym, ap, ◌∙◌, ◌⊎◌, inl, inr, true, false, none, some, List, [], ◌∷◌, ◌++◌, append-nil,
}
use protoc_gen_star.Ast.Descriptor.{FileDesc}
use protoc_gen_star.Ast.Entity.{File}
use protoc_gen_star.Ast.Graph.{Graph, done}
use protoc_gen_star.Ast.Process.{hydrate_package, add_file}
use protoc_gen_star.Ast.Imports.{edges}
use protoc_gen_star.Ast.Lookup.{is_in}
use protoc_gen_star.Ast.Registry.Files.{retarget, Enters}
use protoc_gen_star.Ast.Registry.Groups.{
  in_package, grouped, last_named, in_package-snoc, grouped-snoc, last_named-snoc, all_edges-snoc,
  Registers, with_files, opened, added, add_file-same, hydrate_package-same, wanted_or,
  target_after, lookup-retarget,
}

-- One file, with its package.
module _ (wanted : List Text) (fs : List File) (d : FileDesc) (f : File) (g g₀ g₁ g₂ : Graph)
    (u v : Unit {0}) (r : Registers wanted fs g)
    (opens : hydrate_package d.package_name g ≡ done u g₀) (enters : Enters d g₀ g₁ f)
    (adds : add_file d.package_name f g₁ ≡ done v g₂) where
  member : (k : Text) → in_package k (f ∷ []) ≡ (if d.package_name == k then f ∷ [] else [])
  member k = ap (λ (d' : FileDesc). if d'.package_name == k then f ∷ [] else []) enters.same_desc

  package_after :
      (k : Text)
      → ((d.package_name == k) ≡ true) ⊎ ((d.package_name == k) ≡ false)
      → (if d.package_name == k
          then some (with_files d.package_name (in_package d.package_name fs ++ f ∷ []))
          else if d.package_name == k
          then some (with_files d.package_name (in_package d.package_name fs))
          else lookup k g.packages)
        ≡ grouped k (in_package k (fs ++ f ∷ []))
  package_after k (inl q) =
      let joined : in_package k (fs ++ f ∷ []) ≡ in_package k fs ++ f ∷ [] =
        in_package-snoc k fs f
        ∙ ap (in_package k fs ++◌) (member k ∙ ap (λ b. if b then f ∷ [] else []) q) in
      ap
        (λ b.
          if b
          then some (with_files d.package_name (in_package d.package_name fs ++ f ∷ []))
          else if b
          then some (with_files d.package_name (in_package d.package_name fs))
          else lookup k g.packages)
        q
      ∙ ap (λ n. some (with_files n (in_package n fs ++ f ∷ [])))
          ((text_beq_iff d.package_name k).0 q)
      ∙ sym (grouped-snoc k (in_package k fs) f)
      ∙ ap (grouped k) (sym joined)
  package_after k (inr q) =
      let same : in_package k (fs ++ f ∷ []) ≡ in_package k fs =
        in_package-snoc k fs f
        ∙ ap (in_package k fs ++◌) (member k ∙ ap (λ b. if b then f ∷ [] else []) q)
        ∙ append-nil (in_package k fs) in
      ap
        (λ b.
          if b
          then some (with_files d.package_name (in_package d.package_name fs ++ f ∷ []))
          else if b
          then some (with_files d.package_name (in_package d.package_name fs))
          else lookup k g.packages)
        q
      ∙ r.packages k
      ∙ ap (grouped k) (sym same)

  packages-step : (k : Text) → lookup k g₂.packages ≡ grouped k (in_package k (fs ++ f ∷ []))
  packages-step k =
      let name = d.package_name in
      let xs = in_package name fs in
      let opens_name = opened name xs g g₀ u (r.packages name) opens in
      let here : lookup name g₁.packages ≡ some (with_files name xs) =
        ap (lookup name) enters.packages
        ∙ opens_name name
        ∙ ap (λ b. if b then some (with_files name xs) else lookup name g.packages)
            (beq_refl name) in
      added name xs f g₁ g₂ v here adds k
      ∙ ap (λ o. if name == k then some (with_files name (xs ++ f ∷ [])) else o)
          (ap (lookup k) enters.packages ∙ opens_name k)
      ∙ package_after k (Bool-cases (name == k))

  targets-step :
      (k : Text)
      → lookup k g₂.targets
        ≡ (if is_in k wanted then some (last_named k none (fs ++ f ∷ [])) else none)
  targets-step k =
      ap (lookup k) (
        (add_file-same d.package_name f (lookup d.package_name g₁.packages) g₁ g₂ v adds).0
        ∙ enters.targets
        ∙ ap (retarget d.name f.id)
            (hydrate_package-same d.package_name (lookup d.package_name g.packages) g g₀ u opens).0)
      ∙ lookup-retarget k d.name f.id g.targets
      ∙ target_after (d.name == k) (is_in k wanted) (last_named k none fs) f.id (lookup k g.targets)
          (r.targets k)
      ∙ ap
          (λ (d' : FileDesc).
            if is_in k wanted
            then some (if d'.name == k then some f.id else last_named k none fs)
            else none)
          (sym enters.same_desc)
      ∙ ap (λ o. if is_in k wanted then some o else none) (sym (last_named-snoc k none fs f))

  pub step-Registers : Registers wanted (fs ++ f ∷ []) g₂
  step-Registers = record {
    packages = packages-step;
    targets = targets-step;
    dependents =
        (add_file-same d.package_name f (lookup d.package_name g₁.packages) g₁ g₂ v adds).1
        ∙ enters.dependents
        ∙ ap (λ l. l ++ edges f.id f.dependencies)
            ((hydrate_package-same d.package_name (lookup d.package_name g.packages) g g₀ u opens).1
              ∙ r.dependents)
        ∙ sym (all_edges-snoc fs f);
  }

  pub step-build_target : f.build_target ≡ is_in f.desc.name wanted
  step-build_target =
      enters.target
      ∙ ap (λ ts. is_some (lookup d.name ts))
          (hydrate_package-same d.package_name (lookup d.package_name g.packages) g g₀ u opens).0
      ∙ ap is_some (r.targets d.name)
      ∙ wanted_or (is_in d.name wanted) (last_named d.name none fs)
      ∙ ap (λ (d' : FileDesc). is_in d'.name wanted) (sym enters.same_desc)
