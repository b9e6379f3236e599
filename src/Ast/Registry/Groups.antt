-- ===== src/Ast/Registry/Groups.antt =====
-- What the registers hold for some files, and what a package and a target are after one more.
use mathlib.Core.Path.{subst}
use protoc_gen_star.Base.{
  if◌then◌else◌, Bool-cases, Option-cases, ◌==◌, nat_eq, Text, text_beq_iff, text_eq, is_some,
  lookup, lookup-insert, lookup-insert_self, ℕ, ◌≡◌, refl, sym, ap, ◌∙◌, inl, inr, Bool, true,
  false, Option, none, some, List, [], ◌∷◌, ◌++◌, append-nil, append_assoc,
}
use protoc_gen_star.Ast.Entity.{File}
use protoc_gen_star.Ast.Graph.{Package, Graph, done}
use protoc_gen_star.Ast.Process.{new_package, hydrate_package, add_to_package, add_file}
use protoc_gen_star.Ast.Leads.{done_graph}
use protoc_gen_star.Ast.Imports.{edges}
use protoc_gen_star.Ast.Lookup.{is_in}
use protoc_gen_star.Ast.Registry.Files.{retarget}

-- The files of this package, in the order in which they were made.
abbrev pub in_package : Text → List File → List File
in_package k [] = []
in_package k (f ∷ fs) = if f.desc.package_name == k then f ∷ in_package k fs else in_package k fs

-- The package with these files, if there are any.
abbrev pub grouped : Text → List File → Option Package
grouped k [] = none
grouped k (f ∷ fs) = some (record { proto_name = k; files = f ∷ fs })

-- The number of the last file of this name.
abbrev pub last_named : Text → Option ℕ → List File → Option ℕ
last_named k o [] = o
last_named k o (f ∷ fs) = last_named k (if f.desc.name == k then some f.id else o) fs

-- Who is imported by whom.
abbrev pub all_edges : List File → List (ℕ × ℕ)
all_edges [] = []
all_edges (f ∷ fs) = edges f.id f.dependencies ++ all_edges fs

pub in_package-snoc :
    (k : Text) (fs : List File) (f : File)
    → in_package k (fs ++ f ∷ []) ≡ in_package k fs ++ in_package k (f ∷ [])
in_package-snoc k [] f = refl
in_package-snoc k (x ∷ fs) f = elim (Bool-cases (x.desc.package_name == k)) [
  | inl e ↦ rw e (ap (x ∷◌) (in_package-snoc k fs f))
  | inr e ↦ rw e (in_package-snoc k fs f)
]

pub grouped-snoc :
    (k : Text) (fs : List File) (f : File)
    → grouped k (fs ++ f ∷ []) ≡ some (record { proto_name = k; files = fs ++ f ∷ [] })
grouped-snoc k [] f = refl
grouped-snoc k (x ∷ fs) f = refl

pub last_named-snoc :
    (k : Text) (o : Option ℕ) (fs : List File) (f : File)
    → last_named k o (fs ++ f ∷ []) ≡ (if f.desc.name == k then some f.id else last_named k o fs)
last_named-snoc k o [] f = refl
last_named-snoc k o (x ∷ fs) f = last_named-snoc k (if x.desc.name == k then some x.id else o) fs f

pub all_edges-snoc :
    (fs : List File) (f : File)
    → all_edges (fs ++ f ∷ []) ≡ all_edges fs ++ edges f.id f.dependencies
all_edges-snoc [] f = append-nil (edges f.id f.dependencies)
all_edges-snoc (x ∷ fs) f =
    ap (edges x.id x.dependencies ++◌) (all_edges-snoc fs f)
    ∙ sym (append_assoc (edges x.id x.dependencies) (all_edges fs) (edges f.id f.dependencies))

-- The registers hold these files, where these names are wanted.
pub record Registers (wanted : List Text) (fs : List File) (g : Graph) : Type 0 where
  pub packages : (k : Text) → lookup k g.packages ≡ grouped k (in_package k fs)
  pub targets :
      (k : Text)
      → lookup k g.targets ≡ (if is_in k wanted then some (last_named k none fs) else none)
  pub dependents : g.dependents ≡ all_edges fs

-- The package of this name with these files.
abbrev pub with_files : Text → List File → Package
with_files name xs = record { proto_name = name; files = xs }

pub if_same {ℓ} : {A : Type ℓ} (b : Bool) (x y : A) → (b ≡ true → y ≡ x) → y ≡ (if b then x else y)
if_same true x y h = h refl
if_same false x y h = refl

-- Opening a package leaves the others alone.
pub opened :
    (name : Text) (xs : List File) (g g₀ : Graph) (u : Unit {0})
    → lookup name g.packages ≡ grouped name xs
    → hydrate_package name g ≡ done u g₀
    → (k : Text)
    → lookup k g₀.packages ≡ (if name == k then some (with_files name xs) else lookup k g.packages)
opened name [] g g₀ u e h k =
    let h' : new_package name none g ≡ done u g₀ =
      subst (λ o. new_package name o g ≡ done u g₀) e h in
    ap (λ (x : Graph). lookup k x.packages) (sym (done_graph h'))
    ∙ lookup-insert name k (with_files name []) g.packages
opened name (x ∷ xs) g g₀ u e h k =
    let h' : done tt g ≡ done u g₀ = subst (λ o. new_package name o g ≡ done u g₀) e h in
    ap (λ (x : Graph). lookup k x.packages) (sym (done_graph h'))
    ∙ if_same (name == k) _ _
        (λ q. ap (λ n. lookup n g.packages) (sym ((text_beq_iff name k).0 q)) ∙ e)

-- A file goes to the end of its package.
pub added :
    (name : Text) (xs : List File) (f : File) (g g₂ : Graph) (u : Unit {0})
    → lookup name g.packages ≡ some (with_files name xs)
    → add_file name f g ≡ done u g₂
    → (k : Text)
    → lookup k g₂.packages
      ≡ (if name == k then some (with_files name (xs ++ f ∷ [])) else lookup k g.packages)
added name xs f g g₂ u e h k =
    let h' : add_to_package name f (some (with_files name xs)) g ≡ done u g₂ =
      subst (λ o. add_to_package name f o g ≡ done u g₂) e h in
    ap (λ (x : Graph). lookup k x.packages) (sym (done_graph h'))
    ∙ lookup-insert name k (with_files name (xs ++ f ∷ [])) g.packages

pub add_file-same :
    (name : Text) (f : File) (o : Option Package) (g g₂ : Graph) (u : Unit {0})
    → add_to_package name f o g ≡ done u g₂
    → (g₂.targets ≡ g.targets) × (g₂.dependents ≡ g.dependents)
add_file-same name f none g g₂ u h = cc
add_file-same name f (some p) g g₂ u h = (
  ap (λ (x : Graph). x.targets) (sym (done_graph h)),
  ap (λ (x : Graph). x.dependents) (sym (done_graph h)),
)

pub hydrate_package-same :
    (name : Text) (o : Option Package) (g g₀ : Graph) (u : Unit {0})
    → new_package name o g ≡ done u g₀
    → (g₀.targets ≡ g.targets) × (g₀.dependents ≡ g.dependents)
hydrate_package-same name none g g₀ u h = (
  ap (λ (x : Graph). x.targets) (sym (done_graph h)),
  ap (λ (x : Graph). x.dependents) (sym (done_graph h)),
)
hydrate_package-same name (some p) g g₀ u h = (
  ap (λ (x : Graph). x.targets) (sym (done_graph h)),
  ap (λ (x : Graph). x.dependents) (sym (done_graph h)),
)

pub wanted_or : (b : Bool) (o : Option ℕ) → is_some (if b then some o else none) ≡ b
wanted_or true o = refl
wanted_or false o = refl

lookup-retarget_self :
    (k : Text) (id : ℕ) (ts : List (Text × Option ℕ))
    → lookup k (retarget k id ts) ≡ (if is_some (lookup k ts) then some (some id) else none)
lookup-retarget_self k id ts = elim (Option-cases (lookup k ts)) [
  | inl e ↦ rw e e
  | inr (t, e) ↦ rw e (lookup-insert_self k (some id) ts)
]

lookup-retarget_other :
    (k name : Text) (id : ℕ) (ts : List (Text × Option ℕ))
    → (name == k) ≡ false
    → lookup k (retarget name id ts) ≡ lookup k ts
lookup-retarget_other k name id ts ne = elim (Bool-cases (is_some (lookup name ts))) [
  | inl e ↦
      rw e
        (lookup-insert name k (some id) ts ∙ ap (λ b. if b then some (some id) else lookup k ts) ne)
  | inr e ↦ rw e refl
]

pub target_after :
    (b c : Bool) (last : Option ℕ) (id : ℕ) (o : Option (Option ℕ))
    → o ≡ (if c then some last else none)
    → (if b then if is_some o then some (some id) else none else o)
      ≡ (if c then some (if b then some id else last) else none)
target_after true true last id o e = rw e refl
target_after true false last id o e = rw e refl
target_after false true last id o e = e
target_after false false last id o e = e

pub lookup-retarget :
    (k name : Text) (id : ℕ) (ts : List (Text × Option ℕ))
    → lookup k (retarget name id ts)
      ≡ (if name == k then if is_some (lookup k ts) then some (some id) else none else lookup k ts)
lookup-retarget k name id ts = elim (Bool-cases (name == k)) [
  | inl q ↦
      let same : name ≡ k = (text_beq_iff name k).0 q in
      rw q (
        subst
          (λ n.
            lookup k (retarget n id ts) ≡ (if is_some (lookup k ts) then some (some id) else none))
          (sym same) (lookup-retarget_self k id ts))
  | inr q ↦ rw q (lookup-retarget_other k name id ts q)
]
