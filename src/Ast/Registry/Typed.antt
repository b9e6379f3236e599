-- ===== src/Ast/Registry/Typed.antt =====
-- The types of the fields of a request's files, and the loops of
-- `ProcessCodeGeneratorRequestBidirectional` that read them.
use mathlib.Core.List.Memᴰ
use mathlib.Core.Path.{subst}
use protoc_gen_star.Base.{
  nat_eq, Text, text_eq, All, is_some, lookup, ℕ, ◌≡◌, refl, sym, ap, inl, inr, true, Option, none,
  some, List, [], ◌∷◌, ◌++◌, Memᴰ,
}
use protoc_gen_star.Ast.Descriptor.{FileDesc, Request}
use protoc_gen_star.Ast.Entity.{Field, Message, File, file_all_messages}
use protoc_gen_star.Ast.Graph.{FieldType, Package, Graph, done, return}
use protoc_gen_star.Ast.Types.{fields_of, map_entries, entry_fields, typed_fields}
use protoc_gen_star.Ast.Process.{
  new_package, hydrate_package, hydrate_file, add_to_package, add_file, hydrate_files,
  connect_extensions, process_request,
}
use protoc_gen_star.Ast.Leads.{done_value, done_graph, bind-eq-done}
use protoc_gen_star.Ast.Dependents.{Uses, assign_files}
use protoc_gen_star.Ast.Dependents.Converse.{Converse, Typed, PlainKeys, assign_files-Converse}
use protoc_gen_star.Ast.Registry.{KeepsTypes}
use protoc_gen_star.Ast.Registry.Types.{connect_extensions-Through}
use protoc_gen_star.Ast.Registry.Fields.{HasTypes, HasTypes-kept}
use protoc_gen_star.Ast.Registry.Files.{hydrate_file-Enters}

-- The fields of all messages of this file, and of their map entries, have types.
abbrev pub FileTyped : Graph → File → Type 0
FileTyped g f = HasTypes g (typed_fields (file_all_messages f.msgs))

All-kept :
    (g g' : Graph) (fs : List File) → KeepsTypes g g' → All (FileTyped g) fs → All (FileTyped g') fs
All-kept g g' [] keep h = tt
All-kept g g' (f ∷ fs) keep (h, hs) =
    (HasTypes-kept g g' (typed_fields (file_all_messages f.msgs)) keep h, All-kept g g' fs keep hs)

hydrate_package-types :
    (name : Text) (o : Option Package) (g g' : Graph) (u : Unit {0})
    → new_package name o g ≡ done u g'
    → g.types ≡ g'.types
hydrate_package-types name none g g' u h = ap (λ (x : Graph). x.types) (done_graph h)
hydrate_package-types name (some p) g g' u h = ap (λ (x : Graph). x.types) (done_graph h)

add_file-types :
    (name : Text) (f : File) (o : Option Package) (g g' : Graph) (u : Unit {0})
    → add_to_package name f o g ≡ done u g'
    → g.types ≡ g'.types
add_file-types name f none g g' u h = cc
add_file-types name f (some p) g g' u h = ap (λ (x : Graph). x.types) (done_graph h)

same-KeepsTypes : (g g' : Graph) → g.types ≡ g'.types → KeepsTypes g g'
same-KeepsTypes g g' e i x = rw (sym e) x

hydrate_files-FileTyped :
    (ds : List FileDesc) (fls : List File) (g g' : Graph)
    → hydrate_files ds g ≡ done fls g'
    → KeepsTypes g g' × All (FileTyped g') fls
unfolding hydrate_files
hydrate_files-FileTyped [] fls g g' h = (
  same-KeepsTypes g g' (ap (λ (x : Graph). x.types) (done_graph h)),
  subst (All (FileTyped g')) (done_value h) tt,
)
hydrate_files-FileTyped (d ∷ ds) fls g g' h =
    let (u, g₀, e₀, h₀) = bind-eq-done (hydrate_package d.package_name g) _ h in
    let (f, g₁, e₁, h₁) = bind-eq-done (hydrate_file d g₀) _ h₀ in
    let (v, g₂, e₂, h₂) = bind-eq-done (add_file d.package_name f g₁) _ h₁ in
    let (rest, g₃, e₃, h₃) = bind-eq-done (hydrate_files ds g₂) (λ fls. return (f ∷ fls)) h₂ in
    let enters = hydrate_file-Enters d g₀ g₁ f e₁ in
    let (keep, typed) = hydrate_files-FileTyped ds rest g₂ g₃ e₃ in
    let k₀ : KeepsTypes g g₀ =
      same-KeepsTypes g g₀
        (hydrate_package-types d.package_name (lookup d.package_name g.packages) g g₀ u e₀) in
    let k₂ : KeepsTypes g₁ g₂ =
      same-KeepsTypes g₁ g₂
        (add_file-types d.package_name f (lookup d.package_name g₁.packages) g₁ g₂ v e₂) in
    let after : KeepsTypes g₁ g₃ = λ i x. keep i (k₂ i x) in
    (
      subst (KeepsTypes g) (done_graph h₃) (λ i x. after i (enters.types i (k₀ i x))),
      subst (λ x. All (FileTyped x) fls) (done_graph h₃)
          (subst (All (FileTyped g₃)) (done_value h₃) (
            HasTypes-kept g₁ g₃ (typed_fields (file_all_messages f.msgs)) after enters.typed,
            typed,
          )),
    )

All-split {ℓ κ} :
    {T : Type ℓ} (P : T → Type κ) (us vs : List T) → All P (us ++ vs) → All P us × All P vs
All-split P [] vs h = (tt, h)
All-split P (u ∷ us) vs (h, hs) = let (a, b) = All-split P us vs hs in ((h, a), b)

All-member {ℓ κ} : {T : Type ℓ} (P : T → Type κ) (vs : List T) (u : T) → All P vs → Memᴰ u vs → P u
All-member P [] u h i = absurd (Memᴰ.not-nil i)
All-member P (v ∷ vs) u (h, hs) i = elim (Memᴰ.cases_cons i) [
  | inl e ↦ subst P (sym e) h
  | inr j ↦ All-member P vs u hs j
]

All-among {ℓ κ} :
    {T : Type ℓ} (P : T → Type κ) (us vs : List T)
    → All P vs
    → ((u : T) → Memᴰ u us → Memᴰ u vs)
    → All P us
All-among P [] vs h sub = tt
All-among P (u ∷ us) vs h sub =
    (All-member P vs u h (sub u (Memᴰ.head refl)), All-among P us vs h (λ v i. sub v (Memᴰ.tail i)))

-- Each field of this message, and of its map entries, has a type.
abbrev pub MessageTyped : List (ℕ × FieldType) → Message → Type 0
MessageTyped types m =
    All (λ (x : Field). is_some (lookup x.id types) ≡ true) (fields_of m)
    × All (λ e. All (λ (x : Field). is_some (lookup x.id types) ≡ true) (fields_of e))
        (map_entries m)

entry_fields-Typed :
    (g : Graph) (ms : List Message) → HasTypes g (entry_fields ms) → Typed g.types ms
entry_fields-Typed g [] h = tt
entry_fields-Typed g (m ∷ ms) h =
    let (own, more) =
      All-split (λ (x : Field). is_some (lookup x.id g.types) ≡ true) (fields_of m)
        (entry_fields ms) h in
    (own, entry_fields-Typed g ms more)

typed_fields-MessageTyped :
    (g : Graph) (ms : List Message) → HasTypes g (typed_fields ms) → All (MessageTyped g.types) ms
typed_fields-MessageTyped g [] h = tt
typed_fields-MessageTyped g (m ∷ ms) h =
    let Has : Field → Type 0 = λ f. is_some (lookup f.id g.types) ≡ true in
    let (here, more) =
      All-split Has (entry_fields (map_entries m) ++ fields_of m) (typed_fields ms) h in
    let (entries, own) = All-split Has (entry_fields (map_entries m)) (fields_of m) here in
    ((own, entry_fields-Typed g (map_entries m) entries), typed_fields-MessageTyped g ms more)

All-map {ℓ κ μ} :
    {T : Type ℓ} (P : T → Type κ) (Q : T → Type μ) (ts : List T)
    → ((t : T) → P t → Q t)
    → All P ts
    → All Q ts
All-map P Q [] f h = tt
All-map P Q (t ∷ ts) f (h, hs) = (f t h, All-map P Q ts f hs)

-- If a request is processed without failure, then every field of the messages of its files, nested
-- ones included, and every field of their map entries has a type.
pub process_request-Typed :
    (req : Request) (fls : List File) (g : Graph)
    → process_request req ≡ done fls g
    → All (λ (f : File). All (MessageTyped g.types) (file_all_messages f.msgs)) fls
unfolding process_request
process_request-Typed req fls g h =
    let (fs, g₁, e₁, h₁) = bind-eq-done (hydrate_files req.proto_files _) _ h in
    let (u, g₂, e₂, h₂) = bind-eq-done (connect_extensions g₁.extensions g₁) (λ u. return fs) h₁ in
    let (p, t, d, keep) = connect_extensions-Through g₁.extensions g₁ g₂ u e₂ in
    let (k, typed) = hydrate_files-FileTyped req.proto_files fs _ g₁ e₁ in
    All-map (FileTyped g) _ fls (λ f. typed_fields-MessageTyped g (file_all_messages f.msgs))
      (subst (λ x. All (FileTyped x) fls) (done_graph h₂)
        (subst (All (FileTyped g₂)) (done_value h₂) (All-kept g₁ g₂ fs keep typed)))

-- If a request is processed without failure, and no type made is a map whose keys are messages, then
-- on its files, in whatever order and however often, the loops of
-- `ProcessCodeGeneratorRequestBidirectional` end without a panic; and a message is among the
-- dependents of another exactly if that one is among its dependencies.
pub process_request-assign_files :
    (req : Request) (fls : List File) (g : Graph)
    → process_request req ≡ done fls g
    → PlainKeys g.types
    → (fs : List File) → ((f : File) → Memᴰ f fs → Memᴰ f fls)
    → (u : Uses) × (assign_files g.types fs
          (record { dependents = []; dependencies = []; enum_dependents = [] })
        ≡ some u)
      × Converse u.dependents u.dependencies
process_request-assign_files req fls g h plain fs among =
    assign_files-Converse g.types plain fs _
      (All-among (λ (f : File). Typed g.types (file_all_messages f.msgs)) fs fls
        (All-map (λ (f : File). All (MessageTyped g.types) (file_all_messages f.msgs)) _ fls
          (λ f. All-map (MessageTyped g.types) _ (file_all_messages f.msgs) (λ m typed. typed.0))
          (process_request-Typed req fls g h))
        among)
      (record { there = λ m p i. absurd (Memᴰ.not-nil i); back = λ m p i. absurd (Memᴰ.not-nil i) })
