-- ===== src/Ast/Registry/Fields.antt =====
-- The fields that the loop on a file's messages gives a type.
use mathlib.Core.Path.{subst}
use protoc_gen_star.Base.{
  nat_eq, text_eq, All, is_some, lookup, insert, lookup-insert_self, ◌≡◌, ap, true, List, [], ◌∷◌,
}
use protoc_gen_star.Ast.Entity.{Field, File, file_all_messages}
use protoc_gen_star.Ast.Graph.{Graph, done, Hydration, ◌>>=◌}
use protoc_gen_star.Ast.Types.{hydrate_field_type, add_types, typed_fields}
use protoc_gen_star.Ast.Leads.{bind-eq-done}
use protoc_gen_star.Ast.Returns.{Returns}
use protoc_gen_star.Ast.Registry.{KeepsTypes, Through}
use protoc_gen_star.Ast.Registry.Types.{add_types-Through}

-- Each of these fields has a type.
abbrev pub HasTypes : Graph → List Field → Type 0
HasTypes g fs = All (λ (f : Field). is_some (lookup f.id g.types) ≡ true) fs

-- What holds of the value and the graph of a computation that ends.
abbrev pub Ends : {A : Type 0} → Hydration A → (A → Graph → Type 0) → Type 0
Ends {A} m Q = (g g' : Graph) (a : A) → m g ≡ done a g' → Q a g'

pub Ends-after :
    {A B : Type 0} (m : Hydration A) (k : A → Hydration B) (Q : B → Graph → Type 0)
    → ((a : A) → Ends (k a) Q)
    → Ends (m >>= k) Q
Ends-after m k Q hk g g' b h = let (a, g₁, e, h') = bind-eq-done (m g) k h in hk a g₁ g' b h'

pub HasTypes-kept :
    (g g' : Graph) (fs : List Field) → KeepsTypes g g' → HasTypes g fs → HasTypes g' fs
HasTypes-kept g g' [] keep h = tt
HasTypes-kept g g' (f ∷ fs) keep (h, hs) = (keep f.id h, HasTypes-kept g g' fs keep hs)

add_types-HasTypes : (fs : List Field) → Ends (add_types fs) (λ u g. HasTypes g fs)
unfolding add_types
add_types-HasTypes [] g g' u h = tt
add_types-HasTypes (f ∷ fs) g g' u h =
    let (t, g₁, e, h') = bind-eq-done (hydrate_field_type f.desc g) _ h in
    let g₂ : Graph = record g₁ { types = insert f.id t g₁.types } in
    let (p, q, r, keep) = add_types-Through fs g₂ g' u h' in
    (keep f.id (ap is_some (lookup-insert_self f.id t g₁.types)), add_types-HasTypes fs g₂ g' u h')

-- The rest of a file leaves the types of its fields.
pub typed_after :
    (fl : File) (k : Unit {0} → Hydration File)
    → ((u : Unit {0}) → Through (k u))
    → ((u : Unit {0}) → Returns (k u) (λ f. fl ≡ f))
    → Ends
        (add_types (typed_fields (file_all_messages fl.msgs)) >>= k)
        (λ f g. HasTypes g (typed_fields (file_all_messages f.msgs)))
typed_after fl k through returns g g' f h =
    let ts = typed_fields (file_all_messages fl.msgs) in
    let (u, g₁, e, h') = bind-eq-done (add_types ts g) k h in
    let (p, q, r, keep) = through u g₁ g' f h' in
    subst (λ (x : File). HasTypes g' (typed_fields (file_all_messages x.msgs)))
      (returns u g₁ g' f h') (HasTypes-kept g₁ g' ts keep (add_types-HasTypes ts g g₁ u e))
