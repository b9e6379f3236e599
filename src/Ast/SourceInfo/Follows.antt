-- ===== src/Ast/SourceInfo/Follows.antt =====
-- `childAtPath` follows the paths into lists, enums and services.
use protoc_gen_star.Base.{
  All, All-append, ℕ, suc, ◌≡◌, refl, ap, ◌∙◌, Bool, true, false, not, List, [], ◌∷◌,
}
use protoc_gen_star.Ast.Entity.{Enum, Service}
use protoc_gen_star.Ast.SourceInfo.{
  enum_type_value_path, service_type_method_path, Child, child, is_odd, leaf_child, child_in,
  enum_child, service_child,
}
use protoc_gen_star.Ast.SourceInfo.Places.{
  Places, prefixed, shifted, places_in, place, enum_places, service_places,
}

-- The path leads to the entity, and its length is odd, or even.
pub record Follows (odd : Bool) (at : List ℕ → Child) (p : List ℕ × ℕ) : Type 0 where
  pub parity : is_odd p.0 ≡ odd
  pub found : at p.0 ≡ child p.1

pub prefixed-Follows :
    (odd : Bool) (at at' : List ℕ → Child) (k : ℕ) (ps : Places)
    → ((path : List ℕ) → is_odd path ≡ odd → at' (k ∷ path) ≡ at path)
    → All (Follows odd at) ps
    → All (Follows (not odd) at') (prefixed k ps)
prefixed-Follows odd at at' k [] e h = tt
prefixed-Follows odd at at' k ((path, id) ∷ ps) e (h, hs) = (
  record { parity = ap not h.parity; found = e path h.parity ∙ h.found },
  prefixed-Follows odd at at' k ps e hs,
)

pub shifted-Follows :
    (at at' : List ℕ → Child) (ps : Places)
    → ((i : ℕ) (path : List ℕ) → at' (suc i ∷ path) ≡ at (i ∷ path))
    → All (Follows true at) ps
    → All (Follows true at') (shifted ps)
shifted-Follows at at' [] e h = tt
shifted-Follows at at' (([], id) ∷ ps) e (h, hs) = cc h.parity
shifted-Follows at at' ((i ∷ path, id) ∷ ps) e (h, hs) =
    (record { parity = h.parity; found = e i path ∙ h.found }, shifted-Follows at at' ps e hs)

pub places_in-Follows {ℓ} :
    {A : Type ℓ} (at : A → List ℕ → Child) (places : A → Places)
    → ((x : A) → All (Follows false (at x)) (places x))
    → (xs : List A) → All (Follows true (child_in at xs)) (places_in places xs)
unfolding child_in
places_in-Follows at places h [] = tt
places_in-Follows at places h (x ∷ xs) =
    All-append (Follows true (child_in at (x ∷ xs))) (prefixed 0 (places x)) _
      (prefixed-Follows false (at x) (child_in at (x ∷ xs)) 0 (places x) (λ path e. refl) (h x))
      (shifted-Follows (child_in at xs) (child_in at (x ∷ xs)) (places_in places xs)
        (λ i path. refl) (places_in-Follows at places h xs))

pub leaf-Follows : (id : ℕ) → All (Follows false (leaf_child id)) (place id)
unfolding leaf_child
leaf-Follows id = (record { parity = refl; found = refl }, tt)

pub enum-Follows : (e : Enum) → All (Follows false (enum_child e)) (enum_places e)
unfolding enum_child
enum-Follows e = (
  record { parity = refl; found = refl },
  prefixed-Follows true (child_in (λ v. leaf_child v.id) e.vals) (enum_child e) enum_type_value_path
      (places_in (λ v. place v.id) e.vals) (λ path o. rw o refl)
      (places_in-Follows (λ v. leaf_child v.id) (λ v. place v.id) (λ v. leaf-Follows v.id) e.vals),
)

pub service-Follows : (sv : Service) → All (Follows false (service_child sv)) (service_places sv)
unfolding service_child
service-Follows sv = (
  record { parity = refl; found = refl },
  prefixed-Follows true (child_in (λ m. leaf_child m.id) sv.methods) (service_child sv)
      service_type_method_path (places_in (λ m. place m.id) sv.methods) (λ path o. rw o refl)
      (places_in-Follows (λ m. leaf_child m.id) (λ m. place m.id) (λ m. leaf-Follows m.id)
        sv.methods),
)
