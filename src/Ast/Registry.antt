-- ===== src/Ast/Registry.antt =====
-- The packages, the targets and the dependents of files in the graph: the computations of ast.go
-- that build the parts of a file leave all three alone, and the types that fields have.
mod Types
mod Parts
mod Fields
mod Rest
pub mod Files
pub mod Groups
mod Steps
pub mod Packages
pub mod Typed
use mathlib.Core.Path.{subst}
use protoc_gen_star.Base.{
  if◌then◌else◌, nat_eq, Text, text_eq, is_some, lookup, ℕ, ◌≡◌, refl, ◌∙◌, Bool, true, false,
  Option, none, some, List, [], ◌∷◌,
}
use protoc_gen_star.Ast.Entity.{Kind}
use protoc_gen_star.Ast.Graph.{
  Graph, Fault, not_seen, wrong_kind, done, Hydration, ◌>>=◌, return, fail, allocate, need,
  must_seen, same_kind, seen_as, each,
}
use protoc_gen_star.Ast.Leads.{done_graph, bind-eq-done}

-- The fields that have a type still have one.
abbrev pub KeepsTypes : Graph → Graph → Type 0
KeepsTypes g g' = (i : ℕ) → is_some (lookup i g.types) ≡ true → is_some (lookup i g'.types) ≡ true

abbrev pub Aside : Graph → Graph → Type 0
Aside g g' =
    (g'.packages ≡ g.packages)
    × (g'.targets ≡ g.targets)
    × (g'.dependents ≡ g.dependents)
    × KeepsTypes g g'

pub Aside-refl : (g : Graph) → Aside g g
Aside-refl g = (refl, refl, refl, λ i x. x)

-- A computation that leaves the registers of files alone.
abbrev pub Through : {A : Type 0} → Hydration A → Type 0
Through {A} m = (g g' : Graph) (a : A) → m g ≡ done a g' → Aside g g'

pub Through-step :
    {A : Type 0} (f : Graph → A) (u : Graph → Graph)
    → ((g : Graph) → Aside g (u g))
    → Through (λ g. done (f g) (u g))
Through-step f u same g g' a h = subst (Aside g) (done_graph h) (same g)

pub Through-bind :
    {A B : Type 0} (m : Hydration A) (k : A → Hydration B)
    → Through m
    → ((a : A) → Through (k a))
    → Through (m >>= k)
Through-bind m k hm hk g g' b h =
    let (a, g₁, ha, hb) = bind-eq-done (m g) k h in
    let (p, t, d, n) = hm g g₁ a ha in
    let (p', t', d', n') = hk a g₁ g' b hb in (p' ∙ p, t' ∙ t, d' ∙ d, λ i x. n' i (n i x))

pub Through-return : {A : Type 0} (a : A) → Through (return a)
Through-return a = Through-step (λ g. a) (λ g. g) Aside-refl

pub Through-fail : {A : Type 0} (e : Fault) → Through {A = A} (fail e)
Through-fail e g g' b h = cc

pub need-Aside :
    {A : Type 0} (e : Fault) (v : Option A) (g g' : Graph) (a : A)
    → need e v g ≡ done a g'
    → Aside g g'
need-Aside e none g g' a h = cc
need-Aside e (some x) g g' a h = Through-return x g g' a h

pub Through-need : {A : Type 0} (e : Fault) (o : Graph → Option A) → Through (λ g. need e (o g) g)
Through-need e o g = need-Aside e (o g) g

pub Through-if :
    {A : Type 0} (c : Bool) (m n : Hydration A)
    → Through m
    → Through n
    → Through (if c then m else n)
Through-if true m n hm hn = hm
Through-if false m n hm hn = hn

pub Through-each :
    {D A : Type 0} (f : D → Hydration A)
    → ((d : D) → Through (f d))
    → (ds : List D) → Through (each f ds)
unfolding each
Through-each f hf [] = Through-return []
Through-each f hf (d ∷ ds) =
    Through-bind (f d) _ (hf d)
      (λ x. Through-bind (each f ds) _ (Through-each f hf ds) (λ xs. Through-return (x ∷ xs)))

pub Through-allocate : (key : Text) (k : Kind) → Through (allocate key k)
Through-allocate key k = Through-step (λ g. g.next) _ (λ g. (refl, refl, refl, λ i x. x))

pub seen_as-Through : (k : Kind) (name : Text) → Through (seen_as k name)
seen_as-Through k name =
    Through-bind (must_seen name) _ (Through-need (not_seen name) (λ g. lookup name g.entities))
      (λ r. Through-if (same_kind r.kind k) _ _ (Through-return r.id) (Through-fail wrong_kind))
