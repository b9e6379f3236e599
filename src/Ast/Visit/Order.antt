-- ===== src/Ast/Visit/Order.antt =====
-- The order of a walk by a visitor that goes everywhere.
use mathlib.Core.Path.{fun_ext}
use protoc_gen_star.Base.{◌≡◌, refl, sym, ap, ◌∙◌, Option, none, some, List, [], ◌∷◌, ◌++◌}
use protoc_gen_star.Ast.Graph.{Package}
use protoc_gen_star.Ast.Visit.{
  Node, Visitor, Answer, Walked, next_unless, visit, accept_leaf, descend, accept_each,
  accept_package,
}
use protoc_gen_star.Ast.Visit.Walks.{next_assoc, accept_package-walk_tree}
use protoc_gen_star.Ast.Visit.Tree.{
  Tree, node, Trees, no_trees, tree_cons, package_tree, walk_tree, walk_trees,
}

-- The nodes of a tree, each in front of its children.
unfoldable mutual
  pub preorder : Tree → List Node
  preorder (node n ts) = n ∷ preorders ts

  pub preorders : Trees → List Node
  preorders no_trees = []
  preorders (tree_cons t ts) = preorder t ++ preorders ts

module _ {U E S : Type 0} (own_visit : U → Node → S → Answer U E S) where
  -- The visits of these nodes one after another, up to the first error.
  unfoldable pub visit_each : Visitor U → List Node → S → Walked E S
  unfolding accept_each accept_leaf
  visit_each v = accept_each own_visit (accept_leaf own_visit (some v))

  -- A visitor that always answers with itself, as one with `PassThroughVisitor` of itself does.
  abbrev pub GoesOn : Visitor U → Type 0
  GoesOn v = (n : Node) (s : S) → (visit own_visit v n s).visitor ≡ some v

  visit_each-append :
      (v : Visitor U) (ns ms : List Node) (s : S)
      → visit_each v (ns ++ ms) s ≡ next_unless (visit_each v ns s) (visit_each v ms)
  unfolding visit_each
  visit_each-append v [] ms s = refl
  visit_each-append v (n ∷ ns) ms s =
      ap (next_unless (accept_leaf own_visit (some v) n s)) (fun_ext (visit_each-append v ns ms))
      ∙ sym (
          next_assoc own_visit (accept_leaf own_visit (some v) n s) (visit_each v ns)
            (visit_each v ms))

  descend-next_unless :
      (v : Visitor U) (f : Option E) (o : Option (Visitor U)) (s : S) (ts : Trees) (ns : List Node)
      → o ≡ some v
      → walk_trees own_visit v ts ≡ visit_each v ns
      → descend own_visit f o s (λ w. walk_trees own_visit w ts)
        ≡ next_unless (f, s) (visit_each v ns)
  descend-next_unless v none none s ts ns h e = cc h
  descend-next_unless v (some x) o s ts ns h e = refl
  descend-next_unless v none (some w) s ts ns h e = let same : w ≡ v = cc h in rw (same, e) refl

  mutual
    unfolding walk_tree preorder visit_each

    walk_tree-preorder :
        (v : Visitor U)
        → GoesOn v
        → (t : Tree) (s : S) → walk_tree own_visit (some v) t s ≡ visit_each v (preorder t) s
    walk_tree-preorder v h (node n ts) s =
        descend-next_unless v (visit own_visit v n s).failure (visit own_visit v n s).visitor
          (visit own_visit v n s).state ts (preorders ts) (h n s)
          (fun_ext (walk_trees-preorders v h ts))

    walk_trees-preorders :
        (v : Visitor U)
        → GoesOn v
        → (ts : Trees) (s : S) → walk_trees own_visit v ts s ≡ visit_each v (preorders ts) s
    walk_trees-preorders v h no_trees s = refl
    walk_trees-preorders v h (tree_cons t ts) s =
        ap (λ r. next_unless r (walk_trees own_visit v ts)) (walk_tree-preorder v h t s)
        ∙ ap (next_unless (visit_each v (preorder t) s)) (fun_ext (walk_trees-preorders v h ts))
        ∙ sym (visit_each-append v (preorder t) (preorders ts) s)

  -- `Walk` through a package by a visitor that goes on everywhere visits the nodes of the package
  -- one after another, each in front of its children, up to the first error.
  pub accept_package-preorder :
      (v : Visitor U) (p : Package) (s : S)
      → GoesOn v
      → accept_package own_visit (some v) p s ≡ visit_each v (preorder (package_tree p)) s
  accept_package-preorder v p s h =
      ap (λ walk. walk s) (accept_package-walk_tree own_visit (some v) p)
      ∙ walk_tree-preorder v h (package_tree p) s
