-- ===== src/Ast/Visit/Tree.antt =====
-- The tree of nodes, each node with its children in the order in which they are visited, without
-- the map entries, and the walk on it.
use protoc_gen_star.Base.{if◌then◌else◌, Option, none, some, List, [], ◌∷◌}
use protoc_gen_star.Ast.Entity.{
  Enum, MessageHead, Message, message, Messages, no_messages, msg_cons, Service, File, is_map_entry,
}
use protoc_gen_star.Ast.Graph.{Package}
use protoc_gen_star.Ast.Visit.{
  Node, package_n, file_n, message_n, enum_n, enum_value_n, field_n, extension_n, oneof_n,
  service_n, method_n, Visitor, Answer, Walked, next_unless, enter,
}

mutual
  pub data Tree : Type 0 where
    node : Node → Trees → Tree

  pub data Trees : Type 0 where
    no_trees : Trees
    tree_cons : Tree → Trees → Trees

abbrev pub append_trees : Trees → Trees → Trees
append_trees no_trees us = us
append_trees (tree_cons t ts) us = tree_cons t (append_trees ts us)

abbrev pub trees {ℓ} : {A : Type ℓ} → (A → Tree) → List A → Trees
trees tree [] = no_trees
trees tree (x ∷ xs) = tree_cons (tree x) (trees tree xs)

abbrev pub leaf : Node → Tree
leaf n = node n no_trees

abbrev pub enum_tree : Enum → Tree
enum_tree e = node (enum_n e) (trees (λ v. leaf (enum_value_n v)) e.vals)

abbrev pub service_tree : Service → Tree
service_tree sv = node (service_n sv) (trees (λ m. leaf (method_n m)) sv.methods)

abbrev pub member_trees : MessageHead → Trees
member_trees h = append_trees (trees (λ f. leaf (field_n f)) h.fields) (
    append_trees (trees (λ o. leaf (oneof_n o)) h.oneofs)
      (trees (λ x. leaf (extension_n x)) h.def_exts))

abbrev mutual
  pub message_tree : Message → Tree
  message_tree (message h ms) =
      node (message_n (message h ms))
        (append_trees (trees enum_tree h.enums) (append_trees (nested_trees ms) (member_trees h)))

  pub nested_trees : Messages → Trees
  nested_trees no_messages = no_trees
  nested_trees (msg_cons m ms) =
      if is_map_entry m then nested_trees ms else tree_cons (message_tree m) (nested_trees ms)

abbrev pub messages_trees : Messages → Trees
messages_trees no_messages = no_trees
messages_trees (msg_cons m ms) = tree_cons (message_tree m) (messages_trees ms)

abbrev pub file_tree : File → Tree
file_tree f = node (file_n f) (
    append_trees (trees enum_tree f.enums) (
      append_trees (messages_trees f.msgs)
        (append_trees (trees service_tree f.srvs) (trees (λ x. leaf (extension_n x)) f.def_exts))))

abbrev pub package_tree : Package → Tree
package_tree p = node (package_n p) (trees file_tree p.files)

module _ {U E S : Type 0} (own_visit : U → Node → S → Answer U E S) where
  unfoldable mutual
    unfolding enter

    -- A node is visited; the visitor that it answers with, if any, walks through its children.
    pub walk_tree : Option (Visitor U) → Tree → S → Walked E S
    walk_tree v (node n ts) = enter own_visit v n (λ w. walk_trees w ts)

    -- The trees are walked in order, up to the first error.
    pub walk_trees : Visitor U → Trees → S → Walked E S
    walk_trees w no_trees s = (none, s)
    walk_trees w (tree_cons t ts) s = next_unless (walk_tree (some w) t s) (walk_trees w ts)
