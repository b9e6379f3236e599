-- ===== src/Ast/Visit/Walks.antt =====
-- `accept` on the entities is the walk on their tree.
use mathlib.Core.Path.{fun_ext}
use protoc_gen_star.Base.{
  if◌then◌else◌, ◌≡◌, refl, sym, ap, ◌∙◌, Bool, true, false, Option, none, some, List, [], ◌∷◌,
}
use protoc_gen_star.Ast.Entity.{
  Enum, MessageHead, Message, message, Messages, no_messages, msg_cons, Service, File, is_map_entry,
}
use protoc_gen_star.Ast.Graph.{Package}
use protoc_gen_star.Ast.Visit.{
  Node, package_n, file_n, message_n, enum_n, enum_value_n, field_n, extension_n, oneof_n,
  service_n, method_n, Visitor, Answer, Walked, next_unless, visit, accept_leaf, descend, enter,
  accept_each, accept_enum, accept_service, accept_members, accept_message, accept_nested,
  accept_messages, accept_file, accept_package,
}
use protoc_gen_star.Ast.Visit.Tree.{
  Tree, Trees, no_trees, tree_cons, append_trees, trees, leaf, enum_tree, service_tree,
  member_trees, message_tree, nested_trees, messages_trees, file_tree, package_tree, walk_tree,
  walk_trees,
}

module _ {U E S : Type 0} (own_visit : U → Node → S → Answer U E S) where
  pub next_assoc :
      (r : Walked E S) (k l : S → Walked E S)
      → next_unless (next_unless r k) l ≡ next_unless r (λ s. next_unless (k s) l)
  next_assoc (none, s) k l = refl
  next_assoc (some e, s) k l = refl

  next_none : (r : Walked E S) → next_unless r (λ s. (none, s)) ≡ r
  next_none (none, s) = refl
  next_none (some e, s) = refl

  walk_trees-append :
      (w : Visitor U) (ts us : Trees) (s : S)
      → walk_trees own_visit w (append_trees ts us) s
        ≡ next_unless (walk_trees own_visit w ts s) (walk_trees own_visit w us)
  unfolding walk_tree
  walk_trees-append w no_trees us s = refl
  walk_trees-append w (tree_cons t ts) us s =
      ap (next_unless (walk_tree own_visit (some w) t s)) (fun_ext (walk_trees-append w ts us))
      ∙ sym (
          next_assoc (walk_tree own_visit (some w) t s) (walk_trees own_visit w ts)
            (walk_trees own_visit w us))

  -- A loop on children is the walk on their trees, if each child is.
  accept_each-walk_trees {ℓ} :
      {A : Type ℓ} (accept : A → S → Walked E S) (tree : A → Tree) (w : Visitor U)
      → ((x : A) → accept x ≡ walk_tree own_visit (some w) (tree x))
      → (xs : List A) (s : S)
      → accept_each own_visit accept xs s ≡ walk_trees own_visit w (trees tree xs) s
  unfolding walk_tree accept_each
  accept_each-walk_trees accept tree w h [] s = refl
  accept_each-walk_trees accept tree w h (x ∷ xs) s = rw (h x) (
      ap (next_unless (walk_tree own_visit (some w) (tree x) s))
        (fun_ext (accept_each-walk_trees accept tree w h xs)))

  descend_none :
      (f : Option E) (v : Option (Visitor U)) (s : S)
      → ◌≡◌ {A = Walked E S} (f, s) (descend own_visit f v s (λ w s'. (none, s')))
  descend_none (some e) v s = refl
  descend_none none none s = refl
  descend_none none (some w) s = refl

  accept_leaf-walk_tree :
      (v : Option (Visitor U)) (n : Node)
      → accept_leaf own_visit v n ≡ walk_tree own_visit v (leaf n)
  unfolding accept_leaf walk_tree enter
  accept_leaf-walk_tree none n = refl
  accept_leaf-walk_tree (some v) n = fun_ext (λ s.
      descend_none (visit own_visit v n s).failure (visit own_visit v n s).visitor
        (visit own_visit v n s).state)

  accept_enum-walk_tree :
      (v : Option (Visitor U)) (e : Enum)
      → accept_enum own_visit v e ≡ walk_tree own_visit v (enum_tree e)
  unfolding accept_enum walk_tree
  accept_enum-walk_tree v e = ap (enter own_visit v (enum_n e)) (
      fun_ext (λ w. fun_ext (
        accept_each-walk_trees _ (λ x. leaf (enum_value_n x)) w
          (λ x. accept_leaf-walk_tree (some w) (enum_value_n x)) e.vals)))

  accept_service-walk_tree :
      (v : Option (Visitor U)) (sv : Service)
      → accept_service own_visit v sv ≡ walk_tree own_visit v (service_tree sv)
  unfolding accept_service walk_tree
  accept_service-walk_tree v sv = ap (enter own_visit v (service_n sv)) (
      fun_ext (λ w. fun_ext (
        accept_each-walk_trees _ (λ x. leaf (method_n x)) w
          (λ x. accept_leaf-walk_tree (some w) (method_n x)) sv.methods)))

  -- A loop and what follows it, if both are walks.
  then_walk :
      (w : Visitor U) (ts us : Trees) (m : S → Walked E S) (k : S → Walked E S)
      → m ≡ walk_trees own_visit w ts
      → k ≡ walk_trees own_visit w us
      → (s : S) → next_unless (m s) k ≡ walk_trees own_visit w (append_trees ts us) s
  then_walk w ts us m k hm hk s = rw (hm, hk) (sym (walk_trees-append w ts us s))

  leaves-walk_trees {ℓ} :
      {A : Type ℓ} (w : Visitor U) (n : A → Node) (xs : List A)
      → accept_each own_visit (λ x. accept_leaf own_visit (some w) (n x)) xs
        ≡ walk_trees own_visit w (trees (λ x. leaf (n x)) xs)
  leaves-walk_trees w n xs =
      fun_ext (
        accept_each-walk_trees _ (λ x. leaf (n x)) w (λ x. accept_leaf-walk_tree (some w) (n x)) xs)

  accept_members-walk_trees :
      (h : MessageHead) (w : Visitor U)
      → accept_members own_visit h w ≡ walk_trees own_visit w (member_trees h)
  unfolding accept_members
  accept_members-walk_trees h w = fun_ext (
      then_walk w (trees (λ f. leaf (field_n f)) h.fields) _ _ _
        (leaves-walk_trees w field_n h.fields)
        (fun_ext (
          then_walk w (trees (λ o. leaf (oneof_n o)) h.oneofs) _ _ _
            (leaves-walk_trees w oneof_n h.oneofs) (leaves-walk_trees w extension_n h.def_exts))))

  nested_cons :
      (skip : Bool) (w : Visitor U) (t : Tree) (ts : Trees) (this rest : S → Walked E S)
      → this ≡ walk_tree own_visit (some w) t
      → rest ≡ walk_trees own_visit w ts
      → ◌≡◌ {A = S → Walked E S}
          (λ s. if skip then rest s else next_unless (this s) rest)
          (walk_trees own_visit w (if skip then ts else tree_cons t ts))
  unfolding walk_tree
  nested_cons true w t ts this rest ht hr = hr
  nested_cons false w t ts this rest ht hr = fun_ext (λ s. rw (ht, hr) refl)

  mutual
    unfolding accept_message walk_tree

    accept_message-walk_tree :
        (v : Option (Visitor U)) (m : Message)
        → accept_message own_visit v m ≡ walk_tree own_visit v (message_tree m)
    accept_message-walk_tree v (message h ms) = ap (enter own_visit v (message_n (message h ms))) (
        fun_ext (λ w. fun_ext (
          then_walk w (trees enum_tree h.enums) _ _ _
            (fun_ext
              (accept_each-walk_trees _ enum_tree w (accept_enum-walk_tree (some w)) h.enums))
            (fun_ext (
              then_walk w (nested_trees ms) _ _ _ (accept_nested-walk_trees w ms)
                (accept_members-walk_trees h w))))))

    accept_nested-walk_trees :
        (w : Visitor U) (ms : Messages)
        → accept_nested own_visit w ms ≡ walk_trees own_visit w (nested_trees ms)
    accept_nested-walk_trees w no_messages = refl
    accept_nested-walk_trees w (msg_cons m ms) =
        nested_cons (is_map_entry m) w (message_tree m) (nested_trees ms) _ _
          (accept_message-walk_tree (some w) m) (accept_nested-walk_trees w ms)

  accept_messages-walk_trees :
      (w : Visitor U) (ms : Messages)
      → accept_messages own_visit w ms ≡ walk_trees own_visit w (messages_trees ms)
  unfolding accept_messages walk_tree
  accept_messages-walk_trees w no_messages = refl
  accept_messages-walk_trees w (msg_cons m ms) =
      nested_cons false w (message_tree m) (messages_trees ms) _ _
        (accept_message-walk_tree (some w) m) (accept_messages-walk_trees w ms)

  accept_file-walk_tree :
      (v : Option (Visitor U)) (f : File)
      → accept_file own_visit v f ≡ walk_tree own_visit v (file_tree f)
  unfolding accept_file walk_tree
  accept_file-walk_tree v f = ap (enter own_visit v (file_n f)) (
      fun_ext (λ w. fun_ext (
        then_walk w (trees enum_tree f.enums) _ _ _
          (fun_ext (accept_each-walk_trees _ enum_tree w (accept_enum-walk_tree (some w)) f.enums))
          (fun_ext (
            then_walk w (messages_trees f.msgs) _ _ _ (accept_messages-walk_trees w f.msgs) (
              fun_ext (
                then_walk w (trees service_tree f.srvs) _ _ _
                  (fun_ext (
                    accept_each-walk_trees _ service_tree w (accept_service-walk_tree (some w))
                      f.srvs))
                  (leaves-walk_trees w extension_n f.def_exts))))))))

  pub accept_package-walk_tree :
      (v : Option (Visitor U)) (p : Package)
      → accept_package own_visit v p ≡ walk_tree own_visit v (package_tree p)
  unfolding accept_package walk_tree
  accept_package-walk_tree v p = ap (enter own_visit v (package_n p)) (
      fun_ext (λ w.
        fun_ext (accept_each-walk_trees _ file_tree w (accept_file-walk_tree (some w)) p.files)))
