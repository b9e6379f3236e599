-- ===== src/Ast/Visit.antt =====
-- node.go, and the `accept` method of every entity and of packages: the walk of a visitor through
-- the entities. What the program's own visitors do is an argument: on a node and the state of the
-- world such a visitor answers with a visitor or nil, an error or nil, and the new state.
pub mod Tree
pub mod Walks
pub mod Order
mod Tests
use protoc_gen_star.Base.{if◌then◌else◌, Option, none, some, List, [], ◌∷◌}
use protoc_gen_star.Ast.Entity.{
  EnumValue, Enum, Field, Extension, Oneof, MessageHead, Message, message, Messages, no_messages,
  msg_cons, Method, Service, File, is_map_entry,
}
use protoc_gen_star.Ast.Graph.{Package}

-- The argument of a `Visit` method, which tells what method it is.
pub data Node : Type 0 where
  package_n : Package → Node
  file_n : File → Node
  message_n : Message → Node
  enum_n : Enum → Node
  enum_value_n : EnumValue → Node
  field_n : Field → Node
  extension_n : Extension → Node
  oneof_n : Oneof → Node
  service_n : Service → Node
  method_n : Method → Node

-- `NilVisitor()`, `PassThroughVisitor(v)`, the same of a nil `v`, and the program's own visitors.
pub data Visitor (U : Type 0) : Type 0 where
  nil_visitor : Visitor U
  pass_visitor : Visitor U → Visitor U
  pass_nil : Visitor U
  own : U → Visitor U

-- What a `Visit` method returns, and the state that it leaves.
pub record Answer (U E S : Type 0) : Type 0 where
  pub visitor : Option (Visitor U)
  pub failure : Option E
  pub state : S

-- What `accept` returns: its error, and the state.
abbrev pub Walked : Type 0 → Type 0 → Type 0
Walked E S = Option E × S

-- `if err = …; err != nil { return }` and what follows.
abbrev pub next_unless : {E S : Type 0} → Walked E S → (S → Walked E S) → Walked E S
next_unless (some e, s) k = (some e, s)
next_unless (none, s) k = k s

module _ {U E S : Type 0} (own_visit : U → Node → S → Answer U E S) where
  -- The `Visit` methods of all visitors.
  unfoldable pub visit : Visitor U → Node → S → Answer U E S
  visit nil_visitor n s = record { visitor = none; failure = none; state = s }
  visit (pass_visitor v) n s = record { visitor = some v; failure = none; state = s }
  visit pass_nil n s = record { visitor = none; failure = none; state = s }
  visit (own u) n s = own_visit u n s

  -- `_, err = v.VisitX(x)`, the end of the `accept` methods of nodes without children.
  unfoldable pub accept_leaf : Option (Visitor U) → Node → S → Walked E S
  unfolding visit
  accept_leaf none n s = (none, s)
  accept_leaf (some v) n s = let a = visit v n s in (a.failure, a.state)

  -- `err != nil || v == nil`, or else the loops on the children.
  abbrev pub descend : Option E → Option (Visitor U) → S → (Visitor U → S → Walked E S) → Walked E S
  descend (some e) v s children = (some e, s)
  descend none none s children = (none, s)
  descend none (some v) s children = children v s

  -- `if v, err = v.VisitX(x); err != nil || v == nil { return }` and the loops behind it.
  unfoldable pub enter : Option (Visitor U) → Node → (Visitor U → S → Walked E S) → S → Walked E S
  unfolding visit
  enter none n children s = (none, s)
  enter (some v) n children s = let a = visit v n s in descend a.failure a.visitor a.state children

  -- `for _, c := range children { if err = c.accept(v); err != nil { return } }`
  unfoldable pub accept_each {ℓ} : {A : Type ℓ} → (A → S → Walked E S) → List A → S → Walked E S
  accept_each accept [] s = (none, s)
  accept_each accept (x ∷ xs) s = next_unless (accept x s) (accept_each accept xs)

  -- `enum.accept`
  unfoldable pub accept_enum : Option (Visitor U) → Enum → S → Walked E S
  unfolding enter accept_each accept_leaf
  accept_enum v e =
      enter v (enum_n e) (λ w. accept_each (λ ev. accept_leaf (some w) (enum_value_n ev)) e.vals)

  -- `service.accept`
  unfoldable pub accept_service : Option (Visitor U) → Service → S → Walked E S
  unfolding enter accept_each accept_leaf
  accept_service v sv =
      enter v (service_n sv) (λ w. accept_each (λ m. accept_leaf (some w) (method_n m)) sv.methods)

  -- The loops of `msg.accept` behind the one on the nested messages.
  unfoldable pub accept_members : MessageHead → Visitor U → S → Walked E S
  unfolding accept_each accept_leaf
  accept_members h w s =
      next_unless (accept_each (λ f. accept_leaf (some w) (field_n f)) h.fields s) (λ s₁.
        next_unless (accept_each (λ o. accept_leaf (some w) (oneof_n o)) h.oneofs s₁)
          (accept_each (λ x. accept_leaf (some w) (extension_n x)) h.def_exts))

  unfoldable mutual
    unfolding enter accept_each accept_enum accept_members

    -- `msg.accept`
    pub accept_message : Option (Visitor U) → Message → S → Walked E S
    accept_message v (message h ms) = enter v (message_n (message h ms)) (λ w s.
        next_unless (accept_each (accept_enum (some w)) h.enums s)
          (λ s₁. next_unless (accept_nested w ms s₁) (accept_members h w)))

    -- The loop on `m.msgs`, which hold no map entry.
    pub accept_nested : Visitor U → Messages → S → Walked E S
    accept_nested w no_messages s = (none, s)
    accept_nested w (msg_cons m ms) s =
        let this = accept_message (some w) m s in
        let rest = accept_nested w ms in if is_map_entry m then rest s else next_unless this rest

  -- The loop on `f.msgs`.
  unfoldable pub accept_messages : Visitor U → Messages → S → Walked E S
  unfolding accept_message
  accept_messages w no_messages s = (none, s)
  accept_messages w (msg_cons m ms) s =
      next_unless (accept_message (some w) m s) (accept_messages w ms)

  -- `file.accept`
  unfoldable pub accept_file : Option (Visitor U) → File → S → Walked E S
  unfolding enter accept_each accept_enum accept_messages accept_service accept_leaf
  accept_file v f = enter v (file_n f) (λ w s.
      next_unless (accept_each (accept_enum (some w)) f.enums s) (λ s₁.
        next_unless (accept_messages w f.msgs s₁) (λ s₂.
          next_unless (accept_each (accept_service (some w)) f.srvs s₂)
            (accept_each (λ x. accept_leaf (some w) (extension_n x)) f.def_exts))))

  -- `pkg.accept`
  unfoldable pub accept_package : Option (Visitor U) → Package → S → Walked E S
  unfolding enter accept_each accept_file
  accept_package v p = enter v (package_n p) (λ w. accept_each (accept_file (some w)) p.files)
