-- ===== src/Ast/Visit/Tests.antt =====
-- Walks that log the names of the messages and fields that they come to.
use protoc_gen_star.Base.{
  if◌then◌else◌, ◌==◌, nat_eq, Text, text_eq, ℕ, ◌≡◌, refl, none, some, List, [], ◌∷◌, ◌++◌,
}
use protoc_gen_star.Ast.Entity.{head_of}
use protoc_gen_star.Ast.Visit.{
  Node, package_n, message_n, field_n, nil_visitor, pass_visitor, own, Answer, visit,
  accept_package,
}
use protoc_gen_star.Ast.Visit.Tree.{package_tree}
use protoc_gen_star.Ast.Visit.Order.{preorder, visit_each, GoesOn, accept_package-preorder}
use protoc_gen_star.Ast.Samples.{a_package}

-- A visitor that logs, fails at the field of this number, and goes on.
abbrev logger : ℕ → Node → List ℕ → Answer ℕ Text (List ℕ)
logger bad (field_n f) log = record {
  visitor = some (own bad);
  failure = if f.id == bad then some f.fqn else none;
  state = log ++ f.id ∷ [];
}
logger bad (message_n m) log = record {
  visitor = some (own bad);
  failure = none;
  state = log ++ (head_of m).id ∷ [];
}
logger bad n log = record { visitor = some (own bad); failure = none; state = log }

logger-GoesOn : (bad : ℕ) → GoesOn logger (own bad)
unfolding visit
logger-GoesOn bad (package_n p) s = refl
logger-GoesOn bad (field_n f) s = refl
logger-GoesOn bad (message_n m) s = refl
logger-GoesOn bad n s = refl

logged :
    (accept_package logger (some (own 9)) a_package [] ≡ (none, 1 ∷ 5 ∷ 6 ∷ 2 ∷ []))
    × (accept_package logger (some (own 6)) a_package [] ≡ (some [], 1 ∷ 5 ∷ 6 ∷ []))
    × (accept_package logger (some (pass_visitor nil_visitor)) a_package [] ≡ (none, []))
unfolding accept_package
logged = (refl, refl, refl)

accept_package-preorder_example :
    accept_package logger (some (own 6)) a_package []
    ≡ visit_each logger (own 6) (preorder (package_tree a_package)) []
accept_package-preorder_example =
    accept_package-preorder logger (own 6) a_package [] (logger-GoesOn 6)
