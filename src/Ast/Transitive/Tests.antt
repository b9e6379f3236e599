-- ===== src/Ast/Transitive/Tests.antt =====
-- Three files that import each other in a line, and a file with an import that it does not use.
use protoc_gen_star.Ast.Transitive.Cached.{FileCaches, file_dependents, AllFound}
use protoc_gen_star.Base.{
  nat_eq, Text, text_eq, lookup, insert, ℕ, ◌-◌, ◌≡◌, refl, some, List, [], ◌∷◌, arith,
}
use protoc_gen_star.Proto.{bool_t}
use protoc_gen_star.Ast.Graph.{embed_e, FieldType, scalar_t, enum_ft, rep_t}
use protoc_gen_star.Ast.Dependents.{direct}
use protoc_gen_star.Ast.Transitive.{Files, transitive_imports, unused_imports}
use protoc_gen_star.Ast.Transitive.Exact.{
  AllImports, transitive_imports-AllImports, file_dependents-AllImports,
}

-- The file 2 imports 1 and 0, and 1 imports 0.
abbrev file_edges : List (ℕ × ℕ)
file_edges = (2, 1) ∷ (2, 0) ∷ (1, 0) ∷ []

abbrev file_name : ℕ → Text
file_name n = n ∷ []

transitive_imports-AllImports_example :
    (m : Files) × (transitive_imports file_name (direct file_edges) 3 2 ≡ some m)
    × AllImports file_name file_edges 2 m
transitive_imports-AllImports_example =
    transitive_imports-AllImports file_name file_edges 3 2 (omega arith) (omega arith)

-- The same turned round: 1 and 2 import 0, and 2 imports 1.
abbrev importers : List (ℕ × ℕ)
importers = (1, 2) ∷ (0, 2) ∷ (0, 1) ∷ []

file_dependents-AllImports_example :
    (m : Files) × (cs' : FileCaches) × (file_dependents file_name (direct importers) 3 0 []
      ≡ some (m, cs'))
    × AllImports file_name importers 0 m
    × AllFound file_name (direct importers) cs'
file_dependents-AllImports_example =
    file_dependents-AllImports file_name importers (λ i. 2 - i) 3 0 [] (omega arith) (omega arith)
      tt

-- The file 2 is found once and kept, then read from its cache.
dependents_cached :
    file_dependents file_name (direct importers) 3 0 []
    ≡ some (
      (file_name 2, 2) ∷ (file_name 1, 1) ∷ [],
      (2, []) ∷ (1, (file_name 2, 2) ∷ []) ∷ (0, (file_name 2, 2) ∷ (file_name 1, 1) ∷ []) ∷ [],
    )
unfolding file_dependents lookup insert
dependents_cached = refl

-- The message 10 is in the file 1 and the enum 11 in the file 2; the file 3 imports 0, 1 and 2,
-- the last one publicly.
unused :
    unused_imports
      (λ e. e - 9)
      file_name
      3
      (2 ∷ [])
      (0 ∷ 1 ∷ 2 ∷ [])
      ((scalar_t bool_t ∷ rep_t (embed_e 10) ∷ []) ∷ (enum_ft 11 ∷ []) ∷ [])
      []
    ≡ (file_name 0, 0) ∷ []
unfolding unused_imports insert
unused = refl

abbrev field_types : List (List FieldType)
field_types = (scalar_t bool_t ∷ rep_t (embed_e 10) ∷ []) ∷ (enum_ft 11 ∷ []) ∷ []
