-- ===== src/Ast/SourceInfo/Tests.antt =====
-- Paths into a small file, and where its comments end.
use protoc_gen_star.Base.{nat_eq, text_eq, text, All, insert, ℕ, ◌≡◌, refl, List, [], ◌∷◌}
use protoc_gen_star.Ast.Samples.{a_file}
use protoc_gen_star.Ast.Descriptor.{Location}
use protoc_gen_star.Ast.Graph.{Graph, done}
use protoc_gen_star.Ast.SourceInfo.{
  no_child, child, bad_index, file_child, hydrate_source_code_info,
}
use protoc_gen_star.Ast.SourceInfo.Places.{file_places}
use protoc_gen_star.Ast.SourceInfo.Paths.{file_child-file_places}

-- A field of a map entry, a path of odd length, and an index out of range.
children :
    (file_child a_file (4 ∷ 0 ∷ 3 ∷ 0 ∷ 2 ∷ 0 ∷ []) ≡ child 4)
    × (file_child a_file (4 ∷ 0 ∷ 3 ∷ []) ≡ no_child)
    × (file_child a_file (4 ∷ 1 ∷ []) ≡ bad_index)
unfolding file_child
children = (refl, refl, refl)

abbrev comment_at : List ℕ → Location
comment_at path = record { path = path; leading = text "c"; trailing = []; leading_detached = [] }

abbrev empty_graph : Graph
empty_graph = record {
  next = 0;
  targets = [];
  packages = [];
  entities = [];
  extensions = [];
  messages = [];
  types = [];
  dependents = [];
  extendees = [];
  infos = [];
  package_infos = [];
}

-- The comments of the syntax and the package, and of a nested message.
placed :
    hydrate_source_code_info a_file
      (comment_at (12 ∷ []) ∷ comment_at (2 ∷ []) ∷ comment_at (4 ∷ 0 ∷ 3 ∷ 1 ∷ []) ∷ [])
      empty_graph
    ≡ done tt (record empty_graph {
      infos = (0, comment_at (12 ∷ [])) ∷ (5, comment_at (4 ∷ 0 ∷ 3 ∷ 1 ∷ [])) ∷ [];
      package_infos = (0, comment_at (2 ∷ [])) ∷ [];
    })
unfolding hydrate_source_code_info insert
placed = refl

file_child-file_places_example : All (λ p. file_child a_file p.0 ≡ child p.1) (file_places a_file)
file_child-file_places_example = file_child-file_places a_file
