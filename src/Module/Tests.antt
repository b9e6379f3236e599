-- ===== src/Module/Tests.antt =====
-- A module that captures two artifacts.
use protoc_gen_star.Base.{text, ◌≡◌, some, List, [], ◌∷◌, ◌++◌}
use protoc_gen_star.Artifact.{Artifact, error}
use protoc_gen_star.Context.{context}
use protoc_gen_star.Module.{ModuleBase, take_artifacts}
use protoc_gen_star.Module.Captured.{capture_all, concat, take_artifacts-capture_all}

abbrev fresh : ModuleBase
fresh = record { build_context = context [] (text "out"); artifacts = [] }

abbrev problems : List (List Artifact)
problems =
    (error (record { message = text "a" }) ∷ []) ∷ (error (record { message = text "b" }) ∷ []) ∷ []

take_artifacts-capture_all_example :
    (m' : ModuleBase) × (capture_all fresh (text "p") problems ≡ some m')
    × ((take_artifacts m').0 ≡ fresh.artifacts ++ concat problems)
    × ((take_artifacts m').1 ≡ record { build_context = fresh.build_context; artifacts = [] })
take_artifacts-capture_all_example = take_artifacts-capture_all fresh (text "p") problems
