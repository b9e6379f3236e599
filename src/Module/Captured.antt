-- ===== src/Module/Captured.antt =====
-- What `Artifacts` gives after calls that capture artifacts.
use protoc_gen_star.Base.{
  Text, ◌≡◌, refl, sym, ◌∙◌, Option, none, some, List, [], ◌∷◌, ◌++◌, append-nil, append_assoc,
}
use protoc_gen_star.Artifact.{Artifact}
use protoc_gen_star.Module.{ModuleBase, module_push, module_pop, take_artifacts, add_artifact}

-- `AddArtifact` for each of these lists, with the prefix pushed around each call.
abbrev pub capture_all : ModuleBase → Text → List (List Artifact) → Option ModuleBase
capture_all m prefix [] = some m
capture_all m prefix (l ∷ ls) = elim (module_pop (add_artifact (module_push m prefix) l)) [
  | none ↦ none
  | some m' ↦ capture_all m' prefix ls
]

abbrev pub concat {ℓ} : {A : Type ℓ} → List (List A) → List A
concat [] = []
concat (l ∷ ls) = l ++ concat ls

-- A module that pushes a prefix, captures artifacts and pops, any number of times, never fails to
-- pop, is back in its context, and hands out all its artifacts in the order of the calls; what it
-- hands out next is empty.
pub take_artifacts-capture_all :
    (m : ModuleBase) (prefix : Text) (ls : List (List Artifact))
    → (m' : ModuleBase) × (capture_all m prefix ls ≡ some m')
      × ((take_artifacts m').0 ≡ m.artifacts ++ concat ls)
      × ((take_artifacts m').1 ≡ record { build_context = m.build_context; artifacts = [] })
take_artifacts-capture_all m prefix [] = (m, refl, sym (append-nil m.artifacts), refl)
take_artifacts-capture_all m prefix (l ∷ ls) =
    let (m', e, same, rest) = take_artifacts-capture_all (add_artifact m l) prefix ls in
    (m', e, same ∙ append_assoc m.artifacts l (concat ls), rest)
