-- ===== src/Ast/Imports.antt =====
-- The imports of a file: what the loop on its dependencies records, and when it fails.
use protoc_gen_star.Base.{
  if◌then◌else◌, nat_eq, Text, text_eq, lookup, ℕ, ◌≡◌, sym, ap, ◌∙◌, none, some, List, [], ◌∷◌,
  ◌++◌, append-nil, append_assoc,
}
use protoc_gen_star.Ast.Entity.{file_k, Ref}
use protoc_gen_star.Ast.Graph.{
  Graph, not_seen, wrong_kind, done, failed, continue_with, ◌>>=◌, return, fail, need, same_kind,
  seen_as,
}
use protoc_gen_star.Ast.Process.{add_dependent, hydrate_dependencies}

-- The graph finds each of these names as the file with the number beside it.
abbrev pub AreFiles : Graph → List Text → List ℕ → Type 0
AreFiles g [] [] = Unit
AreFiles g (dep ∷ deps) (i ∷ ids) =
    (lookup dep g.entities ≡ some (record { kind = file_k; id = i })) × AreFiles g deps ids
AreFiles g _ _ = ⊥

-- The file imports each of these, as their lists of dependents have it.
abbrev pub edges : ℕ → List ℕ → List (ℕ × ℕ)
edges f [] = []
edges f (i ∷ ids) = (i, f) ∷ edges f ids

abbrev with_edges : Graph → List (ℕ × ℕ) → Graph
with_edges g es = record g { dependents = g.dependents ++ es }

seen_as-file :
    (g : Graph) (dep : Text) (i : ℕ)
    → lookup dep g.entities ≡ some (record { kind = file_k; id = i })
    → seen_as file_k dep g ≡ done i g
seen_as-file g dep i h =
    ap
      (λ o.
        continue_with
          (λ (r : Ref). if same_kind r.kind file_k then return r.id else fail wrong_kind)
          (need (not_seen dep) o g))
      h

AreFiles-with_edges :
    (g : Graph) (es : List (ℕ × ℕ)) (deps : List Text) (ids : List ℕ)
    → AreFiles g deps ids
    → AreFiles (with_edges g es) deps ids
AreFiles-with_edges g es [] [] h = tt
AreFiles-with_edges g es [] (i ∷ ids) h = absurd h
AreFiles-with_edges g es (dep ∷ deps) [] h = absurd h
AreFiles-with_edges g es (dep ∷ deps) (i ∷ ids) (h, hs) = (h, AreFiles-with_edges g es deps ids hs)

-- If the graph finds every dependency of a file as a file, the loop on the dependencies ends
-- without failure, gives the imported files in order, adds the importing file to the dependents
-- of each of them in that order, and changes nothing else.
pub hydrate_dependencies-AreFiles :
    (f : ℕ) (deps : List Text) (ids : List ℕ) (g : Graph)
    → AreFiles g deps ids
    → hydrate_dependencies f deps g
      ≡ done ids (record g { dependents = g.dependents ++ edges f ids })
unfolding hydrate_dependencies
hydrate_dependencies-AreFiles f [] [] g h =
    ap (λ ds. done [] (record g { dependents = ds })) (sym (append-nil g.dependents))
hydrate_dependencies-AreFiles f [] (i ∷ ids) g h = absurd h
hydrate_dependencies-AreFiles f (dep ∷ deps) [] g h = absurd h
hydrate_dependencies-AreFiles f (dep ∷ deps) (i ∷ ids) g (h, hs) =
    ap
      (continue_with
        (λ d. add_dependent d f >>= (λ _. hydrate_dependencies f deps >>= (λ ds. return (d ∷ ds)))))
      (seen_as-file g dep i h)
    ∙ ap (continue_with (λ ds. return (i ∷ ds))) (
        hydrate_dependencies-AreFiles f deps ids (with_edges g ((i, f) ∷ []))
          (AreFiles-with_edges g ((i, f) ∷ []) deps ids hs))
    ∙ ap (λ ds. done (i ∷ ids) (record g { dependents = ds }))
        (append_assoc g.dependents ((i, f) ∷ []) (edges f ids))

-- If the graph finds the dependencies in front of one as files, and does not find that one, the
-- loop fails with its name.
pub hydrate_dependencies-unseen :
    (f : ℕ) (deps : List Text) (ids : List ℕ) (dep : Text) (rest : List Text) (g : Graph)
    → AreFiles g deps ids
    → lookup dep g.entities ≡ none
    → hydrate_dependencies f (deps ++ dep ∷ rest) g ≡ failed (not_seen dep)
unfolding hydrate_dependencies
hydrate_dependencies-unseen f [] ids dep rest g h missing =
    ap
      (λ o.
        continue_with
          (λ d.
            add_dependent d f >>= (λ _. hydrate_dependencies f rest >>= (λ ds. return (d ∷ ds))))
          (continue_with
            (λ (r : Ref). if same_kind r.kind file_k then return r.id else fail wrong_kind)
            (need (not_seen dep) o g)))
      missing
hydrate_dependencies-unseen f (d ∷ deps) [] dep rest g h missing = absurd h
hydrate_dependencies-unseen f (d ∷ deps) (i ∷ ids) dep rest g (h, hs) missing =
    ap
      (continue_with (λ d.
        add_dependent d f
        >>= (λ _. hydrate_dependencies f (deps ++ dep ∷ rest) >>= (λ ds. return (d ∷ ds)))))
      (seen_as-file g d i h)
    ∙ ap (continue_with (λ ds. return (i ∷ ds))) (
        hydrate_dependencies-unseen f deps ids dep rest (with_edges g ((i, f) ∷ []))
          (AreFiles-with_edges g ((i, f) ∷ []) deps ids hs) missing)
