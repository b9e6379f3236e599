-- ===== src/GoFormat/Tests.antt =====
-- A Go file is formatted; a text file, and what is appended to a Go file, are not.
use protoc_gen_star.Base.{text, ◌≡◌, refl, false, some, [], ◌∷◌, ◌++◌}
use protoc_gen_star.Artifact.{ok, Artifact, file, append}
use protoc_gen_star.Persister.{post_process}
use protoc_gen_star.GoFormat.{go_match, go_processor}

abbrev a_go_file : Artifact
a_go_file = file (record { name = text "a.go"; contents = text "x"; overwrite = false })

abbrev an_append : Artifact
an_append = append (record { file_name = text "a.go"; contents = text "x" })

formatted :
    (post_process (go_processor (λ b. some (b ++ b)) ∷ []) a_go_file (text "x") ≡ ok (text "xx"))
    × (go_match an_append ≡ false)
unfolding post_process go_match
formatted = (refl, refl)
