-- ===== src/GoFormat.antt =====
-- lang/go/gofmt.go and lang/go/goimports.go: the post processors of Go files. What `go/format` and
-- `imports.Process` make of a text is an argument.
mod Tests
use protoc_gen_star.Base.{
  Text, text, ◌≡◌, refl, Bool, false, Option, none, some, List, [], ◌∷◌, map,
}
use protoc_gen_star.Text.{has_suffix}
use protoc_gen_star.Artifact.{ok, Artifact, file, template_file, custom_file, custom_template_file}
use protoc_gen_star.Persister.{PostProcessor, post_process}

-- The name that `Match` looks at; other artifacts do not match.
abbrev pub matched_name : Artifact → Option Text
matched_name (file a) = some a.name
matched_name (template_file a) = some a.name
matched_name (custom_file a) = some a.name
matched_name (custom_template_file a) = some a.name
matched_name _ = none

-- `goFmt.Match`, which is also `goImports.Match`
unfoldable pub go_match : Artifact → Bool
unfolding has_suffix
go_match a = elim (matched_name a) [ none ↦ false | some n ↦ has_suffix n (text ".go") ]

-- `GoFmt()` and `GoImports()`
abbrev pub go_processor : (Text → Option Text) → PostProcessor
go_processor format = record { matches = go_match; process = format }

-- Whatever the formatters are, an artifact that is no Go file passes the post processors of Go
-- files without a change and without an error.
pub post_process-go_match :
    (formats : List (Text → Option Text)) (a : Artifact) (b : Text)
    → go_match a ≡ false
    → post_process (map go_processor formats) a b ≡ ok b
unfolding post_process
post_process-go_match [] a b h = refl
post_process-go_match (format ∷ formats) a b h =
    rw (h, post_process) (post_process-go_match formats a b h)
