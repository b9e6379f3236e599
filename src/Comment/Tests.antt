-- ===== src/Comment/Tests.antt =====
-- Comments that are broken into lines.
use protoc_gen_star.Base.{Text, text, ◌≡◌, refl, some, List}
use protoc_gen_star.Name.Tests.{ascii}
use protoc_gen_star.Comment.{scan_comment, comment}
use protoc_gen_star.Comment.Width.{FitsBeforeLast}
use protoc_gen_star.Comment.Fuel.{scan_comment-FitsBeforeLast}

broken : comment ascii 8 (text "a b c d e f ") ≡ some (text "// a b\n// c d\n// e f\n")
unfolding comment
broken = refl

-- The last words are not broken, although they are wider than the comment should be.
last_words : comment ascii 8 (text "aaa bbb") ≡ some (text "// aaa bbb\n")
unfolding comment
last_words = refl

scan_comment-FitsBeforeLast_example :
    (lines : List Text) × (scan_comment ascii 5 12 (text "a b c d e f") ≡ some lines)
    × FitsBeforeLast ascii 5 lines
scan_comment-FitsBeforeLast_example = scan_comment-FitsBeforeLast ascii 5 (text "a b c d e f")
