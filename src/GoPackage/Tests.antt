-- ===== src/GoPackage/Tests.antt =====
-- The packages of package_test.go in small.
use protoc_gen_star.GoPackage.Identifier.{IsWord, Assumed, package_name-IsIdentifier}
use protoc_gen_star.Name.Tests.{ascii}
use protoc_gen_star.Base.{
  ◌==◌, nat_eq, Text, text_eq, text, All, lookup, String, ◌≡◌, refl, inl, Bool, false, [], ◌∷◌,
  arith,
}
use protoc_gen_star.Ast.Entity.{File}
use protoc_gen_star.Ast.Graph.{Package}
use protoc_gen_star.Ast.Samples.{a_file}
use protoc_gen_star.GoPackage.{
  resolve_go_package, split_option, starts_digit, package_name, go_output_path,
}
use protoc_gen_star.GoPackage.Options.{split_option_forms}

abbrev file_with : String → String → File
file_with name option = record a_file {
  desc = record a_file.desc { name = text name; go_package = text option };
}

abbrev package_of : File → Package
package_of f = record { proto_name = text "my.package"; files = f ∷ [] }

abbrev starts_with_type : Text → Bool
starts_with_type s = s == text "type"

path_and_name :
    (split_option [] (text "foo/bar;baz") ≡ (text "foo/bar", text "baz"))
    × (split_option [] (text "foo/bar/baz") ≡ (text "foo/bar/baz", text "baz"))
    × (split_option [] (text "baz") ≡ ([], text "baz"))
path_and_name =
    split_option_forms [] (text "foo/bar") (text "baz") (omega arith) (omega arith) (omega arith)

assumed : Assumed ascii starts_with_type
assumed = record { keyword_start = λ s. refl; underscore = refl }

-- A keyword, a name behind a slash with other characters, and a proto package.
named :
    (package_name ascii [] starts_with_type
        (package_of (file_with "a.proto" "foo/type"))
        (file_with "a.proto" "foo/type")
      ≡ text "_type")
    × (package_name ascii [] starts_with_type
          (package_of (file_with "a.proto" "foo/1-x"))
          (file_with "a.proto" "foo/1-x")
        ≡ text "_1_x")
    × (package_name ascii [] starts_with_type
          (package_of (file_with "a.proto" ""))
          (file_with "a.proto" "")
        ≡ text "my_package")
unfolding package_name lookup
named = (refl, refl, refl)

-- The output of a file in its import path, and relative to the source.
output_paths :
    (go_output_path ascii []
        (package_of (file_with "d/a.proto" "foo/bar"))
        (file_with "d/a.proto" "foo/bar")
      ≡ text "foo/bar/a.pb.go")
    × (go_output_path ascii
          ((text "paths", text "source_relative") ∷ [])
          (package_of (file_with "d/a.proto" "foo/bar"))
          (file_with "d/a.proto" "foo/bar")
        ≡ text "d/a.pb.go")
unfolding go_output_path lookup
output_paths = (refl, refl)

package_name-IsIdentifier_example :
    All IsWord (
      package_name ascii [] starts_with_type
        (package_of (file_with "a.proto" "foo/1-x"))
        (file_with "a.proto" "foo/1-x"))
    × (starts_digit ascii (
          package_name ascii [] starts_with_type
            (package_of (file_with "a.proto" "foo/1-x"))
            (file_with "a.proto" "foo/1-x"))
        ≡ false)
    × (starts_with_type (
          package_name ascii [] starts_with_type
            (package_of (file_with "a.proto" "foo/1-x"))
            (file_with "a.proto" "foo/1-x"))
        ≡ false)
unfolding resolve_go_package lookup
package_name-IsIdentifier_example =
    package_name-IsIdentifier ascii starts_with_type assumed []
      (package_of (file_with "a.proto" "foo/1-x")) (file_with "a.proto" "foo/1-x") refl (inl refl)
      (inl refl)
