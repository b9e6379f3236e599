-- ===== src/GoPackage.antt =====
-- lang/go/package.go: the Go package of a file, its import path and the path of its output. The
-- Unicode tables and `token.Lookup(…).IsKeyword` are arguments. An entity is its package and file,
-- which is all that is asked of it.
pub mod Options
pub mod Identifier
mod Tests
use protoc_gen_star.Base.{
  leb, if◌then◌else◌, ◌==◌, nat_eq, Text, text_eq, text, ℕ, suc, Bool, false, not, ◌&&◌, ◌||◌,
  Option, none, some, List, [], ◌∷◌, ◌++◌,
}
use protoc_gen_star.Text.{take, drop, last_index}
use protoc_gen_star.FilePath.{slash, dir, base, base_name, push, set_ext}
use protoc_gen_star.Name.{Unicode, snake_case}
use protoc_gen_star.Parameters.{Parameters, str, import_path, paths, mapped_import}
use protoc_gen_star.Ast.Entity.{File}
use protoc_gen_star.Ast.Graph.{Package}

-- The characters that `nonAlphaNumPattern` does not match.
abbrev pub is_alphanum : ℕ → Bool
is_alphanum c =
    (leb b'a' c && leb c b'z') || ((leb b'A' c && leb c b'Z') || (leb b'0' c && leb c b'9'))

-- `nonAlphaNumPattern.ReplaceAllString(s, "_")`
abbrev pub replace_all : Text → Text
replace_all [] = []
replace_all (c ∷ s) = (if is_alphanum c then c else b'_') ∷ replace_all s

abbrev pub semicolon : ℕ
semicolon = b';'

-- The loop of `resolveGoPackageOption` on the files of the package.
unfoldable pub first_go_package : List File → Text
first_go_package [] = []
first_go_package (f ∷ fs) =
    let rest = first_go_package fs in if f.desc.go_package == [] then rest else f.desc.go_package

-- `resolveGoPackageOption`
unfoldable pub resolve_go_package : Package → File → Text
unfolding first_go_package
resolve_go_package pkg f =
    if f.desc.go_package == [] then first_go_package pkg.files else f.desc.go_package

-- The part behind the last slash, or all.
unfoldable pub after_last_slash : Text → Text
unfolding last_index
after_last_slash s = elim (last_index slash s) [ none ↦ s | some i ↦ drop (suc i) s ]

-- The path and the name that a `go_package` option gives; the path is this directory where the
-- option is a name alone.
unfoldable pub split_option : Text → Text → Text × Text
unfolding last_index
split_option directory s = elim (last_index semicolon s) [
  | some i ↦ (take i s, replace_all (drop (suc i) s))
  | none ↦ elim (last_index slash s) [
    | some i ↦ (s, replace_all (drop (suc i) s))
    | none ↦ (directory, replace_all s)
  ]
]

abbrev pub import_prefix_key : Text
import_prefix_key = text "import_prefix"

abbrev pub source_relative : Text
source_relative = text "source_relative"

-- `if token.Lookup(pkg).IsKeyword() { pkg = "_" + pkg }`
abbrev pub guard_keyword : (Text → Bool) → Text → Text
guard_keyword is_keyword s = if is_keyword s then b'_' ∷ s else s

abbrev pub starts_digit : Unicode → Text → Bool
starts_digit u [] = false
starts_digit u (c ∷ s) = u.is_digit c

-- `if r, _ := utf8.DecodeRuneInString(pkg); unicode.IsDigit(r) { pkg = "_" + pkg }`
abbrev pub guard_digit : Unicode → Text → Text
guard_digit u s = if starts_digit u s then b'_' ∷ s else s

module _ (u : Unicode) (p : Parameters) where
  -- The name where there is no option.
  unfoldable pub name_without_option : Package → File → Text
  unfolding snake_case base_name
  name_without_option pkg f =
      if pkg.proto_name == []
      then replace_all (base_name f.desc.name)
      else snake_case u pkg.proto_name

  -- `optionPackage` behind the test of the mapping.
  unfoldable pub unmapped_package : Package → File → Text × Text
  unfolding resolve_go_package split_option name_without_option dir
  unmapped_package pkg f =
      if resolve_go_package pkg f == []
      then (dir f.desc.name, name_without_option pkg f)
      else split_option (dir f.desc.name) (resolve_go_package pkg f)

  -- `if override, ok := c.p["M"+path]; ok && !e.BuildTarget()`
  abbrev pub override_or : Option Text → Bool → Text × Text → Text × Text
  override_or (some path) false rest = (path, after_last_slash path)
  override_or _ _ rest = rest

  -- `optionPackage`
  unfoldable pub option_package : Package → File → Text × Text
  unfolding unmapped_package after_last_slash
  option_package pkg f =
      override_or (mapped_import p f.desc.name) f.build_target (unmapped_package pkg f)

  -- `if ip := c.p.Str("import_path"); ip != "" && …GetGoPackage() == "" { pkg = ip }`
  unfoldable pub chosen_package : Package → File → Text
  unfolding option_package
  chosen_package pkg f =
      if not (import_path p == []) && f.desc.go_package == []
      then import_path p
      else (option_package pkg f).1

  -- `PackageName` of an entity
  unfoldable pub package_name : (Text → Bool) → Package → File → Text
  unfolding chosen_package
  package_name is_keyword pkg f = guard_digit u (guard_keyword is_keyword (chosen_package pkg f))

  abbrev pub first_file_name : (Text → Bool) → Package → List File → Option Text
  first_file_name is_keyword pkg [] = none
  first_file_name is_keyword pkg (f ∷ fs) = some (package_name is_keyword pkg f)

  -- `PackageName` of a package: that of its first file, without which it panics.
  abbrev pub package_package_name : (Text → Bool) → Package → Option Text
  package_package_name is_keyword pkg = first_file_name is_keyword pkg pkg.files

  -- `context.ImportPath`
  unfoldable pub go_import_path : Package → File → Text
  unfolding option_package
  go_import_path pkg f = str p import_prefix_key ++ (option_package pkg f).0

  -- `context.OutputPath`
  unfoldable pub go_output_path : Package → File → Text
  unfolding option_package set_ext push base
  go_output_path pkg f =
      let out = set_ext f.desc.name (text ".pb.go") in
      if paths p == source_relative then out else push (option_package pkg f).0 (base out)
