-- ===== src/GoNames/Tests.antt =====
-- Names of name_test.go and types of type_name_test.go in small.
use protoc_gen_star.Base.{
  leb, Text, text, ℕ, ◌≡◌, refl, inl, Bool, true, false, ◌&&◌, some, [], ◌∷◌,
}
use protoc_gen_star.Proto.{proto2, string_t}
use protoc_gen_star.Name.Tests.{ascii}
use protoc_gen_star.GoName.{camel_case}
use protoc_gen_star.TypeName.{is_pointer}
use protoc_gen_star.Ast.Graph.{scalar_t}
use protoc_gen_star.Ast.Samples.{a_field, a_file, a_package}
use protoc_gen_star.Ast.Presence.{has_presence}
use protoc_gen_star.GoNames.{
  go_field_name, go_type_name, go_value_name, child_names, oneof_option, Referred, go_type,
}
use protoc_gen_star.GoNames.Clashes.{Avoids, oneof_option-Avoids}
use protoc_gen_star.GoNames.Pointers.{go_type-is_pointer}

abbrev ascii_lower : ℕ → Bool
ascii_lower c = leb b'a' c && leb c b'z'

nested_names :
    (go_type_name ascii ascii_lower (text "Inner") (text "Outer" ∷ []) ≡ text "Outer_Inner")
    × (go_type_name ascii ascii_lower (text "inner") (text "Outer" ∷ []) ≡ text "OuterInner")
    × (go_value_name ascii ascii_lower (text "UP") (text "E") (text "Outer" ∷ []) ≡ text "Outer_UP")
    × (go_field_name (text "reset") ≡ text "Reset_")
unfolding go_type_name go_value_name camel_case
nested_names = (refl, refl, refl, refl)

-- A field beside a nested message of the name that its wrapper would have.
clashing : oneof_option ascii ascii_lower (text "M") [] (text "f") (text "F" ∷ []) [] ≡ text "M_F_"
unfolding oneof_option camel_case
clashing = refl

oneof_option-Avoids_example :
    Avoids
      (oneof_option ascii ascii_lower (text "M") [] (text "f") (text "F" ∷ []) [])
      (child_names ascii ascii_lower (text "M") [] (text "F" ∷ []))
    × Avoids
        (oneof_option ascii ascii_lower (text "M") [] (text "f") (text "F" ∷ []) [])
        (child_names ascii ascii_lower (text "M") [] [])
unfolding go_type_name camel_case
oneof_option-Avoids_example =
    oneof_option-Avoids ascii ascii_lower (text "M") [] (text "f") (text "F" ∷ []) []
      ((λ e. cc e), tt) tt

abbrev refers_to_sample : ℕ → Referred
refers_to_sample n = record { name = text "E"; around = []; pkg = a_package; file = a_file }

abbrev no_keyword : Text → Bool
no_keyword s = false

a_scalar_type :
    go_type ascii ascii_lower no_keyword [] refers_to_sample a_package a_file
      (some proto2)
      (scalar_t string_t)
      (a_field 1)
    ≡ some (text "*string")
unfolding go_type
a_scalar_type = refl

a_field-has_presence : has_presence (some proto2) (scalar_t string_t) (a_field 1) ≡ some true
unfolding has_presence
a_field-has_presence = refl

go_type-is_pointer_example : is_pointer (text "*string") ≡ true
go_type-is_pointer_example =
    go_type-is_pointer ascii ascii_lower no_keyword [] refers_to_sample a_package a_file
      (some proto2) (scalar_t string_t) (a_field 1) (text "*string") a_scalar_type
      (inl a_field-has_presence)
