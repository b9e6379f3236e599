-- ===== src/TypeName/Tests.antt =====
-- Type names of type_name_test.go.
use protoc_gen_star.Base.{text, ◌≡◌, refl, true, [], arith}
use protoc_gen_star.Text.{has_prefix}
use protoc_gen_star.TypeName.{element, key, is_pointer, pointer, value, slice_of, map_of}
use protoc_gen_star.TypeName.Laws.{
  pointer_idem, value-pointer, key-element-map_of, key-element-slice_of,
}

pointer_twice :
    (is_pointer (pointer (text "Foo")) ≡ true)
    × (pointer (pointer (text "Foo")) ≡ pointer (text "Foo"))
pointer_twice = pointer_idem (text "Foo")

value_of_pointer : value (pointer (text "Foo")) ≡ text "Foo"
value_of_pointer = value-pointer (text "Foo") (unfold is_pointer has_prefix in refl)

map_parts :
    (key (map_of (text "k") (text "[]byte")) ≡ text "k")
    × (element (map_of (text "k") (text "[]byte")) ≡ text "[]byte")
map_parts =
    key-element-map_of b'k' [] (text "[]byte") ((λ e. omega (arith, e)), tt)
      ((λ e. omega (arith, e)), tt)

slice_parts :
    (key (slice_of (text "Foo")) ≡ text "int") × (element (slice_of (text "Foo")) ≡ text "Foo")
slice_parts = key-element-slice_of (text "Foo")
