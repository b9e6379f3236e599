-- ===== src/GoName/Tests.antt =====
-- Names of camel_test.go in lang/go.
use protoc_gen_star.Base.{text, ◌≡◌, refl}
use protoc_gen_star.GoName.{camel_case, pgg_upper_camel_case}
use protoc_gen_star.GoName.Camel.{pgg_upper_camel_case_idem}

cased :
    (pgg_upper_camel_case (text "_my_field_name_2") ≡ text "XMyFieldName_2")
    × (pgg_upper_camel_case (text "foo.bar_baz") ≡ text "Foo.barBaz")
    × (pgg_upper_camel_case (text "a__b") ≡ text "A_B")
unfolding camel_case
cased = (refl, refl, refl)

pgg_upper_camel_case_idem_example :
    pgg_upper_camel_case (pgg_upper_camel_case (text "_my_field"))
    ≡ pgg_upper_camel_case (text "_my_field")
pgg_upper_camel_case_idem_example = pgg_upper_camel_case_idem (text "_my_field")
