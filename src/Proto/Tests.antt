-- ===== src/Proto/Tests.antt =====
-- Well-known types of wkt_test.go.
use protoc_gen_star.Base.{text, ◌≡◌, true}
use protoc_gen_star.Proto.WellKnown.{lookup_wkt, valid_wkt, lookup_wkt-valid_wkt}

valid_struct :
    (valid_wkt (lookup_wkt (text "Struct")) ≡ valid_wkt (text "Struct"))
    × (valid_wkt (text "Struct") ≡ true → lookup_wkt (text "Struct") ≡ text "Struct")
valid_struct = lookup_wkt-valid_wkt (text "Struct")
