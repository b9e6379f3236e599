-- ===== src/Parameters/Parse.antt =====
-- What `ParseParameters` and `Clone` make of their input.
use protoc_gen_star.Base.{
  if◌then◌else◌, ◌==◌, nat_eq, Text, text_eq, lookup, insert, lookup-insert, ◌≡◌, refl, ap, ◌∙◌,
  Option, none, some, List, [], ◌∷◌, map,
}
use protoc_gen_star.Text.{split}
use protoc_gen_star.Parameters.{Parameters, comma, parse_part, parse_parts, parse_parameters}

-- The value that the last part with this key gives, or else `v`.
abbrev pub last_value : Text → List (Text × Text) → Option Text → Option Text
last_value k [] v = v
last_value k ((j, w) ∷ kvs) v = last_value k kvs (if j == k then some w else v)

lookup-parse_parts :
    (k : Text) (ps : List Text) (m : Parameters)
    → lookup k (parse_parts ps m) ≡ last_value k (map parse_part ps) (lookup k m)
unfolding parse_parts
lookup-parse_parts k [] m = refl
lookup-parse_parts k (p ∷ ps) m =
    lookup-parse_parts k ps (insert (parse_part p).0 (parse_part p).1 m)
    ∙ ap (last_value k (map parse_part ps)) (lookup-insert (parse_part p).0 k (parse_part p).1 m)

-- A parameter of the parsed map has the value of the last of the parts between commas that has this
-- key, and it is missing if no part has this key.
pub parse_parameters-lookup :
    (s k : Text)
    → lookup k (parse_parameters s) ≡ last_value k (map parse_part (split comma s)) none
unfolding parse_parameters lookup
parse_parameters-lookup s k = lookup-parse_parts k (split comma s) []
