-- ===== src/Parameters/Tests.antt =====
-- Parameters of parameters_test.go and of lang/go/parameters_test.go.
use protoc_gen_star.Base.{
  nat_eq, Text, text_eq, text, ne_of_beq, All, lookup, insert, ◌≡◌, refl, true, false, ◌||◌, none,
  List, [], ◌∷◌, map, arith,
}
use protoc_gen_star.Text.{split, join}
use protoc_gen_star.Parameters.{
  Parameters, comma, parse_part, parse_parameters, to_string, is_in, has_plugin, add_plugin,
}
use protoc_gen_star.Parameters.Parse.{last_value, parse_parameters-lookup}
use protoc_gen_star.Parameters.RoundTrip.{parse_parameters-to_string}
use protoc_gen_star.Parameters.Plugins.{has_plugin-add_plugin, add_plugin_empty}

parsed_params :
    parse_parameters (text "foo=bar,fizz,a=b=c,foo=baz")
    ≡ (text "foo", text "baz") ∷ (text "fizz", []) ∷ (text "a", text "b=c") ∷ []
unfolding parse_parameters insert
parsed_params = refl

-- The text of the empty map is parsed to a map that holds the empty key.
parsed_empty : parse_parameters (to_string (λ l. l) []) ≡ ([], []) ∷ []
unfolding parse_parameters insert join
parsed_empty = refl

last_value_wins :
    lookup (text "a") (parse_parameters (text "a=1,a=2"))
    ≡ last_value (text "a") (map parse_part (split comma (text "a=1,a=2"))) none
last_value_wins = parse_parameters-lookup (text "a=1,a=2") (text "a")

abbrev two_params : Parameters
two_params = (text "b", text "1") ∷ (text "a", []) ∷ []

abbrev reversed : List Text → List Text
reversed (p ∷ q ∷ []) = q ∷ p ∷ []
reversed l = l

reversed-adds_none : (P : Text → Type 0) (l : List Text) → All P l → All P (reversed l)
reversed-adds_none P [] h = tt
reversed-adds_none P (p ∷ []) h = h
reversed-adds_none P (p ∷ q ∷ []) (h, (h', u)) = (h', (h, tt))
reversed-adds_none P (p ∷ q ∷ r ∷ l) h = h

reversed-loses_none : (P : Text → Type 0) (l : List Text) → All P (reversed l) → All P l
reversed-loses_none P [] h = tt
reversed-loses_none P (p ∷ []) h = h
reversed-loses_none P (p ∷ q ∷ []) (h, (h', u)) = (h', (h, tt))
reversed-loses_none P (p ∷ q ∷ r ∷ l) h = h

parse_parameters-to_string_example :
    lookup (text "b") (parse_parameters (to_string reversed two_params))
    ≡ lookup (text "b") two_params
parse_parameters-to_string_example =
    parse_parameters-to_string reversed
      (record { adds_none = reversed-adds_none; loses_none = reversed-loses_none }) (text "b")
      (text "b", text "1") ((text "a", []) ∷ [])
      (((λ e. ne_of_beq (text "a") (text "b") refl e), tt), (tt, tt))
      (
        (
          ((λ e. omega (arith, e)), tt),
          ((λ e. omega (arith, e)), tt),
          ((λ e. omega (arith, e)), tt),
        ),
        ((((λ e. omega (arith, e)), tt), ((λ e. omega (arith, e)), tt), tt), tt),
      )

plugin_added :
    has_plugin (add_plugin [] (text "grpc" ∷ [])) (text "grpc")
    ≡ (has_plugin [] (text "grpc") || is_in (text "grpc") (text "grpc" ∷ []))
plugin_added =
    has_plugin-add_plugin [] (text "grpc") [] (text "grpc")
      (
        (
          (λ e. omega (arith, e)),
          ((λ e. omega (arith, e)), ((λ e. omega (arith, e)), ((λ e. omega (arith, e)), tt))),
        ),
        tt,
      )
      (unfold lookup in (λ e. cc e))

empty_name_enables_all :
    (has_plugin [] (text "grpc") ≡ false)
    × (has_plugin (add_plugin [] ([] ∷ [])) (text "grpc") ≡ true)
empty_name_enables_all = add_plugin_empty [] (text "grpc") (unfold lookup in refl)
