-- ===== src/Name/Tests.antt =====
-- Names of name_test.go, on the ASCII part of the tables.
use protoc_gen_star.Name.Parts.{
  separator, join-split_name, split_name-ne-nil, split_name_wide_capital,
}
use protoc_gen_star.Name.Casing.{snake_casings, lower_dot_notation_lem}
use protoc_gen_star.Base.{
  leb, if◌then◌else◌, ◌==◌, nat_eq, text_eq, text, All, ℕ, ◌+◌, ◌-◌, ◌≡◌, refl, ◌≢◌, Bool, false,
  ◌&&◌, ◌||◌, [], ◌∷◌, arith,
}
use protoc_gen_star.Text.{join}
use protoc_gen_star.Name.{
  Unicode, split_name, upper, lower, lower_camel_case, screaming_snake_case, lower_snake_case,
  snake_case, lower_dot_notation, upper_dot_notation,
}

abbrev between : ℕ → ℕ → ℕ → Bool
between lo hi r = leb lo r && leb r hi

abbrev pub ascii : Unicode
ascii = record {
  is_upper = between b'A' b'Z';
  is_title = λ _. false;
  is_digit = between b'0' b'9';
  is_letter = λ r. between b'A' b'Z' r || between b'a' b'z' r;
  is_space = λ r. r == b' ' || between 9 13 r;
  to_upper = λ r. if between b'a' b'z' r then r - 32 else r;
  to_lower = λ r. if between b'A' b'Z' r then r + 32 else r;
  to_title = λ r. if between b'a' b'z' r then r - 32 else r;
}

splits :
    (split_name ascii (text "JSONStringFooBar")
      ≡ text "JSON" ∷ text "String" ∷ text "Foo" ∷ text "Bar" ∷ [])
    × (split_name ascii (text "abc1def") ≡ text "abc" ∷ text "1" ∷ text "def" ∷ [])
    × (split_name ascii (text "__Double") ≡ text "_" ∷ text "Double" ∷ [])
    × (split_name ascii (text "_JString") ≡ text "_J" ∷ text "String" ∷ [])
    × (split_name ascii (text ".foo.bar") ≡ [] ∷ text "foo" ∷ text "bar" ∷ [])
unfolding split_name
splits = (refl, refl, refl, refl, refl)

casings :
    (lower_camel_case ascii (text "JSON_String") ≡ text "jsonString")
    × (screaming_snake_case ascii (text "fooBar") ≡ text "FOO_BAR")
    × (upper_dot_notation ascii (text "foo_bar") ≡ text "Foo.Bar")
unfolding lower_camel_case screaming_snake_case upper_dot_notation
casings = (refl, refl, refl)

-- The tables with one letter more, `É`, which takes two bytes.
abbrev latin : Unicode
latin = record ascii { is_upper = λ r. between b'A' b'Z' r || r == 201 }

join-split_name_example :
    join (separator (text "JSONString")) (split_name ascii (text "JSONString")) ≡ text "JSONString"
join-split_name_example = join-split_name ascii (text "JSONString")

split_name-ne-nil_example : All (λ p. p ≢ []) (split_name ascii (text "aBc"))
split_name-ne-nil_example =
    split_name-ne-nil ascii (text "aBc") (λ e. cc e) (omega arith, (omega arith, (omega arith, tt)))
      refl

latin_wide_capital : split_name latin (201 ∷ b'a' ∷ []) ≡ [] ∷ (201 ∷ b'a' ∷ []) ∷ []
latin_wide_capital =
    split_name_wide_capital latin 201 b'a' (omega arith) refl refl refl refl (λ e. omega (arith, e))
      (λ e. omega (arith, e))

snakes_of_two_parts :
    (lower_snake_case ascii (text "foo_Bar") ≡ lower ascii (text "foo_Bar"))
    × (screaming_snake_case ascii (text "foo_Bar") ≡ upper ascii (text "foo_Bar"))
    × (snake_case ascii (text "foo_Bar") ≡ text "foo_Bar")
snakes_of_two_parts = snake_casings ascii (text "foo_Bar") refl refl refl

dotted_name : lower_dot_notation ascii (text "foo.Bar") ≡ lower ascii (text "foo.Bar")
dotted_name = lower_dot_notation_lem ascii (text "foo.Bar") refl refl
