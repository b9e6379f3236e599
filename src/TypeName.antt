-- ===== src/TypeName.antt =====
-- lang/go/type_name.go: the names of Go types and what is read off them.
pub mod Laws
mod Tests
use protoc_gen_star.Base.{
  if◌then◌else◌, Text, text, ℕ, Bool, ◌||◌, Option, none, some, List, [], ◌∷◌, ◌++◌,
}
use protoc_gen_star.Text.{split_two, has_prefix, trim_prefix}
use protoc_gen_star.Proto.{
  ProtoType, double_t, float_t, int64_t, uint64_t, int32_t, fixed64_t, fixed32_t, bool_t, string_t,
  bytes_t, uint32_t, sfixed32, sfixed64, sint32, sint64,
}

abbrev pub star : ℕ
star = 42

abbrev pub open_bracket : ℕ
open_bracket = 91

abbrev pub close_bracket : ℕ
close_bracket = 93

-- `scalarType`: `none` where it panics.
abbrev pub scalar_type : ProtoType → Option Text
scalar_type double_t = some (text "float64")
scalar_type float_t = some (text "float32")
scalar_type int64_t = some (text "int64")
scalar_type sfixed64 = some (text "int64")
scalar_type sint64 = some (text "int64")
scalar_type uint64_t = some (text "uint64")
scalar_type fixed64_t = some (text "uint64")
scalar_type int32_t = some (text "int32")
scalar_type sfixed32 = some (text "int32")
scalar_type sint32 = some (text "int32")
scalar_type uint32_t = some (text "uint32")
scalar_type fixed32_t = some (text "uint32")
scalar_type bool_t = some (text "bool")
scalar_type string_t = some (text "string")
scalar_type bytes_t = some (text "[]byte")
scalar_type _ = none

-- `parts[len(parts)-1]`
abbrev pub last_part : List Text → Text
last_part [] = []
last_part (p ∷ []) = p
last_part (p ∷ q ∷ ps) = last_part (q ∷ ps)

-- `TypeName.Element`
unfoldable pub element : Text → Text
unfolding split_two
element n = last_part (split_two close_bracket n)

-- `TypeName.Key` on the parts at `[`
abbrev pub key_of_parts : List Text → Text
key_of_parts (p ∷ [] ∷ []) = text "int"
key_of_parts (p ∷ q ∷ []) = q
key_of_parts _ = []

-- `TypeName.Key` on the parts at `]`
unfoldable pub key_of : List Text → Text
unfolding split_two
key_of [] = []
key_of (p ∷ []) = []
key_of (p ∷ q ∷ ps) = key_of_parts (split_two open_bracket p)

-- `TypeName.Key`
unfoldable pub key : Text → Text
unfolding split_two key_of
key n = key_of (split_two close_bracket n)

-- `TypeName.IsPointer`
unfoldable pub is_pointer : Text → Bool
unfolding has_prefix
is_pointer n =
    has_prefix n (star ∷ []) || (has_prefix n (open_bracket ∷ []) || has_prefix n (text "map["))

-- `TypeName.Pointer`
unfoldable pub pointer : Text → Text
unfolding is_pointer
pointer n = if is_pointer n then n else star ∷ n

-- `TypeName.Value`
unfoldable pub value : Text → Text
unfolding trim_prefix
value n = trim_prefix n (star ∷ [])

-- How `context.Type` writes a slice and a map.
abbrev pub slice_of : Text → Text
slice_of el = text "[]" ++ el

abbrev pub map_of : Text → Text → Text
map_of k el = text "map[" ++ (k ++ (text "]" ++ el))
