-- ===== src/Parameters.antt =====
-- parameters.go and lang/go/parameters.go: the parameters given to the plugin and what the Go
-- support keeps in them. A call that sets a parameter returns the new map; the parsers and printers
-- of `strconv` and `time` are arguments.
pub mod Parse
pub mod RoundTrip
pub mod Plugins
mod Tests
use protoc_gen_star.Base.{
  if◌then◌else◌, ◌==◌, nat_eq, Text, text_eq, text, lookup, insert, ℕ, suc, Bool, true, false, ◌||◌,
  Option, none, some, List, [], ◌∷◌, ◌++◌, map,
}
use protoc_gen_star.Text.{take, drop, split, join, index}

abbrev pub Parameters : Type 0
Parameters = List (Text × Text)

abbrev pub comma : ℕ
comma = 44

abbrev pub equals : ℕ
equals = 61

abbrev pub plus : ℕ
plus = 43

-- What the loop of `ParseParameters` makes of one part.
unfoldable pub parse_part : Text → Text × Text
unfolding index
parse_part p = elim (index equals p) [ none ↦ (p, []) | some i ↦ (take i p, drop (suc i) p) ]

unfoldable pub parse_parts : List Text → Parameters → Parameters
unfolding parse_part
parse_parts [] params = params
parse_parts (p ∷ ps) params = parse_parts ps (insert (parse_part p).0 (parse_part p).1 params)

-- `ParseParameters`
unfoldable pub parse_parameters : Text → Parameters
unfolding parse_parts split
parse_parameters p = parse_parts (split comma p) []

-- `Parameters.Clone`: the loop that copies the map.
unfoldable pub copy_into : Parameters → Parameters → Parameters
copy_into [] out = out
copy_into ((k, v) ∷ p) out = copy_into p (insert k v out)

abbrev pub clone : Parameters → Parameters
clone p = copy_into p []

abbrev pub show_part : Text × Text → Text
show_part (k, []) = k
show_part (k, c ∷ v) = k ++ equals ∷ c ∷ v

-- `Parameters.String`, given `sort.Strings`
abbrev pub to_string : (List Text → List Text) → Parameters → Text
to_string sort p = join (comma ∷ []) (sort (map show_part p))

abbrev pub value_or : Text → Option Text → Text
value_or def none = def
value_or def (some s) = s

-- `Parameters.StrDefault`
abbrev pub str_default : Parameters → Text → Text → Text
str_default p name def = value_or def (lookup name p)

-- `Parameters.Str`
abbrev pub str : Parameters → Text → Text
str p name = str_default p name []

-- `Parameters.SetStr`
abbrev pub set_str : Parameters → Text → Text → Parameters
set_str p name s = insert name s p

abbrev pub output_path_key : Text
output_path_key = text "output_path"

-- `Parameters.OutputPath`
abbrev pub output_path : Parameters → Text
output_path p = str_default p output_path_key (text ".")

-- `Parameters.SetOutputPath`
abbrev pub set_output_path : Parameters → Text → Parameters
set_output_path p path = set_str p output_path_key path

-- A parameter that a library function parses or prints; `none` is its error.
module _ {ℓ} {A : Type ℓ} (parse_value : Text → Option A) where
  abbrev pub parse_or : A → Option Text → Option A
  parse_or def none = some def
  parse_or def (some s) = parse_value s

  -- `IntDefault`, `UintDefault`, `FloatDefault` and `DurationDefault`
  abbrev pub value_default : Parameters → Text → A → Option A
  value_default p name def = parse_or def (lookup name p)

-- `SetInt`, `SetUint`, `SetFloat`, `SetBool` and `SetDuration`
abbrev pub set_value {ℓ} : {A : Type ℓ} → (A → Text) → Parameters → Text → A → Parameters
set_value print p name x = insert name (print x) p

-- `strings.TrimSpace` and `strconv.ParseBool` are arguments.
abbrev pub bool_or : (Text → Text) → (Text → Option Bool) → Bool → Option Text → Option Bool
bool_or trim parse_bool def none = some def
bool_or trim parse_bool def (some s) = if trim s == [] then some true else parse_bool s

-- `Parameters.BoolDefault`
abbrev pub bool_default :
    (Text → Text) → (Text → Option Bool) → Parameters → Text → Bool → Option Bool
bool_default trim parse_bool p name def = bool_or trim parse_bool def (lookup name p)

abbrev pub plugins_key : Text
plugins_key = text "plugins"

abbrev pub plugins_of : Option Text → List Text × Bool
plugins_of none = ([], false)
plugins_of (some []) = ([], true)
plugins_of (some (c ∷ s)) = (split plus (c ∷ s), false)

-- `Plugins`: the names, and whether all are enabled.
abbrev pub plugins : Parameters → List Text × Bool
plugins p = plugins_of (lookup plugins_key p)

-- The loop of `HasPlugin`.
abbrev pub is_in : Text → List Text → Bool
is_in x [] = false
is_in x (y ∷ ys) = y == x || is_in x ys

-- `HasPlugin`
abbrev pub has_plugin : Parameters → Text → Bool
has_plugin p name = if (plugins p).1 then true else is_in name (plugins p).0

-- `AddPlugin`
abbrev pub add_plugin : Parameters → List Text → Parameters
add_plugin p [] = p
add_plugin p (n ∷ names) =
    if (plugins p).1
    then p
    else set_str p plugins_key (join (plus ∷ []) ((plugins p).0 ++ n ∷ names))

-- `EnableAllPlugins`
abbrev pub enable_all_plugins : Parameters → Parameters
enable_all_plugins p = set_str p plugins_key []

abbrev pub import_path_key : Text
import_path_key = text "import_path"

-- `ImportPath`
abbrev pub import_path : Parameters → Text
import_path p = str p import_path_key

-- `SetImportPath`
abbrev pub set_import_path : Parameters → Text → Parameters
set_import_path p path = set_str p import_path_key path

abbrev pub path_type_key : Text
path_type_key = text "paths"

-- `Paths`
abbrev pub paths : Parameters → Text
paths p = str p path_type_key

-- `SetPaths`
abbrev pub set_paths : Parameters → Text → Parameters
set_paths p pt = set_str p path_type_key pt

abbrev pub import_map_key_prefix : Text
import_map_key_prefix = text "M"

-- `MappedImport`
abbrev pub mapped_import : Parameters → Text → Option Text
mapped_import p proto = lookup (import_map_key_prefix ++ proto) p

-- `AddImportMapping`
abbrev pub add_import_mapping : Parameters → Text → Text → Parameters
add_import_mapping p proto pkg = insert (import_map_key_prefix ++ proto) pkg p
