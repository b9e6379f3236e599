-- ===== src/FilePath.antt =====
-- name.go: the type `FilePath`, with what it uses of Go's package path/filepath on Unix. `Clean`
-- is written as its documentation describes it: the elements between slashes are taken one by one
-- onto a stack, whose top `..` removes.
pub mod Elements
pub mod Clean
mod Tests
use mathlib.Core.List.{reverse}
use protoc_gen_star.Base.{
  if◌then◌else◌, ◌==◌, nat_eq, Text, text_eq, ℕ, suc, Bool, true, false, ◌||◌, none, some, List, [],
  ◌∷◌, ◌++◌,
}
use protoc_gen_star.Text.{take, drop, split, join, last_index, trim_suffix}

abbrev pub slash : ℕ
slash = b'/'

abbrev pub dot : Text
dot = b'.' ∷ []

abbrev pub dot_dot : Text
dot_dot = b'.' ∷ b'.' ∷ []

-- `filepath.IsAbs`
abbrev pub is_abs : Text → Bool
is_abs [] = false
is_abs (c ∷ s) = c == slash

-- What `..` does to the elements kept so far, the last one first.
unfoldable pub pop_element : Bool → List Text → List Text
pop_element rooted [] = if rooted then [] else dot_dot ∷ []
pop_element rooted (e ∷ stack) = if e == dot_dot then dot_dot ∷ e ∷ stack else stack

unfoldable pub push_element : Bool → List Text → Text → List Text
unfolding pop_element
push_element rooted stack e =
    if e == [] || e == dot
    then stack
    else if e == dot_dot
    then pop_element rooted stack
    else e ∷ stack

unfoldable pub elements : Bool → List Text → List Text → List Text
unfolding push_element
elements rooted stack [] = stack
elements rooted stack (e ∷ es) = elements rooted (push_element rooted stack e) es

-- The path that the kept elements make.
unfoldable pub render : Bool → List Text → Text
unfolding join
render true es = slash ∷ join (slash ∷ []) es
render false [] = dot
render false (e ∷ es) = join (slash ∷ []) (e ∷ es)

-- `filepath.Clean`
unfoldable pub clean : Text → Text
unfolding elements render split
clean s = render (is_abs s) (reverse (elements (is_abs s) [] (split slash s)))

-- `filepath.Join`: the leading empty elements are dropped.
unfoldable pub join_elems : List Text → Text
unfolding clean join
join_elems [] = []
join_elems ([] ∷ es) = join_elems es
join_elems ((c ∷ e) ∷ es) = clean (join (slash ∷ []) ((c ∷ e) ∷ es))

-- The text up to and with the last slash, and the text behind it.
unfoldable pub dir_part : Text → Text
unfolding last_index
dir_part s = elim (last_index slash s) [ none ↦ [] | some i ↦ take (suc i) s ]

unfoldable pub file_part : Text → Text
unfolding last_index
file_part s = elim (last_index slash s) [ none ↦ s | some i ↦ drop (suc i) s ]

-- `FilePath.Dir` and `FilePath.Pop`
unfoldable pub dir : Text → Text
unfolding clean dir_part
dir s = clean (dir_part s)

-- The slashes at the end are taken off, as `filepath.Base` does first.
abbrev pub drop_slashes : Text → Text
drop_slashes [] = []
drop_slashes (c ∷ s) = if c == slash then drop_slashes s else c ∷ s

-- `FilePath.Base`
unfoldable pub base : Text → Text
unfolding file_part
base [] = dot
base (c ∷ s) =
    let name = file_part (reverse (drop_slashes (reverse (c ∷ s)))) in
    if name == [] then slash ∷ [] else name

-- `FilePath.Ext`: from the last dot behind the last slash.
unfoldable pub ext : Text → Text
unfolding file_part last_index
ext s = let name = file_part s in elim (last_index b'.' name) [ none ↦ [] | some i ↦ drop i name ]

-- `FilePath.BaseName`
unfoldable pub base_name : Text → Text
unfolding base ext trim_suffix
base_name s = trim_suffix (base s) (ext s)

-- `FilePath.Push`
unfoldable pub push : Text → Text → Text
unfolding join_elems
push s elem = join_elems (s ∷ elem ∷ [])

-- `FilePath.SetBase`
unfoldable pub set_base : Text → Text → Text
unfolding dir push
set_base s name = push (dir s) name

-- `FilePath.SetExt`
unfoldable pub set_ext : Text → Text → Text
unfolding set_base base_name
set_ext s e = set_base s (base_name s ++ e)
