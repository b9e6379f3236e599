-- ===== src/Ast/Transitive.antt =====
-- What files, messages and services import: the `Imports` methods of file.go, message.go, field.go,
-- field_type.go, field_type_elem.go, method.go and service.go, and what file.go makes of them. A Go
-- map from names to files is an association list; its values are given in the order of the list.
pub mod Exact
pub mod Cached
pub mod Unused
mod Listed
pub mod Needed
mod Tests
use protoc_gen_star.Base.{
  if◌then◌else◌, ◌==◌, nat_eq, Text, text_eq, insert, ℕ, zero, suc, Bool, false, ◌||◌, Option, none,
  some, List, [], ◌∷◌, ◌++◌,
}
use protoc_gen_star.Ast.Entity.{Method, Service}
use protoc_gen_star.Ast.Graph.{
  FieldTypeElem, scalar_e, enum_e, embed_e, FieldType, scalar_t, enum_ft, embed_ft, rep_t, map_t,
}

-- A set of files by their names.
abbrev pub Files : Type 0
Files = List (Text × ℕ)

-- `for _, f := range mp { out = append(out, f) }`
abbrev pub values : Files → List ℕ
values [] = []
values ((n, f) ∷ m) = f ∷ values m

-- `for _, imp := range imports { mp[imp.Name()] = imp }`
unfoldable pub put_files : (ℕ → Text) → List ℕ → Files → Files
put_files name [] m = m
put_files name (f ∷ fs) m = put_files name fs (insert (name f) f m)

-- `delete(mp, name)`
unfoldable pub delete : Text → Files → Files
delete n [] = []
delete n ((k, f) ∷ m) = let rest = delete n m in if k == n then rest else (k, f) ∷ rest

module _ (name : ℕ → Text) (imports : ℕ → List ℕ) where
  -- The loop of `file.TransitiveImports`, given that method for the files in it.
  unfoldable pub gather : (ℕ → Option Files) → List ℕ → Files → Option Files
  unfolding put_files
  gather transitive [] m = some m
  gather transitive (f ∷ fs) m = elim (transitive f) [
    | none ↦ none
    | some below ↦ gather transitive fs (put_files name (values below) (insert (name f) f m))
  ]

  -- `file.TransitiveImports`, on fuel. It gives the values of this map.
  unfoldable pub transitive_imports : ℕ → ℕ → Option Files
  unfolding gather
  transitive_imports zero f = none
  transitive_imports (suc n) f = gather (λ d. transitive_imports n d) (imports f) []

-- `public[i]` of the map that is made of the public imports
abbrev pub is_public : ℕ → List ℕ → Bool
is_public i [] = false
is_public i (j ∷ js) = j == i || is_public i js

-- The files in which the messages and enums of the graph are, and the names of files.
module _ (file_of : ℕ → ℕ) (name : ℕ → Text) where
  -- `if f := e.File(); f.Name() != mine { return []File{f} }`
  abbrev pub import_unless : ℕ → ℕ → List ℕ
  import_unless home e = if name (file_of e) == name home then [] else file_of e ∷ []

  -- `FieldTypeElem.Imports`
  abbrev pub elem_imports : ℕ → FieldTypeElem → List ℕ
  elem_imports home (scalar_e t) = []
  elem_imports home (enum_e e) = import_unless home e
  elem_imports home (embed_e m) = import_unless home m

  -- `FieldType.Imports`
  abbrev pub type_imports : ℕ → FieldType → List ℕ
  type_imports home (scalar_t t) = []
  type_imports home (enum_ft e) = import_unless home e
  type_imports home (embed_ft m) = import_unless home m
  type_imports home (rep_t el) = elem_imports home el
  type_imports home (map_t k el) = elem_imports home el

  -- The loop of `msg.Imports` on the types of the fields.
  unfoldable pub put_types : ℕ → List FieldType → Files → Files
  unfolding put_files
  put_types home [] m = m
  put_types home (t ∷ ts) m = put_types home ts (put_files name (type_imports home t) m)

  -- `msg.Imports`
  abbrev pub message_imports : ℕ → List FieldType → List ℕ
  message_imports home ts = values (put_types home ts [])

  -- `method.Imports`
  unfoldable pub method_imports : ℕ → Method → List ℕ
  method_imports home m =
      let input = file_of m.input in
      let output = file_of m.output in
      (if name home == name input then [] else input ∷ [])
      ++ (if name home == name output || name input == name output then [] else output ∷ [])

  -- The loop of `service.Imports`.
  unfoldable pub put_methods : ℕ → List Method → Files → Files
  unfolding put_files method_imports
  put_methods home [] mp = mp
  put_methods home (m ∷ ms) mp = put_methods home ms (put_files name (method_imports home m) mp)

  -- `service.Imports`
  abbrev pub service_imports : ℕ → Service → List ℕ
  service_imports home s = values (put_methods home s.methods [])

  -- The imports that are not public, by name; the numbers count from this index.
  unfoldable pub private_imports : List ℕ → ℕ → List ℕ → Files → Files
  private_imports public i [] mp = mp
  private_imports public i (f ∷ fs) mp =
      private_imports public (suc i) fs (if is_public i public then mp else insert (name f) f mp)

  -- `for _, imp := range imports { delete(mp, imp.Name().String()) }`
  unfoldable pub delete_files : List ℕ → Files → Files
  unfolding delete
  delete_files [] mp = mp
  delete_files (f ∷ fs) mp = delete_files fs (delete (name f) mp)

  -- The loop of `file.UnusedImports` on the messages, each given by the types of its fields.
  unfoldable pub drop_messages : ℕ → List (List FieldType) → Files → Files
  unfolding delete_files put_types
  drop_messages home [] mp = mp
  drop_messages home (ts ∷ ms) mp =
      drop_messages home ms (delete_files (message_imports home ts) mp)

  -- The loop on the services.
  unfoldable pub drop_services : ℕ → List Service → Files → Files
  unfolding delete_files put_methods
  drop_services home [] mp = mp
  drop_services home (s ∷ ss) mp = drop_services home ss (delete_files (service_imports home s) mp)

  -- `file.UnusedImports`, as a map; the messages are those of `AllMessages`.
  unfoldable pub unused_imports : ℕ → List ℕ → List ℕ → List (List FieldType) → List Service → Files
  unfolding private_imports drop_messages drop_services
  unused_imports home public deps messages services =
      drop_services home services (drop_messages home messages (private_imports public 0 deps []))
