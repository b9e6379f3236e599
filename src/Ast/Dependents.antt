-- ===== src/Ast/Dependents.antt =====
-- The messages that use a message: `assignDependent` of ast.go with the loops that call it, and the
-- caches of message.go. What a message uses is found by the same code with the other list.
pub mod Converse
pub mod Steps
pub mod Bound
pub mod Reached
pub mod Named
pub mod Filled
pub mod Acyclic
mod Tests
use protoc_gen_star.Base.{
  if◌then◌else◌, ◌==◌, nat_eq, Text, text_eq, lookup, insert, ℕ, zero, suc, Option, none, some,
  List, [], ◌∷◌, ◌++◌,
}
use protoc_gen_star.Ast.Entity.{Field, Message, File, head_of, file_all_messages}
use protoc_gen_star.Ast.Graph.{
  FieldTypeElem, scalar_e, enum_e, embed_e, FieldType, scalar_t, enum_ft, embed_ft, rep_t, map_t,
}
use protoc_gen_star.Ast.Types.{fields_of}

-- The `dependents` and `dependencies` of all messages, and the `dependents` of all enums: pairs of
-- the owner of the list and an element, in the order in which they are appended.
pub record Uses : Type 0 where
  pub dependents : List (ℕ × ℕ)
  pub dependencies : List (ℕ × ℕ)
  pub enum_dependents : List (ℕ × ℕ)

-- `e.addDependent(parent)` of an enum
abbrev pub add_enum_dependent : ℕ → ℕ → Uses → Uses
add_enum_dependent e parent u = record u { enum_dependents = u.enum_dependents ++ (e, parent) ∷ [] }

-- `m.addDependent(parent)`
abbrev pub add_message_dependent : ℕ → ℕ → Uses → Uses
add_message_dependent m parent u = record u { dependents = u.dependents ++ (m, parent) ∷ [] }

-- `parent.addDependency(m)`, where `m` may be nil
abbrev pub add_dependency : ℕ → Option ℕ → Uses → Uses
add_dependency parent none u = u
add_dependency parent (some m) u = record u { dependencies = u.dependencies ++ (parent, m) ∷ [] }

-- `ft.Embed()` of a field type
abbrev pub embed_of : FieldType → Option ℕ
embed_of (embed_ft m) = some m
embed_of _ = none

-- The test of the element or the key: an enum, or else a message, gets the dependent, and the
-- parent the dependency `ft.Embed()`.
abbrev pub use_elem : FieldType → FieldTypeElem → ℕ → Uses → Uses
use_elem ft (scalar_e t) parent u = u
use_elem ft (enum_e e) parent u = add_enum_dependent e parent u
use_elem ft (embed_e m) parent u =
    add_dependency parent (embed_of ft) (add_message_dependent m parent u)

-- The element of a map once more.
abbrev pub use_map_element : FieldTypeElem → ℕ → Uses → Uses
use_map_element (embed_e m) parent u =
    add_dependency parent (some m) (add_message_dependent m parent u)
use_map_element _ parent u = u

-- The element of a repeated field once more.
abbrev pub use_repeated_element : FieldTypeElem → ℕ → Uses → Uses
use_repeated_element (embed_e m) parent u = add_dependency parent (some m) u
use_repeated_element _ parent u = u

-- `assignDependent`
unfoldable pub assign_dependent : FieldType → ℕ → Uses → Uses
assign_dependent (scalar_t t) parent u = u
assign_dependent (enum_ft e) parent u = add_enum_dependent e parent u
assign_dependent (embed_ft m) parent u =
    add_dependency parent (some m) (add_message_dependent m parent u)
assign_dependent (rep_t el) parent u =
    use_repeated_element el parent (use_elem (rep_t el) el parent u)
assign_dependent (map_t k el) parent u =
    use_map_element el parent (use_elem (map_t k el) k parent (use_elem (map_t k el) el parent u))

-- `for _, field := range m.Fields() { assignDependent(field.Type(), m) }`; a nil type panics.
unfoldable pub assign_fields : List (ℕ × FieldType) → ℕ → List Field → Uses → Option Uses
unfolding assign_dependent
assign_fields types m [] u = some u
assign_fields types m (f ∷ fs) u = elim (lookup f.id types) [
  | none ↦ none
  | some t ↦ assign_fields types m fs (assign_dependent t m u)
]

-- `for _, m := range f.AllMessages()`
unfoldable pub assign_messages : List (ℕ × FieldType) → List Message → Uses → Option Uses
unfolding assign_fields
assign_messages types [] u = some u
assign_messages types (m ∷ ms) u = elim (assign_fields types (head_of m).id (fields_of m) u) [
  | none ↦ none
  | some v ↦ assign_messages types ms v
]

-- The loops of `ProcessCodeGeneratorRequestBidirectional` on the files of all packages, in the
-- order in which the map of packages gives them.
unfoldable pub assign_files : List (ℕ × FieldType) → List File → Uses → Option Uses
unfolding assign_messages
assign_files types [] u = some u
assign_files types (f ∷ fs) u = elim (assign_messages types (file_all_messages f.msgs) u) [
  | none ↦ none
  | some v ↦ assign_files types fs v
]

-- The `dependentsCache` of each message that has one: a map from full names to messages.
abbrev pub Names : Type 0
Names = List (Text × ℕ)

abbrev pub Caches : Type 0
Caches = List (ℕ × Names)

-- The list of one message.
abbrev pub direct : List (ℕ × ℕ) → ℕ → List ℕ
direct [] m = []
direct ((a, b) ∷ us) m = if a == m then b ∷ direct us m else direct us m

abbrev pub names_or_none : Option Names → Names
names_or_none none = []
names_or_none (some ns) = ns

abbrev pub cache_of : ℕ → Caches → Names
cache_of m c = names_or_none (lookup m c)

-- `set[name] = d`, where `set` is the cache of `m`
abbrev pub set_name : ℕ → Text → ℕ → Caches → Caches
set_name m name d c = insert m (insert name d (cache_of m c)) c

-- `for fqn, d := range … { set[fqn] = d }`, where `set` is the cache of `m`
unfoldable pub copy_names : ℕ → Names → Caches → Caches
copy_names m [] c = c
copy_names m ((name, d) ∷ ns) c = copy_names m ns (set_name m name d c)

module _ (fqn : ℕ → Text) where
  -- The loop of `populateDependentsCache` on the dependents of `m`. `populate` is that function on
  -- one of them, which `getDependents` calls before it copies the names.
  unfoldable pub fill : (ℕ → Caches → Option Caches) → ℕ → List ℕ → Caches → Option Caches
  unfolding copy_names
  fill populate m [] c = some c
  fill populate m (d ∷ ds) c = elim (populate d (set_name m (fqn d) d c)) [
    | none ↦ none
    | some c' ↦ fill populate m ds (copy_names m (cache_of d c') c')
  ]

  -- `populateDependentsCache`, on fuel
  unfoldable pub populate_cache : List (ℕ × ℕ) → ℕ → ℕ → Caches → Option Caches
  unfolding fill
  populate_cache uses zero m c = none
  populate_cache uses (suc n) m c = elim (lookup m c) [
    | some ns ↦ some c
    | none ↦ fill (λ d c'. populate_cache uses n d c') m (direct uses m) (insert m [] c)
  ]

-- `messageSetToSlice`
unfoldable pub message_set_to_slice : Text → Names → List ℕ
message_set_to_slice name [] = []
message_set_to_slice name ((n, d) ∷ ns) =
    let rest = message_set_to_slice name ns in if n == name then rest else d ∷ rest

module _ (fqn : ℕ → Text) where
  -- `populateDependentsCache` of an enum: its own list, and then the caches of messages. The number
  -- of an enum is none of a message, so both kinds of caches are in one map.
  unfoldable pub populate_enum_cache : List (ℕ × ℕ) → List (ℕ × ℕ) → ℕ → ℕ → Caches → Option Caches
  unfolding fill populate_cache
  populate_enum_cache uses enum_uses n e c = elim (lookup e c) [
    | some ns ↦ some c
    | none ↦
        fill fqn (λ d c'. populate_cache fqn uses n d c') e (direct enum_uses e) (insert e [] c)
  ]

  -- `enum.Dependents`, with the caches that it leaves.
  unfoldable pub enum_users_of :
      List (ℕ × ℕ) → List (ℕ × ℕ) → ℕ → ℕ → Caches → Option (List ℕ × Caches)
  unfolding populate_enum_cache message_set_to_slice
  enum_users_of uses enum_uses n e c = elim (populate_enum_cache uses enum_uses n e c) [
    | none ↦ none
    | some c' ↦ some (message_set_to_slice [] (cache_of e c'), c')
  ]
