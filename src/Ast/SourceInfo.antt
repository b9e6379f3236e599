-- ===== src/Ast/SourceInfo.antt =====
-- source_code_info.go, the `childAtPath` method of every entity, and `hydrateSourceCodeInfo`: the
-- comments of a file find the entities that they belong to by paths in the descriptor.
pub mod Places
pub mod Follows
pub mod Paths
mod Tests
use protoc_gen_star.Base.{
  if◌then◌else◌, ◌==◌, nat_eq, text_eq, get_elem?, insert, ℕ, zero, suc, Bool, false, not, Option,
  none, some, List, [], ◌∷◌,
}
use protoc_gen_star.Ast.Descriptor.{Location}
use protoc_gen_star.Ast.Entity.{
  Enum, Message, message, Messages, no_messages, msg_cons, Service, File,
}
use protoc_gen_star.Ast.Graph.{out_of_range, done, Hydration, ◌>>=◌, return, fail}

-- The numbers of the fields in the descriptors.
abbrev pub package_path : ℕ
package_path = 2

abbrev pub message_type_path : ℕ
message_type_path = 4

abbrev pub enum_type_path : ℕ
enum_type_path = 5

abbrev pub service_path : ℕ
service_path = 6

abbrev pub syntax_path : ℕ
syntax_path = 12

abbrev pub message_type_field_path : ℕ
message_type_field_path = 2

abbrev pub message_type_nested_type_path : ℕ
message_type_nested_type_path = 3

abbrev pub message_type_enum_type_path : ℕ
message_type_enum_type_path = 4

abbrev pub message_type_oneof_decl_path : ℕ
message_type_oneof_decl_path = 8

abbrev pub enum_type_value_path : ℕ
enum_type_value_path = 2

abbrev pub service_type_method_path : ℕ
service_type_method_path = 2

-- What `childAtPath` gives: nil, an entity, or a panic at an index.
pub data Child : Type 0 where
  no_child : Child
  child : ℕ → Child
  bad_index : Child

-- `len(path)%2 != 0`
abbrev pub is_odd {ℓ} : {A : Type ℓ} → List A → Bool
is_odd [] = false
is_odd (x ∷ xs) = not (is_odd xs)

-- `childAtPath` of an entity that has no children.
unfoldable pub leaf_child : ℕ → List ℕ → Child
leaf_child id [] = child id
leaf_child id (k ∷ path) = no_child

-- `xs[path[0]].childAtPath(path[1:])`
unfoldable pub child_in {ℓ} : {A : Type ℓ} → (A → List ℕ → Child) → List A → List ℕ → Child
child_in at xs [] = no_child
child_in at xs (i ∷ path) = elim (get_elem? xs i) [ none ↦ bad_index | some x ↦ at x path ]

-- `enum.childAtPath`
unfoldable pub enum_child : Enum → List ℕ → Child
unfolding leaf_child child_in
enum_child e [] = child e.id
enum_child e (k ∷ path) =
    if is_odd (k ∷ path)
    then no_child
    else if k == enum_type_value_path
    then child_in (λ v. leaf_child v.id) e.vals path
    else no_child

-- `service.childAtPath`
unfoldable pub service_child : Service → List ℕ → Child
unfolding leaf_child child_in
service_child sv [] = child sv.id
service_child sv (k ∷ path) =
    if is_odd (k ∷ path)
    then no_child
    else if k == service_type_method_path
    then child_in (λ m. leaf_child m.id) sv.methods path
    else no_child

-- `ms[i]`
abbrev pub message_at : Messages → ℕ → Option Message
message_at no_messages i = none
message_at (msg_cons m ms) zero = some m
message_at (msg_cons m ms) (suc i) = message_at ms i

-- `msg.childAtPath`; the nested messages are the `preservedMsgs`.
unfoldable pub message_child : Message → List ℕ → Child
unfolding leaf_child child_in enum_child
message_child (message h ms) [] = child h.id
message_child (message h ms) (k ∷ []) = no_child
message_child (message h ms) (k ∷ i ∷ path) =
    let nested : Child = elim (message_at ms i) [
      | none ↦ bad_index
      | some m ↦ message_child m path
    ] in
    if is_odd path
    then no_child
    else if k == message_type_field_path
    then child_in (λ f. leaf_child f.id) h.fields (i ∷ path)
    else if k == message_type_nested_type_path
    then nested
    else if k == message_type_enum_type_path
    then child_in enum_child h.enums (i ∷ path)
    else if k == message_type_oneof_decl_path
    then child_in (λ o. leaf_child o.id) h.oneofs (i ∷ path)
    else no_child

-- `ms[path[0]].childAtPath(path[1:])`
unfoldable pub messages_child : Messages → List ℕ → Child
unfolding message_child
messages_child ms [] = no_child
messages_child ms (i ∷ path) = elim (message_at ms i) [
  | none ↦ bad_index
  | some m ↦ message_child m path
]

-- `file.childAtPath`
unfoldable pub file_child : File → List ℕ → Child
unfolding child_in enum_child service_child messages_child
file_child f [] = child f.id
file_child f (k ∷ path) =
    if is_odd (k ∷ path)
    then no_child
    else if k == message_type_path
    then messages_child f.msgs path
    else if k == enum_type_path
    then child_in enum_child f.enums path
    else if k == service_path
    then child_in service_child f.srvs path
    else no_child

-- `addSourceCodeInfo`
abbrev pub add_source_code_info : ℕ → Location → Hydration {0} Unit
add_source_code_info id loc g = done tt (record g { infos = insert id loc g.infos })

-- `addPackageSourceCodeInfo`
abbrev pub add_package_source_code_info : ℕ → Location → Hydration {0} Unit
add_package_source_code_info id loc g =
    done tt (record g { package_infos = insert id loc g.package_infos })

-- `if e := f.childAtPath(path); e != nil { e.addSourceCodeInfo(info) }`
abbrev pub inform : Child → Location → Hydration {0} Unit
inform no_child loc = return tt
inform (child id) loc = add_source_code_info id loc
inform bad_index loc = fail out_of_range

-- One round of the loop. At a path of one number `childAtPath` finds nothing.
unfoldable pub place_location : File → Location → List ℕ → Hydration {0} Unit
unfolding file_child
place_location f loc (k ∷ []) =
    if k == syntax_path
    then add_source_code_info f.id loc
    else if k == package_path
    then add_package_source_code_info f.id loc
    else return tt
place_location f loc path = inform (file_child f path) loc

-- `hydrateSourceCodeInfo`
unfoldable pub hydrate_source_code_info : File → List Location → Hydration {0} Unit
unfolding place_location
hydrate_source_code_info f [] = return tt
hydrate_source_code_info f (loc ∷ locs) = do
  u ← place_location f loc loc.path
  hydrate_source_code_info f locs
