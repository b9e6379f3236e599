-- ===== src/Ast/Graph.antt =====
-- The graph of ast.go while it is built: its maps, the objects made so far, and the computations
-- that read and change it or end the run.
use protoc_gen_star.Base.{
  if◌then◌else◌, nat_eq, Text, text_eq, lookup, insert, ℕ, suc, Bool, true, false, Option, none,
  some, List, [], ◌∷◌,
}
use protoc_gen_star.Proto.{ProtoType}
use protoc_gen_star.Ast.Descriptor.{Location}
use protoc_gen_star.Ast.Entity.{
  Kind, file_k, message_k, enum_k, enum_value_k, field_k, extension_k, oneof_k, service_k, method_k,
  Ref, Extension, MessageHead, File,
}

-- What `toElem` gives, without the field that it belongs to.
pub data FieldTypeElem : Type 0 where
  scalar_e : ProtoType → FieldTypeElem
  enum_e embed_e : ℕ → FieldTypeElem

-- `scalarT`, `enumT`, `embedT`, `repT` with its element and `mapT` with its key and element.
pub data FieldType : Type 0 where
  scalar_t : ProtoType → FieldType
  enum_ft embed_ft : ℕ → FieldType
  rep_t : FieldTypeElem → FieldType
  map_t : FieldTypeElem → FieldTypeElem → FieldType

-- `pkg`: the package of its first file, and its files.
pub record Package : Type 0 where
  pub proto_name : Text
  pub files : List File

-- `graph`. `next` numbers the next object; `messages`, `types`, `dependents`,
-- `extendees`, `infos` and `package_infos` hold what the objects with these numbers point to.
pub record Graph : Type 0 where
  pub next : ℕ
  pub targets : List (Text × Option ℕ)
  pub packages : List (Text × Package)
  pub entities : List (Text × Ref)
  pub extensions : List Extension
  pub messages : List (ℕ × MessageHead)
  pub types : List (ℕ × FieldType)
  pub dependents : List (ℕ × ℕ)
  pub extendees : List (ℕ × ℕ)
  pub infos : List (ℕ × Location)
  pub package_infos : List (ℕ × Location)

-- What ends a run: `Failf` for an unseen name, `Fail` for a group, and Go's panics for a type
-- assertion, an index, a nil interface, and `toElem` of a repeated type.
pub data Fault : Type 0 where
  not_seen : Text → Fault
  group_type wrong_kind out_of_range nil_type repeated_element : Fault

pub data Outcome {ℓ} (A : Type ℓ) : Type ℓ where
  done : A → Graph → Outcome A
  failed : Fault → Outcome A

abbrev pub Hydration {ℓ} : Type ℓ → Type ℓ
Hydration A = Graph → Outcome A

abbrev pub continue_with {ℓ κ} :
    {A : Type ℓ} {B : Type κ} → (A → Hydration B) → Outcome A → Outcome B
continue_with f (done a g) = f a g
continue_with f (failed e) = failed e

infixl 5 ◌>>=◌
abbrev pub ◌>>=◌ {ℓ κ} : {A : Type ℓ} {B : Type κ} → Hydration A → (A → Hydration B) → Hydration B
(m >>= f) g = continue_with f (m g)

abbrev pub return {ℓ} : {A : Type ℓ} → A → Hydration A
return a g = done a g

abbrev pub fail {ℓ} : {A : Type ℓ} → Fault → Hydration A
fail e g = failed e

-- `&T{…}` with `g.add`: a new object of this kind, found under this name.
abbrev pub allocate : Text → Kind → Hydration ℕ
allocate key k g = done g.next (record g {
  next = suc g.next;
  entities = insert key (record { kind = k; id = g.next }) g.entities;
})

abbrev pub need {ℓ} : {A : Type ℓ} → Fault → Option A → Hydration A
need e none g = failed e
need e (some a) g = done a g

-- `g.mustSeen`
abbrev pub must_seen : Text → Hydration Ref
must_seen fqn g = need (not_seen fqn) (lookup fqn g.entities) g

abbrev pub same_kind : Kind → Kind → Bool
same_kind file_k file_k = true
same_kind message_k message_k = true
same_kind enum_k enum_k = true
same_kind enum_value_k enum_value_k = true
same_kind field_k field_k = true
same_kind extension_k extension_k = true
same_kind oneof_k oneof_k = true
same_kind service_k service_k = true
same_kind method_k method_k = true
same_kind _ _ = false

-- `g.mustSeen(…).(K)`
abbrev pub seen_as : Kind → Text → Hydration ℕ
seen_as k fqn = do r ← must_seen fqn; if same_kind r.kind k then return r.id else fail wrong_kind

-- `for _, d := range ds { xs = append(xs, f(d)) }`
unfoldable pub each {ℓ κ} :
    {A : Type ℓ} {B : Type κ} → (A → Hydration B) → List A → Hydration (List B)
each f [] = return []
each f (d ∷ ds) = do x ← f d; xs ← each f ds; return (x ∷ xs)
