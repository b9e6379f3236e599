-- ===== src/Ast/Transitive/Needed.antt =====
-- Which imports of a file are listed and needed, said without the maps of the code: `UnusedImports`
-- of file.go with the `Imports` methods.
use mathlib.Core.List.Memᴰ
use protoc_gen_star.Base.{nat_eq, Text, ℕ, ◌≡◌, ◌≢◌, ◌⊎◌, List, Memᴰ}
use protoc_gen_star.Ast.Entity.{Method, Service}
use protoc_gen_star.Ast.Graph.{
  FieldTypeElem, scalar_e, enum_e, embed_e, FieldType, scalar_t, enum_ft, embed_ft, rep_t, map_t,
}

-- The message or enum that an element of a type names.
abbrev pub Names : FieldTypeElem → ℕ → Type 0
Names (scalar_e t) e = ⊥
Names (enum_e d) e = d ≡ e
Names (embed_e m) e = m ≡ e

-- The message or enum that a field of this type is of, or that its elements or the values of its
-- map are of.
abbrev pub Refers : FieldType → ℕ → Type 0
Refers (scalar_t t) e = ⊥
Refers (enum_ft d) e = d ≡ e
Refers (embed_ft m) e = m ≡ e
Refers (rep_t el) e = Names el e
Refers (map_t k el) e = Names el e

module _ (file_of : ℕ → ℕ) (name : ℕ → Text) (home : ℕ) (k : Text) where
  -- This message or enum is in a file of the name `k`, which is not the home file's.
  abbrev pub Abroad : ℕ → Type 0
  Abroad e = (name (file_of e) ≡ k) × (name home ≢ k)

  -- A field of a message has a type that refers to something in a file of the name `k`.
  abbrev pub FieldNeeds : List (List FieldType) → Type 0
  FieldNeeds ms =
      (ts : List FieldType) × Memᴰ ts ms
      × ((t : FieldType) × Memᴰ t ts × ((e : ℕ) × Refers t e × Abroad e))

  -- A method takes or gives a message in a file of the name `k`.
  abbrev pub MethodNeeds : List Service → Type 0
  MethodNeeds ss =
      (s : Service) × Memᴰ s ss
      × ((m : Method) × Memᴰ m s.methods × (Abroad m.input ⊎ Abroad m.output))
