-- ===== src/Ast/Dependents/Tests.antt =====
-- Messages that use each other, in a line and in a circle.
use mathlib.Core.List.Memᴰ
use protoc_gen_star.Base.{
  nat_eq, Text, text_eq, is_some, lookup, insert, ℕ, ◌-◌, ◌≡◌, refl, true, Option, none, some, List,
  [], ◌∷◌, arith,
}
use protoc_gen_star.Ast.Entity.{file_all_messages}
use protoc_gen_star.Ast.Samples.{a_file}
use protoc_gen_star.Ast.Graph.{FieldType, embed_ft}
use protoc_gen_star.Ast.Dependents.{
  Uses, assign_files, Names, Caches, cache_of, copy_names, populate_cache, message_set_to_slice,
  enum_users_of,
}
use protoc_gen_star.Ast.Dependents.Converse.{Converse, assign_files-Converse}
use protoc_gen_star.Ast.Dependents.Bound.{has_cache, populate_cache-length}
use protoc_gen_star.Ast.Dependents.Filled.{Exact}
use protoc_gen_star.Ast.Dependents.Acyclic.{populate_cache-Exact}

-- A name of its own for each number.
abbrev named : ℕ → Text
named n = n ∷ []

-- The message 3 uses 2, and 2 uses 1.
abbrev line : List (ℕ × ℕ)
line = (1, 2) ∷ (2, 3) ∷ []

-- The messages 1 and 2 use each other, and 3 uses 1.
abbrev circle : List (ℕ × ℕ)
circle = (1, 2) ∷ (1, 3) ∷ (2, 1) ∷ []

abbrev names_of : ℕ → Option Caches → Names
names_of m none = []
names_of m (some c) = cache_of m c

in_line :
    message_set_to_slice (named 1) (names_of 1 (populate_cache named line 4 1 [])) ≡ 2 ∷ 3 ∷ []
unfolding populate_cache message_set_to_slice copy_names insert lookup
in_line = refl

-- In the circle the cache of 2 misses 3, if it is filled during the call on 1, and has it otherwise.
in_circle :
    (message_set_to_slice (named 2) (names_of 2 (populate_cache named circle 5 1 [])) ≡ 1 ∷ [])
    × (message_set_to_slice (named 2) (names_of 2 (populate_cache named circle 5 2 []))
        ≡ 1 ∷ 3 ∷ [])
unfolding populate_cache message_set_to_slice copy_names insert lookup
in_circle = (refl, refl)

populate_cache-length_example : is_some (populate_cache named circle 5 1 []) ≡ true
populate_cache-length_example = populate_cache-length named circle 1 []

no_cache-Exact : Exact named line []
unfolding lookup
no_cache-Exact = record { entries = tt; full = λ x h. cc h }

populate_cache-Exact_example :
    (c' : Caches) × (populate_cache named line 4 1 [] ≡ some c')
    × (has_cache 1 c' ≡ true)
    × Exact named line c'
populate_cache-Exact_example =
    populate_cache-Exact named line (λ n. 9 - n) (omega arith) 1 [] no_cache-Exact

abbrev a_type : FieldType
a_type = embed_ft 1

-- The fields of the messages of the sample, of the type of its first message.
abbrev sample_types : List (ℕ × FieldType)
sample_types = (2, a_type) ∷ (6, a_type) ∷ []

abbrev no_uses : Uses
no_uses = record { dependents = []; dependencies = []; enum_dependents = [] }

sample_uses :
    (v : Uses) × (assign_files sample_types (a_file ∷ []) no_uses ≡ some v)
    × Converse v.dependents v.dependencies
unfolding lookup file_all_messages
sample_uses =
    assign_files-Converse sample_types (tt, (tt, tt)) (a_file ∷ []) no_uses
      (((refl, tt), ((refl, tt), tt)), tt)
      (record { there = λ m p i. absurd (Memᴰ.not-nil i); back = λ m p i. absurd (Memᴰ.not-nil i) })

-- The enum 9 is used by 2, which 1 uses.
enum_users :
    enum_users_of (λ (n : ℕ). n ∷ []) ((2, 1) ∷ []) ((9, 2) ∷ []) 3 9 []
    ≡ some (2 ∷ 1 ∷ [], (9, (2 ∷ [], 2) ∷ (1 ∷ [], 1) ∷ []) ∷ (2, (1 ∷ [], 1) ∷ []) ∷ (1, []) ∷ [])
unfolding enum_users_of lookup insert
enum_users = refl
