-- ===== src/GoNames/Clashes.antt =====
-- The names that avoid others.
use protoc_gen_star.Base.{
  if◌then◌else◌, Bool-cases, ◌==◌, nat_eq, Text, text_eq, ne_of_beq, All, ℕ, ◌≡◌, refl, sym, ◌≢◌,
  inl, inr, Bool, true, false, List, [], ◌∷◌, ◌++◌,
}
use protoc_gen_star.Name.{Unicode}
use protoc_gen_star.Parameters.{is_in}
use protoc_gen_star.GoNames.{join_names, go_field_name, go_type_name, child_names, oneof_option}

is_in-All : (x : Text) (ys : List Text) → is_in x ys ≡ false → All (λ y. x ≢ y) ys
is_in-All x [] h = tt
is_in-All x (y ∷ ys) h = elim (Bool-cases (y == x)) [
  | inl e ↦ cc (e, h)
  | inr e ↦ (λ q. ne_of_beq y x e (sym q), is_in-All x ys (rw e at h))
]

-- This name is none of those.
abbrev pub Avoids : Text → List Text → Type 0
Avoids n names = All (λ y. n ≢ y) names

module _ (u : Unicode) (is_lower : ℕ → Bool) where
  -- The name that `OneofOption` begins with.
  abbrev pub wrapper_name : Text → List Text → Text → Text
  wrapper_name m ms f = join_names (go_type_name u is_lower m ms) (go_field_name f)

  -- If no message and no enum in a message has the Go name that `OneofOption` resorts to, which is
  -- the name that it begins with and an underscore, then the name that it gives to a field of that
  -- message is the Go name of none of them.
  pub oneof_option-Avoids :
      (m : Text) (ms : List Text) (f : Text) (messages enums : List Text)
      → Avoids (wrapper_name m ms f ++ b'_' ∷ []) (child_names u is_lower m ms messages)
      → Avoids (wrapper_name m ms f ++ b'_' ∷ []) (child_names u is_lower m ms enums)
      → Avoids
          (oneof_option u is_lower m ms f messages enums)
          (child_names u is_lower m ms messages)
        × Avoids (oneof_option u is_lower m ms f messages enums) (child_names u is_lower m ms enums)
  unfolding oneof_option
  oneof_option-Avoids m ms f messages enums hm he = chosen _ _ refl refl
    where
      n : Text
      n = wrapper_name m ms f

      these : List Text
      these = child_names u is_lower m ms messages

      those : List Text
      those = child_names u is_lower m ms enums

      chosen :
          (b c : Bool)
          → is_in n these ≡ b
          → is_in n those ≡ c
          → Avoids (if b then n ++ b'_' ∷ [] else if c then n ++ b'_' ∷ [] else n) these
            × Avoids (if b then n ++ b'_' ∷ [] else if c then n ++ b'_' ∷ [] else n) those
      chosen true c e e' = (hm, he)
      chosen false true e e' = (hm, he)
      chosen false false e e' = (is_in-All n these e, is_in-All n those e')
