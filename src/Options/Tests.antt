-- ===== src/Options/Tests.antt =====
-- Options whose types are numbers, one of them set to a value of the type 1.
use protoc_gen_star.Base.{
  ◌==◌, nat_eq, text_eq, ℕ, ◌≡◌, refl, Bool, true, false, Option, none, some,
}
use protoc_gen_star.Options.{
  Slot, plain, pointer, not_a_pointer, answer, panics, extension, entity_extension,
}
use protoc_gen_star.Options.Callers.{entity_extension-set}

abbrev get_option : ℕ → ℕ → Option (Slot ℕ)
get_option opts e = some (pointer (plain 1))

entity_extension-set_example :
    (entity_extension
        (λ v t. v == t)
        (λ o i. true)
        get_option
        (some 5)
        (some 6)
        (some (pointer (plain 1)))
      ≡ answer true none (some 1))
    × (entity_extension (λ v t. v == t) (λ o i. true) get_option (some 5) (some 6) none ≡ panics)
    × (◌≡◌ {A = Bool} true true
        → entity_extension
            (λ v t. v == t)
            (λ o i. true)
            get_option
            (some 5)
            (some 6)
            (some (plain 1))
          ≡ panics)
entity_extension-set_example =
    entity_extension-set (λ v t. v == t) (λ o i. true) get_option 5 6 1 1
      (record { set = refl; slot = pointer (plain 1); got = refl; type = refl })

-- Called directly, `extension` has an error for an output that is no pointer.
direct_call :
    extension (λ v t. v == t) (λ o i. true) get_option (some 5) (some 6) (some (plain 1))
    ≡ answer false (some not_a_pointer) none
unfolding extension
direct_call = refl
