-- ===== src/Ast/Dependents/Steps.antt =====
-- The two ways a call of `populateDependentsCache` goes.
use protoc_gen_star.Base.{
  nat_eq, Text, text_eq, lookup, insert, ℕ, suc, ◌≡◌, ap, Option, none, some, List, [],
}
use protoc_gen_star.Ast.Dependents.{Names, Caches, direct, fill, populate_cache}

module _ (fqn : ℕ → Text) (us : List (ℕ × ℕ)) (n m : ℕ) (c : Caches) where
  abbrev new_cache : Option Caches
  new_cache = fill fqn (λ d c'. populate_cache fqn us n d c') m (direct us m) (insert m [] c)

  pub populate_cache-some :
      (ns : Names) → lookup m c ≡ some ns → populate_cache fqn us (suc n) m c ≡ some c
  unfolding populate_cache
  populate_cache-some ns e =
      ap
        (λ (o : Option Names). elim o as (λ _. Option Caches) [
          | some ns' ↦ some c
          | none ↦ new_cache
        ])
        e

  pub populate_cache-none :
      lookup m c ≡ none
      → populate_cache fqn us (suc n) m c
        ≡ fill fqn (λ d c'. populate_cache fqn us n d c') m (direct us m) (insert m [] c)
  unfolding populate_cache
  populate_cache-none e =
      ap
        (λ (o : Option Names). elim o as (λ _. Option Caches) [
          | some ns' ↦ some c
          | none ↦ new_cache
        ])
        e
