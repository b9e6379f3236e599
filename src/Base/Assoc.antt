-- ===== src/Base/Assoc.antt =====
-- A Go map as an association list: `m[k]` with its second result, `m[k] = v`, and the keys.
use mathlib.Core.Path.{◌≡◌, refl, ap}
use mathlib.Core.List.{List, [], ◌∷◌, ◌++◌}
use mathlib.Core.Option.{Option, none, some}
use native.Mathlib.Omega.{arith}
use protoc_gen_star.Base.Tests.{if◌then◌else◌, Comparable, ◌==◌, nat_eq, text_eq, beq_refl}

module _ {ℓ κ} {K : Type ℓ} {V : Type κ} ⦃e : Comparable K⦄ where
  unfoldable pub lookup : K → List (K × V) → Option V
  lookup a [] = none
  lookup a ((b, x) ∷ rest) = if b == a then some x else lookup a rest

  unfoldable pub insert : K → V → List (K × V) → List (K × V)
  insert a x [] = (a, x) ∷ []
  insert a x ((b, y) ∷ rest) = if b == a then (a, x) ∷ rest else (b, y) ∷ insert a x rest

  pub lookup-insert :
      (a b : K) (x : V) (m : List (K × V))
      → lookup b (insert a x m) ≡ (if a == b then some x else lookup b m)
  unfolding insert lookup
  lookup-insert a b x [] = refl
  lookup-insert a b x ((c, y) ∷ rest) =
      ground (arith, lookup-insert a b x rest, e.beq_iff a b, e.beq_iff c a, e.beq_iff c b)

  pub lookup-insert_self : (k : K) (v : V) (m : List (K × V)) → lookup k (insert k v m) ≡ some v
  lookup-insert_self k v m = rw (lookup-insert, beq_refl k)

abbrev pub keys {ℓ κ} : {K : Type ℓ} {V : Type κ} → List (K × V) → List K
keys [] = []
keys ((k, v) ∷ m) = k ∷ keys m

pub keys-append {ℓ κ} :
    {K : Type ℓ} {V : Type κ} (m n : List (K × V)) → keys (m ++ n) ≡ keys m ++ keys n
keys-append [] n = refl
keys-append ((k, v) ∷ m) n = ap (k ∷◌) (keys-append m n)
