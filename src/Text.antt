-- ===== src/Text.antt =====
-- What the program uses of Go's `strings` package, on texts: `Split`, `SplitN`, `Join`, `Index`,
-- `LastIndex`, `HasPrefix`, `HasSuffix`, `TrimPrefix` and `TrimSuffix`. Separators are one rune.
pub mod Split
pub mod Cut
use mathlib.Core.List.{reverse}
use protoc_gen_star.Base.{
  if◌then◌else◌, ◌==◌, nat_eq, Text, text_eq, length, ℕ, zero, suc, Bool, true, false, ◌&&◌, Option,
  none, some, List, [], ◌∷◌, ◌++◌,
}

module _ {ℓ} {A : Type ℓ} where
  -- `s[:n]` and `s[n:]`.
  abbrev pub take : ℕ → List A → List A
  take zero s = []
  take (suc n) [] = []
  take (suc n) (x ∷ s) = x ∷ take n s

  abbrev pub drop : ℕ → List A → List A
  drop zero s = s
  drop (suc n) [] = []
  drop (suc n) (x ∷ s) = drop n s

  -- Puts an element in front of the first list of a non-empty list of lists.
  abbrev pub cons_head : A → List (List A) → List (List A)
  cons_head x [] = (x ∷ []) ∷ []
  cons_head x (p ∷ ps) = (x ∷ p) ∷ ps

unfoldable pub split : ℕ → Text → List Text
split sep [] = [] ∷ []
split sep (x ∷ s) = let rest = split sep s in if x == sep then [] ∷ rest else cons_head x rest

unfoldable pub join : Text → List Text → Text
join sep [] = []
join sep (p ∷ []) = p
join sep (p ∷ q ∷ ps) = p ++ (sep ++ join sep (q ∷ ps))

-- The index of the first occurrence; Go's -1 is `none`.
unfoldable pub index : ℕ → Text → Option ℕ
index c [] = none
index c (x ∷ s) =
    let rest = index c s in
    if x == c then some 0 else elim rest [ none ↦ none | some i ↦ some (suc i) ]

unfoldable pub last_index : ℕ → Text → Option ℕ
last_index c [] = none
last_index c (x ∷ s) =
    let rest = last_index c s in
    elim rest [ some i ↦ some (suc i) | none ↦ if x == c then some 0 else none ]

-- `strings.SplitN(s, sep, 2)`.
unfoldable pub split_two : ℕ → Text → List Text
unfolding index
split_two sep s = elim (index sep s) [ none ↦ s ∷ [] | some i ↦ take i s ∷ drop (suc i) s ∷ [] ]

unfoldable pub has_prefix : Text → Text → Bool
has_prefix s [] = true
has_prefix [] (p ∷ ps) = false
has_prefix (x ∷ s) (p ∷ ps) = x == p && has_prefix s ps

unfoldable pub trim_prefix : Text → Text → Text
unfolding has_prefix
trim_prefix s p = if has_prefix s p then drop (length p) s else s

unfoldable pub has_suffix : Text → Text → Bool
unfolding has_prefix
has_suffix s p = has_prefix (reverse s) (reverse p)

unfoldable pub trim_suffix : Text → Text → Text
unfolding trim_prefix
trim_suffix s p = reverse (trim_prefix (reverse s) (reverse p))
