-- ===== src/Name/Parts.antt =====
-- What `Name.Split` promises: which separator it takes, that the parts make up the name again, and
-- when a part is empty.
use protoc_gen_star.Base.{
  if◌then◌else◌, Bool-cases, ◌==◌, nat_eq, Text, text_eq, beq_false, All, is_some, ℕ, ◌≤◌, ◌≡◌,
  refl, ◌∙◌, ◌≢◌, inl, inr, Bool, true, false, ◌||◌, List, [], ◌∷◌, arith,
}
use protoc_gen_star.Text.{drop, split, join, last_index}
use protoc_gen_star.Text.Split.{join-split}
use protoc_gen_star.Name.{Unicode, merge_lodash, is_interior, is_capital, split_camel, split_name}
use protoc_gen_star.Name.CamelCase.{join-split_camel, IsAscii, split_camel-ne-nil}

-- The rune occurs in the text.
abbrev pub has : ℕ → Text → Bool
has c [] = false
has c (x ∷ s) = x == c || has c s

-- The documented precedence: dots, then underscores that do not lead the name, then camel case.
abbrev pub separator : Text → Text
separator n = if has b'.' n then b'.' ∷ [] else if has b'_' (drop 1 n) then b'_' ∷ [] else []

has-last_index : (c : ℕ) (s : Text) → is_some (last_index c s) ≡ has c s
unfolding last_index
has-last_index c [] = refl
has-last_index c (x ∷ s) = ground (arith, has-last_index c s)

has-interior : (c : ℕ) (s : Text) → is_interior (last_index c s) ≡ has c (drop 1 s)
unfolding last_index
has-interior c [] = refl
has-interior c (x ∷ s) = ground (arith, has-last_index c s)

join-merge_lodash : (ps : List Text) → join (b'_' ∷ []) (merge_lodash ps) ≡ join (b'_' ∷ []) ps
unfolding join
join-merge_lodash [] = refl
join-merge_lodash ([] ∷ []) = refl
join-merge_lodash ([] ∷ p ∷ []) = refl
join-merge_lodash ([] ∷ p ∷ q ∷ ps) = refl
join-merge_lodash ((x ∷ p) ∷ ps) = refl

module _ (u : Unicode) where
  split_name-eq :
      (n : Text)
      → n ≢ []
      → split_name u n ≡ (
          if has b'.' n
          then split b'.' n
          else if has b'_' (drop 1 n)
          then merge_lodash (split b'_' n)
          else split_camel u n)
  unfolding split_name
  split_name-eq n h = rw (beq_false n [] h, has-last_index b'.' n, has-interior b'_' n) refl

  -- Whatever the name, its parts joined by the separator of its notation are the name: `Split`
  -- loses no rune and adds none.
  pub join-split_name : (n : Text) → join (separator n) (split_name u n) ≡ n
  join-split_name [] = unfold split_name join in refl
  join-split_name (x ∷ s) =
      let n = x ∷ s in
      rw (split_name-eq n (λ e. cc)) (elim (Bool-cases (has b'.' n)) [
        | inl dot ↦ rw dot (join-split b'.' n)
        | inr plain ↦ elim (Bool-cases (has b'_' s)) [
          | inl low ↦ rw (plain, low) (join-merge_lodash (split b'_' n) ∙ join-split b'_' n)
          | inr camel ↦ rw (plain, camel) (join-split_camel u n)
        ]
      ])

  -- A name that is not empty, of one-byte runes, without a dot and without an interior
  -- underscore, is split into parts that are not empty.
  pub split_name-ne-nil :
      (n : Text) → n ≢ [] → IsAscii n → separator n ≡ [] → All (λ p. p ≢ []) (split_name u n)
  split_name-ne-nil [] h a e = absurd (h refl)
  split_name-ne-nil (x ∷ s) h a e =
      rw (split_name-eq (x ∷ s) h) (elim (Bool-cases (has b'.' (x ∷ s))) [
        | inl dot ↦ absurd (ground arith)
        | inr plain ↦ elim (Bool-cases (has b'_' s)) [
          | inl low ↦ absurd (ground arith)
          | inr camel ↦ rw (plain, camel) (split_camel-ne-nil u x s a)
        ]
      ])

  split_camel_wide :
      (r s : ℕ)
      → 0x80 ≤ r
      → is_capital u r ≡ true
      → is_capital u s ≡ false
      → u.is_digit r ≡ false
      → u.is_digit s ≡ false
      → split_camel u (r ∷ s ∷ []) ≡ [] ∷ (r ∷ s ∷ []) ∷ []
  unfolding split_camel
  split_camel_wide r s w ur us dr ds = ground arith

  -- A name of a capital of more than one byte and a rune that is neither a capital, a digit, a
  -- dot nor an underscore, where the first is no digit either, is split into an empty part and
  -- the whole name.
  pub split_name_wide_capital :
      (r s : ℕ)
      → 0x80 ≤ r
      → is_capital u r ≡ true
      → is_capital u s ≡ false
      → u.is_digit r ≡ false
      → u.is_digit s ≡ false
      → s ≢ b'.'
      → s ≢ b'_'
      → split_name u (r ∷ s ∷ []) ≡ [] ∷ (r ∷ s ∷ []) ∷ []
  split_name_wide_capital r s w ur us dr ds nd nu =
      rw (split_name-eq (r ∷ s ∷ []) (λ e. cc)) (ground (arith, split_camel_wide r s w ur us dr ds))
