-- ===== src/Comment/Fuel.antt =====
-- The scanner comes to the end of a comment: every token takes something off the text.
use protoc_gen_star.Base.{
  leb, if◌then◌else◌, Bool-cases, ◌==◌, nat_eq, Text, text_eq, length, is_some, ℕ, zero, suc, ◌+◌,
  ◌<◌, ◌≡◌, refl, inl, inr, true, false, Option, none, some, List, [], ◌∷◌, ◌++◌, arith,
}
use protoc_gen_star.Name.{Unicode, rune_len}
use protoc_gen_star.Comment.{skip_spaces, break_at, find_break, trim_right, scan_comment}
use protoc_gen_star.Comment.Width.{FitsBeforeLast, FitLines, scan_comment-FitLines}

module _ (u : Unicode) (w : ℕ) where
  -- What is left is shorter than this.
  abbrev Shorter : ℕ → Option (Text × Text) → Type 0
  Shorter n none = Unit
  Shorter n (some p) = length p.1 < n

  break_at-Shorter :
      (n : ℕ) (token rest : Text) (last : Option (Text × Text))
      → Shorter n last
      → length rest < n
      → Shorter n (some (break_at u w last token rest))
  break_at-Shorter n token rest none h l = l
  break_at-Shorter n token rest (some p) h l = h

  find_break-Shorter :
      (n i : ℕ) (token : Text) (last : Option (Text × Text)) (s : Text)
      → Shorter n last
      → length s < n
      → Shorter n (find_break u w i token last s)
  unfolding find_break
  find_break-Shorter n i token last [] h l = tt
  find_break-Shorter n i token last (r ∷ s) h l = elim (Bool-cases (u.is_space r)) [
    | inr e ↦
        rw e (find_break-Shorter n (i + rune_len r) (token ++ r ∷ []) last s h (omega (arith, l)))
    | inl e ↦ elim (Bool-cases (leb w i)) [
      | inl wide ↦ rw (e, wide) (break_at-Shorter n token s last h (omega (arith, l)))
      | inr narrow ↦
          rw (e, narrow)
            (find_break-Shorter n (i + rune_len r) (token ++ r ∷ []) (some (token, r ∷ s)) s l
              (omega (arith, l)))
    ]
  ]

  -- The text behind the leading spaces: no longer, and it does not start with a space.
  abbrev Started : ℕ → Text → Type 0
  Started n [] = Unit
  Started n (r ∷ s) = (u.is_space r ≡ false) × (length s < n)

  skip_spaces-Started : (i : ℕ) (s : Text) → Started (length s) (skip_spaces u w i s).1
  unfolding skip_spaces
  skip_spaces-Started i [] = tt
  skip_spaces-Started i (r ∷ s) = elim (Bool-cases (u.is_space r)) [
    | inr e ↦ rw e (e, omega arith)
    | inl e ↦ rw e (longer _ (skip_spaces-Started (i + rune_len r) s))
  ]
    where
      longer : (t : Text) → Started (length s) t → Started (suc (length s)) t
      longer [] h = tt
      longer (x ∷ t) (h, l) = (h, omega (arith, l))

  first_break-Shorter : (n i : ℕ) (t : Text) → Started n t → Shorter n (find_break u w i [] none t)
  unfolding find_break
  first_break-Shorter n i [] h = tt
  first_break-Shorter n i (r ∷ s) (h, l) =
      rw h (find_break-Shorter n (i + rune_len r) (r ∷ []) none s tt l)

  scan_comment-is_some : (n : ℕ) (s : Text) → length s < n → is_some (scan_comment u w n s) ≡ true
  unfolding scan_comment
  scan_comment-is_some zero s l = let impossible : ⊥ = omega (arith, l) in absurd impossible
  scan_comment-is_some (suc n) s l =
      let (i, t) = skip_spaces u w 0 s in
      step (find_break u w i [] none t) t
        (first_break-Shorter (length s) i t (skip_spaces-Started 0 s))
        (λ s' l'. scan_comment-is_some n s' (omega (arith, l, l')))
    where
      consed :
          (l : Text) (o : Option (List Text))
          → is_some o ≡ true
          → is_some (elim o as (λ _. Option (List Text)) [ none ↦ none | some ls ↦ some (l ∷ ls) ])
            ≡ true
      consed l none h = h
      consed l (some ls) h = refl

      step :
          (o : Option (Text × Text)) (t : Text)
          → Shorter (length s) o
          → ((s' : Text) → length s' < length s → is_some (scan_comment u w n s') ≡ true)
          → is_some (elim o as (λ _. Option (List Text)) [
            | none ↦ if t == [] then some [] else some (trim_right u w t ∷ [])
            | some p ↦ elim (scan_comment u w n p.1) [
              | none ↦ none
              | some lines ↦ some (p.0 ∷ lines)
            ]
          ])
            ≡ true
      step none [] h ih = refl
      step none (r ∷ t) h ih = refl
      step (some p) t h ih = consed p.0 (scan_comment u w n p.1) (ih p.1 h)

  -- The scanner of a comment ends on fuel of one more than the length of the text, and every line
  -- but the last is narrower than the width, in bytes, or a word that cannot be broken.
  pub scan_comment-FitsBeforeLast :
      (s : Text)
      → (lines : List Text) × (scan_comment u w (suc (length s)) s ≡ some lines)
        × FitsBeforeLast u w lines
  scan_comment-FitsBeforeLast s =
      given (scan_comment u w (suc (length s)) s)
        (scan_comment-is_some (suc (length s)) s (omega arith))
        (scan_comment-FitLines u w (suc (length s)) s)
    where
      given :
          (o : Option (List Text))
          → is_some o ≡ true
          → FitLines u w o
          → (lines : List Text) × (o ≡ some lines) × FitsBeforeLast u w lines
      given none e h = cc e
      given (some ls) e h = (ls, refl, h)
