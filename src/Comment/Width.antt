-- ===== src/Comment/Width.antt =====
-- How wide the lines of a comment are.
use protoc_gen_star.Base.{
  leb, if◌then◌else◌, Bool-cases, ◌==◌, nat_eq, Text, text_eq, All, All-append, ℕ, zero, suc, ◌+◌,
  ◌≤◌, ◌<◌, ◌≡◌, ◌⊎◌, inl, inr, false, Option, none, some, List, [], ◌∷◌, ◌++◌, arith,
}
use protoc_gen_star.Name.{Unicode, rune_len, byte_len}
use protoc_gen_star.Comment.{skip_spaces, break_at, find_break, trim_right, scan_comment}

below : (w i : ℕ) → leb w i ≡ false → i < w
below w i h = ground (arith, h)

module _ (u : Unicode) (w : ℕ) where
  -- A text without a space.
  abbrev pub Word : Text → Type 0
  Word s = All (λ r. u.is_space r ≡ false) s

  -- Narrower than the width, or a word that cannot be broken.
  abbrev pub Fits : Text → Type 0
  Fits s = (byte_len s < w) ⊎ Word s

  -- The break at the last space fits, and where there is none, the text so far is a word.
  abbrev Ready : Text → Option (Text × Text) → Type 0
  Ready token none = Word token
  Ready token (some last) = byte_len last.0 < w

  byte_len-snoc : (s : Text) (r : ℕ) → byte_len (s ++ r ∷ []) ≡ byte_len s + rune_len r
  byte_len-snoc [] r = omega arith
  byte_len-snoc (x ∷ s) r = omega (arith, byte_len-snoc s r)

  break_at-Fits :
      (token rest : Text) (last : Option (Text × Text))
      → Ready token last
      → Fits (break_at u w last token rest).0
  break_at-Fits token rest none h = inr h
  break_at-Fits token rest (some l) h = inl h

  Ready-snoc :
      (token : Text) (r : ℕ) (last : Option (Text × Text))
      → u.is_space r ≡ false
      → Ready token last
      → Ready (token ++ r ∷ []) last
  Ready-snoc token r none e h = All-append (λ x. u.is_space x ≡ false) token (r ∷ []) h (e, tt)
  Ready-snoc token r (some l) e h = h

  abbrev FitsSome : Option (Text × Text) → Type 0
  FitsSome none = Unit
  FitsSome (some p) = Fits p.0

  find_break-Fits :
      (i : ℕ) (token : Text) (last : Option (Text × Text)) (s : Text)
      → byte_len token ≤ i
      → Ready token last
      → FitsSome (find_break u w i token last s)
  unfolding find_break
  find_break-Fits i token last [] l h = tt
  find_break-Fits i token last (r ∷ s) l h =
      let l' : byte_len (token ++ r ∷ []) ≤ i + rune_len r =
        omega (arith, l, byte_len-snoc token r) in
      elim (Bool-cases (u.is_space r)) [
        | inr e ↦ rw e (
            find_break-Fits (i + rune_len r) (token ++ r ∷ []) last s l'
              (Ready-snoc token r last e h))
        | inl e ↦ elim (Bool-cases (leb w i)) [
          | inl wide ↦ rw (e, wide) (break_at-Fits token s last h)
          | inr narrow ↦
              rw (e, narrow)
                (find_break-Fits (i + rune_len r) (token ++ r ∷ []) (some (token, r ∷ s)) s l'
                  (omega (arith, l, below w i narrow)))
        ]
      ]

  -- Every line but the last.
  abbrev pub FitsBeforeLast : List Text → Type 0
  FitsBeforeLast [] = Unit
  FitsBeforeLast (l ∷ []) = Unit
  FitsBeforeLast (l ∷ m ∷ ls) = Fits l × FitsBeforeLast (m ∷ ls)

  abbrev pub FitLines : Option (List Text) → Type 0
  FitLines none = Unit
  FitLines (some ls) = FitsBeforeLast ls

  FitLines-cons :
      (l : Text) (o : Option (List Text))
      → Fits l
      → FitLines o
      → FitLines (elim o [ none ↦ none | some ls ↦ some (l ∷ ls) ])
  FitLines-cons l none f h = tt
  FitLines-cons l (some []) f h = tt
  FitLines-cons l (some (m ∷ ls)) f h = (f, h)

  pub scan_comment-FitLines : (n : ℕ) (s : Text) → FitLines (scan_comment u w n s)
  unfolding scan_comment
  scan_comment-FitLines zero s = tt
  scan_comment-FitLines (suc n) s =
      let (i, t) = skip_spaces u w 0 s in
      step (find_break u w i [] none t) t (find_break-Fits i [] none t (omega arith) tt)
        (scan_comment-FitLines n)
    where
      step :
          (o : Option (Text × Text)) (t : Text)
          → FitsSome o
          → ((s' : Text) → FitLines (scan_comment u w n s'))
          → FitLines (elim o [
            | none ↦ if t == [] then some [] else some (trim_right u w t ∷ [])
            | some p ↦ elim (scan_comment u w n p.1) [
              | none ↦ none
              | some lines ↦ some (p.0 ∷ lines)
            ]
          ])
      step none [] f ih = tt
      step none (r ∷ t) f ih = tt
      step (some p) t f ih = FitLines-cons p.0 (scan_comment u w n p.1) f (ih p.1)
