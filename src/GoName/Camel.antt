-- ===== src/GoName/Camel.antt =====
-- `camelCase` on its own results.
use protoc_gen_star.Base.{
  Bool-cases, ◌==◌, nat_beq_iff, nat_eq, Text, text_eq, beq_false, ne_of_beq, ℕ, ◌≡◌, refl, sym, ap,
  ◌∙◌, ◌≢◌, inl, inr, Bool, true, false, ◌&&◌, [], ◌∷◌, arith,
}
use protoc_gen_star.GoName.{
  is_ascii_lower, is_ascii_digit, capital, starts_lower, emit, camel_words, camel_case,
  pgg_upper_camel_case,
}

-- Outside a word the result does not begin with a lower-case letter.
starts_lower-camel_words : (s : Text) → starts_lower (camel_words false s) ≡ false
unfolding camel_words
starts_lower-camel_words [] = refl
starts_lower-camel_words (c ∷ s) = ground (arith, nat_beq_iff c b'_', starts_lower-camel_words s)

-- A text that does not begin with a lower-case letter is read alike in a word and outside.
camel_words-starts_lower :
    (s : Text) → starts_lower s ≡ false → camel_words true s ≡ camel_words false s
unfolding camel_words
camel_words-starts_lower [] h = refl
camel_words-starts_lower (c ∷ s) h = ground (arith, nat_beq_iff c b'_')

-- What a round writes.
data Round (in_word : Bool) (c : ℕ) (low : Bool) (word rest out : Text) : Type 0 where
  kept : (in_word && is_ascii_lower c) ≡ true → out ≡ c ∷ word → Round in_word c low word rest out
  skipped : out ≡ rest → Round in_word c low word rest out
  digit : is_ascii_digit c ≡ true → out ≡ c ∷ rest → Round in_word c low word rest out
  begun :
      (d : ℕ)
      → is_ascii_lower d ≡ false
      → is_ascii_digit d ≡ false
      → (d ≡ b'_' → low ≡ false)
      → out ≡ d ∷ word
      → Round in_word c low word rest out

capital-lower : (c : ℕ) → is_ascii_lower (capital c) ≡ false
capital-lower c = ground arith

capital-digit : (c : ℕ) → is_ascii_digit c ≡ false → is_ascii_digit (capital c) ≡ false
capital-digit c h = ground arith

capital-underscore : (c : ℕ) → capital c ≡ b'_' → c ≡ b'_'
capital-underscore c h = ground arith

not_both : (c : ℕ) (low : Bool) → (c == b'_' && low) ≡ false → c ≡ b'_' → low ≡ false
not_both c low h e = ground (arith, nat_beq_iff c b'_')

emit-Round :
    (in_word : Bool) (c : ℕ) (low : Bool) (word rest : Text)
    → Round in_word c low word rest (emit in_word c low word rest)
emit-Round in_word c low word rest = elim (Bool-cases (in_word && is_ascii_lower c)) [
  | inl eq ↦ kept eq (rw eq refl)
  | inr no_word ↦ elim (Bool-cases (c == b'_' && low)) [
    | inl eq ↦ skipped (rw (no_word, eq) refl)
    | inr no_skip ↦ elim (Bool-cases (is_ascii_digit c)) [
      | inl eq ↦ digit eq (rw (no_word, no_skip, eq) refl)
      | inr no_digit ↦
          begun (capital c) (capital-lower c) (capital-digit c no_digit)
            (λ e. not_both c low no_skip (capital-underscore c e))
            (rw (no_word, no_skip, no_digit) refl)
    ]
  ]
]

-- What a round makes of what a round has written.
again-kept :
    (in_word : Bool) (c : ℕ) (t : Text)
    → (in_word && is_ascii_lower c) ≡ true
    → camel_words in_word (c ∷ t) ≡ c ∷ camel_words true t
unfolding camel_words
again-kept in_word c t h = rw h refl

again-digit :
    (in_word : Bool) (c : ℕ) (t : Text)
    → is_ascii_digit c ≡ true
    → camel_words in_word (c ∷ t) ≡ c ∷ camel_words false t
unfolding camel_words
again-digit in_word c t h = ground (arith, nat_beq_iff c b'_')

again-begun :
    (in_word : Bool) (d : ℕ) (t : Text)
    → is_ascii_lower d ≡ false
    → is_ascii_digit d ≡ false
    → (d ≡ b'_' → starts_lower t ≡ false)
    → camel_words in_word (d ∷ t) ≡ d ∷ camel_words true t
unfolding camel_words
again-begun in_word d t l n u = ground (arith, nat_beq_iff d b'_')

-- The result outside a word is its own result, in a word or not.
outside_idem :
    (in_word : Bool) (s : Text)
    → camel_words false (camel_words false s) ≡ camel_words false s
    → camel_words in_word (camel_words false s) ≡ camel_words false s
outside_idem false s ih = ih
outside_idem true s ih =
    camel_words-starts_lower (camel_words false s) (starts_lower-camel_words s) ∙ ih

-- In a word too the result does not begin with a lower-case letter if the text does not.
starts_lower-in_word :
    (s : Text) → starts_lower s ≡ false → starts_lower (camel_words true s) ≡ false
starts_lower-in_word s h =
    ap starts_lower (camel_words-starts_lower s h) ∙ starts_lower-camel_words s

round_idem :
    (in_word : Bool) (c : ℕ) (s out : Text)
    → Round in_word c (starts_lower s) (camel_words true s) (camel_words false s) out
    → camel_words true (camel_words true s) ≡ camel_words true s
    → camel_words false (camel_words false s) ≡ camel_words false s
    → camel_words in_word out ≡ out
round_idem in_word c s out (kept h e) iht ihf =
    ap (camel_words in_word) e ∙ again-kept in_word c (camel_words true s) h ∙ ap (c ∷◌) iht ∙ sym e
round_idem in_word c s out (skipped e) iht ihf =
    ap (camel_words in_word) e ∙ outside_idem in_word s ihf ∙ sym e
round_idem in_word c s out (digit h e) iht ihf =
    ap (camel_words in_word) e
    ∙ again-digit in_word c (camel_words false s) h
    ∙ ap (c ∷◌) ihf
    ∙ sym e
round_idem in_word c s out (begun d l n u e) iht ihf =
    ap (camel_words in_word) e
    ∙ again-begun in_word d (camel_words true s) l n (λ q. starts_lower-in_word s (u q))
    ∙ ap (d ∷◌) iht
    ∙ sym e

camel_words_idem :
    (in_word : Bool) (s : Text)
    → camel_words in_word (camel_words in_word s) ≡ camel_words in_word s
unfolding camel_words
camel_words_idem in_word [] = refl
camel_words_idem in_word (c ∷ s) =
    round_idem in_word c s _
      (emit-Round in_word c (starts_lower s) (camel_words true s) (camel_words false s))
      (camel_words_idem true s) (camel_words_idem false s)

-- A text that does not begin with an underscore is cased by the loop alone.
camel_case-words : (c : ℕ) (t : Text) → c ≢ b'_' → camel_case (c ∷ t) ≡ camel_words false (c ∷ t)
unfolding camel_case
camel_case-words c t h = ground (arith, nat_beq_iff c b'_')

camel_case-led :
    (c : ℕ) (s : Text) → (c == b'_') ≡ true → camel_case (c ∷ s) ≡ b'X' ∷ camel_words false s
unfolding camel_case
camel_case-led c s h = rw h refl

-- What the loop gives for a text that does not begin with an underscore does not begin with one.
camel_words-head :
    (c : ℕ) (s : Text)
    → c ≢ b'_'
    → (d : ℕ) × (t : Text) × (camel_words false (c ∷ s) ≡ d ∷ t) × (d ≢ b'_')
unfolding camel_words
camel_words-head c s ne = elim (Bool-cases (is_ascii_digit c)) [
  | inl eq ↦ (c, camel_words false s, rw (beq_false c b'_' ne, eq) refl, ne)
  | inr no_digit ↦ (
    capital c,
    camel_words true s,
    rw (beq_false c b'_' ne, no_digit) refl,
    (λ e. ne (capital-underscore c e)),
  )
]

-- The casing of a text behind the `X` that stands for a leading underscore.
led_idem : (s : Text) → camel_case (b'X' ∷ camel_words false s) ≡ b'X' ∷ camel_words false s
led_idem s =
    camel_case-words b'X' (camel_words false s) (λ e. omega (arith, e))
    ∙ again-begun false b'X' (camel_words false s) refl refl (λ _. starts_lower-camel_words s)
    ∙ ap (b'X' ∷◌) (outside_idem true s (camel_words_idem false s))

plain_idem :
    (c : ℕ) (s : Text)
    → c ≢ b'_'
    → camel_case (camel_words false (c ∷ s)) ≡ camel_words false (c ∷ s)
plain_idem c s ne =
    let (d, t, e, ne') = camel_words-head c s ne in
    ap camel_case e
    ∙ camel_case-words d t ne'
    ∙ ap (camel_words false) (sym e)
    ∙ camel_words_idem false (c ∷ s)

-- A name that `PGGUpperCamelCase` has made is not changed by it again.
pub pgg_upper_camel_case_idem :
    (n : Text) → pgg_upper_camel_case (pgg_upper_camel_case n) ≡ pgg_upper_camel_case n
pgg_upper_camel_case_idem [] = unfold camel_case in refl
pgg_upper_camel_case_idem (c ∷ s) = elim (Bool-cases (c == b'_')) [
  | inl eq ↦ ap camel_case (camel_case-led c s eq) ∙ led_idem s ∙ sym (camel_case-led c s eq)
  | inr other ↦
      let e = camel_case-words c s (ne_of_beq c b'_' other) in
      ap camel_case e ∙ plain_idem c s (ne_of_beq c b'_' other) ∙ sym e
]
