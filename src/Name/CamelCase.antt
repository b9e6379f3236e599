-- ===== src/Name/CamelCase.antt =====
-- `Name.Split` on camel case: the loop loses no rune, and on one-byte runes no part is empty.
use protoc_gen_star.Base.{
  ltb, Text, length, All, All-append, ℕ, ◌<◌, ◌≡◌, refl, sym, ap, ◌∙◌, ◌≢◌, Bool, true, List, [],
  ◌∷◌, ◌++◌, append-nil, append_assoc, arith,
}
use protoc_gen_star.Text.{join}
use protoc_gen_star.Name.{
  Unicode, byte_len, Camel, start, but_last, last_only, flush, cut, mark_lodash, is_capital, step,
  loop, split_camel,
}

-- What has been read so far.
abbrev whole : Camel → Text
whole c = join [] c.parts ++ c.buf

join-concat : (ps : List Text) (p : Text) → join [] (ps ++ (p ∷ [])) ≡ join [] ps ++ p
unfolding join
join-concat [] p = refl
join-concat (q ∷ []) p = refl
join-concat (q ∷ r ∷ ps) p = rw (join-concat (r ∷ ps) p, append_assoc) refl

but_last-append : (b : Text) → but_last b ++ last_only b ≡ b
but_last-append [] = refl
but_last-append (r ∷ []) = refl
but_last-append (r ∷ s ∷ t) = ap (◌∷◌ r) (but_last-append (s ∷ t))

whole-flush : (c : Camel) → whole (flush c) ≡ whole c
whole-flush c = rw (join-concat c.parts c.buf) (append-nil _)

whole_trim :
    (c : Camel)
    → whole (record c { parts = c.parts ++ (but_last c.buf ∷ []); buf = last_only c.buf }) ≡ whole c
whole_trim c =
    rw (join-concat c.parts (but_last c.buf), append_assoc (join [] c.parts))
      (ap (λ t. join [] c.parts ++ t) (but_last-append c.buf))

whole-cut : (uc dg : Bool) (c : Camel) → whole (cut uc dg c) ≡ whole c
unfolding cut
whole-cut uc dg c = ground (arith, whole-flush c, whole_trim c)

module _ (u : Unicode) where
  whole-step : (c : Camel) (r : ℕ) → whole (step u c r) ≡ whole c ++ (r ∷ [])
  unfolding step
  whole-step c r =
      sym (append_assoc (join [] (cut _ _ (mark_lodash r c)).parts) _ (r ∷ []))
      ∙ ap (λ (t : Text). t ++ (r ∷ []))
          (whole-cut (is_capital u r) (u.is_digit r) (mark_lodash r c))

  whole-loop : (s : Text) (c : Camel) → whole (loop u c s) ≡ whole c ++ s
  unfolding loop
  whole-loop [] c = sym (append-nil _)
  whole-loop (r ∷ s) c =
      whole-loop s (step u c r) ∙ rw (whole-step c r) (append_assoc (whole c) (r ∷ []) s)

  -- The parts of a name in camel case, concatenated, are the name.
  pub join-split_camel : (n : Text) → join [] (split_camel u n) ≡ n
  unfolding split_camel
  join-split_camel n =
      join-concat (loop u start n).parts _ ∙ whole-loop n start ∙ unfold join in refl

-- Every rune takes one byte.
abbrev pub IsAscii : Text → Type 0
IsAscii = All (λ r. r < 0x80)

byte_len-length : (s : Text) → IsAscii s → byte_len s ≡ length s
byte_len-length [] h = refl
byte_len-length (r ∷ s) h = ground (arith, byte_len-length s h.1)

but_last-ne-nil : (s : Text) → IsAscii s → ltb 1 (byte_len s) ≡ true → but_last s ≢ []
but_last-ne-nil [] h l = ground arith
but_last-ne-nil (r ∷ []) h l = ground arith
but_last-ne-nil (r ∷ s ∷ t) h l = ground arith

last_only-IsAscii : (s : Text) → IsAscii s → IsAscii (last_only s)
last_only-IsAscii [] h = tt
last_only-IsAscii (r ∷ []) h = h
last_only-IsAscii (r ∷ s ∷ t) h = last_only-IsAscii (s ∷ t) h.1

record Inv (c : Camel) : Type 0 where
  parts_ne : All (λ p. p ≢ []) c.parts
  ascii : IsAscii c.buf

nonempty_of_len : (s : Text) → ltb 0 (byte_len s) ≡ true → s ≢ []
nonempty_of_len [] h = ground arith
nonempty_of_len (r ∷ s) h = ground arith

flush-Inv : (c : Camel) → Inv c → ltb 0 (byte_len c.buf) ≡ true → Inv (flush c)
flush-Inv c i h = record {
  parts_ne = All-append _ c.parts _ i.parts_ne (nonempty_of_len c.buf h, tt);
  ascii = tt;
}

trim-Inv :
    (c : Camel)
    → Inv c
    → ltb 1 (byte_len c.buf) ≡ true
    → Inv (record c { parts = c.parts ++ (but_last c.buf ∷ []); buf = last_only c.buf })
trim-Inv c i h = record {
  parts_ne = All-append _ c.parts _ i.parts_ne (but_last-ne-nil c.buf i.ascii h, tt);
  ascii = last_only-IsAscii c.buf i.ascii;
}

cut-Inv : (uc dg : Bool) (c : Camel) → Inv c → Inv (cut uc dg c)
unfolding cut
cut-Inv uc dg c i = ground (arith, flush-Inv c i, trim-Inv c i)

concat-ne-nil : (b : Text) (r : ℕ) → b ++ (r ∷ []) ≢ []
concat-ne-nil [] r = ground arith
concat-ne-nil (x ∷ b) r = ground arith

module _ (u : Unicode) where
  step-Inv : (c : Camel) (r : ℕ) → r < 0x80 → Inv c → Inv (step u c r)
  unfolding step
  step-Inv c r h i =
      let j =
        cut-Inv (is_capital u r) (u.is_digit r) (mark_lodash r c)
          (record { parts_ne = i.parts_ne; ascii = i.ascii }) in
      record { parts_ne = j.parts_ne; ascii = All-append _ _ (r ∷ []) j.ascii (h, tt) }

  step-buf : (c : Camel) (r : ℕ) → (step u c r).buf ≢ []
  unfolding step
  step-buf c r = concat-ne-nil _ r

  loop-Inv :
      (s : Text) (c : Camel)
      → IsAscii s
      → Inv c
      → c.buf ≢ []
      → Inv (loop u c s) × ((loop u c s).buf ≢ [])
  unfolding loop
  loop-Inv [] c h i b = (i, b)
  loop-Inv (r ∷ s) c h i b = loop-Inv s (step u c r) h.1 (step-Inv c r h.0 i) (step-buf c r)

  -- No part of a name in camel case is empty.
  pub split_camel-ne-nil :
      (r : ℕ) (s : Text) → IsAscii (r ∷ s) → All (λ p. p ≢ []) (split_camel u (r ∷ s))
  unfolding split_camel loop
  split_camel-ne-nil r s h =
      let (i, b) =
        loop-Inv s (step u start r) h.1
          (step-Inv start r h.0 (record { parts_ne = tt; ascii = tt })) (step-buf start r) in
      All-append _ (loop u start (r ∷ s)).parts _ i.parts_ne (b, tt)
