-- ===== src/Text/Split.antt =====
-- Laws of `strings.Split` and `strings.Join`.
use protoc_gen_star.Base.{
  Bool-cases, ◌==◌, nat_beq_iff, nat_eq, Text, All, ℕ, ◌≡◌, refl, ap, ◌∙◌, ◌≢◌, inl, inr, List, [],
  ◌∷◌, ◌++◌, arith,
}
use protoc_gen_star.Text.{split, join}

-- The rune does not occur.
abbrev pub Lacks : ℕ → Text → Type 0
Lacks c = All (λ x. x ≢ c)

pub split-cons : (sep : ℕ) (s : Text) → (p : Text) × (ps : List Text) × (split sep s ≡ p ∷ ps)
unfolding split
split-cons sep [] = ([], [], refl)
split-cons sep (x ∷ s) = elim (Bool-cases (x == sep)) [
  | inl eq ↦ ([], split sep s, rw eq)
  | inr ne ↦ let (p, ps, e) = split-cons sep s in (x ∷ p, ps, rw (ne, e))
]

pub split-ne-nil : (sep : ℕ) (s : Text) → split sep s ≢ []
split-ne-nil sep s e = let (p, ps, e') = split-cons sep s in cc

join-nil_cons : (sep p : Text) (ps : List Text) → join sep ([] ∷ p ∷ ps) ≡ sep ++ join sep (p ∷ ps)
unfolding join
join-nil_cons sep p ps = refl

pub join-cons_head :
    (sep : Text) (x : ℕ) (p : Text) (ps : List Text)
    → join sep ((x ∷ p) ∷ ps) ≡ x ∷ join sep (p ∷ ps)
unfolding join
join-cons_head sep x p [] = refl
join-cons_head sep x p (q ∷ ps) = refl

-- Joining the parts with the separator gives the text back.
pub join-split : (sep : ℕ) (s : Text) → join (sep ∷ []) (split sep s) ≡ s
unfolding split
join-split sep [] = unfold join in refl
join-split sep (x ∷ s) =
    let (p, ps, e) = split-cons sep s in
    let ih = rw e at (join-split sep s) in
    elim (Bool-cases (x == sep)) [
      | inl eq ↦ rw (eq, e, join-nil_cons) (cc (ih, (nat_beq_iff x sep).0 eq))
      | inr ne ↦ rw (ne, e, join-cons_head) (ap (◌∷◌ x) ih)
    ]

-- No part holds the separator.
pub split-Lacks : (sep : ℕ) (s : Text) → All (Lacks sep) (split sep s)
unfolding split
split-Lacks sep [] = (tt, tt)
split-Lacks sep (x ∷ s) =
    let (p, ps, e) = split-cons sep s in
    let ih = rw e at (split-Lacks sep s) in
    elim (Bool-cases (x == sep)) [
      | inl eq ↦ rw (eq, e) (tt, ih)
      | inr ne ↦ rw (ne, e) (((λ q. cc ((nat_beq_iff x sep).1 q)), ih.0), ih.1)
    ]

pub split-Lacks_self : (sep : ℕ) (s : Text) → Lacks sep s → split sep s ≡ s ∷ []
unfolding split
split-Lacks_self sep [] h = refl
split-Lacks_self sep (x ∷ s) h = ground (arith, nat_beq_iff x sep, split-Lacks_self sep s h.1)

pub split-append :
    (sep : ℕ) (p s : Text) → Lacks sep p → split sep (p ++ (sep ∷ s)) ≡ p ∷ split sep s
unfolding split
split-append sep [] s h = ground (arith, nat_beq_iff sep sep)
split-append sep (x ∷ p) s h = ground (arith, nat_beq_iff x sep, split-append sep p s h.1)

-- Splitting joined parts gives the parts back, if none holds the separator and there is one.
pub split-join :
    (sep : ℕ) (p : Text) (ps : List Text)
    → Lacks sep p
    → All (Lacks sep) ps
    → split sep (join (sep ∷ []) (p ∷ ps)) ≡ p ∷ ps
unfolding join
split-join sep p [] h hs = split-Lacks_self sep p h
split-join sep p (q ∷ ps) h hs =
    split-append sep p (join (sep ∷ []) (q ∷ ps)) h ∙ ap (◌∷◌ p) (split-join sep q ps hs.0 hs.1)
