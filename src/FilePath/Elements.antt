-- ===== src/FilePath/Elements.antt =====
-- The stack of elements that `filepath.Clean` keeps: no element is empty, `.` or holds a slash, and
-- every `..` has only `..` below it, and stands in no rooted path.
use mathlib.Core.List.{reverse, reverse-append}
use protoc_gen_star.Base.{
  Bool-cases, ◌==◌, nat_eq, Text, text_beq_iff, text_eq, ne_of_beq, All, ◌≡◌, refl, ◌∙◌, ◌≢◌, inl,
  inr, Bool, true, false, ◌||◌, List, [], ◌∷◌, ◌++◌, arith,
}
use protoc_gen_star.Text.Split.{Lacks}
use protoc_gen_star.FilePath.{slash, dot, dot_dot, pop_element, push_element, elements}

pub record IsElement (e : Text) : Type 0 where
  pub ne_nil : e ≢ []
  pub ne_dot : e ≢ dot
  pub no_slash : Lacks slash e

abbrev pub IsStack : Bool → List Text → Type 0
IsStack rooted [] = Unit
IsStack rooted (e ∷ es) =
    IsElement e × (e ≡ dot_dot → (rooted ≡ false) × All (λ f. f ≡ dot_dot) es) × IsStack rooted es

dot_dot-IsElement : IsElement dot_dot
dot_dot-IsElement = record {
  ne_nil = λ e. cc;
  ne_dot = λ e. cc;
  no_slash = (omega arith, (omega arith, tt));
}

pop_element-IsStack : (r : Bool) (es : List Text) → IsStack r es → IsStack r (pop_element r es)
unfolding pop_element
pop_element-IsStack true [] h = tt
pop_element-IsStack false [] h = (dot_dot-IsElement, (λ _. (refl, tt)), tt)
pop_element-IsStack r (e ∷ es) h = elim (Bool-cases (e == dot_dot)) [
  | inl eq ↦
      let same = (text_beq_iff e dot_dot).0 eq in
      rw eq (dot_dot-IsElement, (λ _. ((h.1 same).0, (same, (h.1 same).1))), h)
  | inr ne ↦ rw ne (h.2)
]

push_element-IsStack :
    (r : Bool) (es : List Text) (e : Text)
    → Lacks slash e
    → IsStack r es
    → IsStack r (push_element r es e)
unfolding push_element
push_element-IsStack r es e l h = elim (Bool-cases (e == [] || e == dot)) [
  | inl skip ↦ rw skip h
  | inr keep ↦ rw keep (elim (Bool-cases (e == dot_dot)) [
    | inl up ↦ rw up (pop_element-IsStack r es h)
    | inr name ↦ rw name (
      record {
        ne_nil = ground (arith, text_beq_iff e []);
        ne_dot = ground (arith, text_beq_iff e dot);
        no_slash = l;
      },
      (λ q. absurd (ne_of_beq e dot_dot name q)),
      h,
    )
  ])
]

pub elements-IsStack :
    (r : Bool) (es parts : List Text)
    → All (Lacks slash) parts
    → IsStack r es
    → IsStack r (elements r es parts)
unfolding elements
elements-IsStack r es [] l h = h
elements-IsStack r es (e ∷ parts) l h =
    elements-IsStack r (push_element r es e) parts l.1 (push_element-IsStack r es e l.0 h)

elements-concat :
    (r : Bool) (es parts : List Text) (e : Text)
    → elements r es (parts ++ (e ∷ [])) ≡ push_element r (elements r es parts) e
unfolding elements
elements-concat r es [] e = refl
elements-concat r es (f ∷ parts) e = elements-concat r (push_element r es f) parts e

push_element-IsElement :
    (r : Bool) (e : Text) (es : List Text) → IsStack r (e ∷ es) → push_element r es e ≡ e ∷ es
unfolding push_element pop_element
push_element-IsElement r e [] h = ground (
  arith,
  text_beq_iff e [],
  text_beq_iff e dot,
  text_beq_iff e dot_dot,
  h.0.ne_nil,
  h.0.ne_dot,
  h.1,
)
push_element-IsElement r e (f ∷ es) h = ground (
  arith,
  text_beq_iff e [],
  text_beq_iff e dot,
  text_beq_iff e dot_dot,
  text_beq_iff f dot_dot,
  h.0.ne_nil,
  h.0.ne_dot,
  h.1,
)

-- Taking the kept elements again, the first one first, keeps them all.
pub elements-reverse : (r : Bool) (es : List Text) → IsStack r es → elements r [] (reverse es) ≡ es
elements-reverse r [] h = unfold elements in refl
elements-reverse r (e ∷ es) h = rw (reverse-append (e ∷ []) es) (
    elements-concat r [] (reverse es) e
    ∙ rw (elements-reverse r es h.2) (push_element-IsElement r e es h))
