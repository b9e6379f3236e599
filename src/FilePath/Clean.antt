-- ===== src/FilePath/Clean.antt =====
-- What `filepath.Clean` gives: the elements it kept, and a path that it leaves alone.
use mathlib.Core.List.{reverse, reverse-cons}
use protoc_gen_star.Base.{
  nat_eq, Text, text_eq, beq_refl, beq_false, All, All-append, ◌≡◌, refl, ap, ◌∙◌, Bool, true,
  false, List, [], ◌∷◌,
}
use protoc_gen_star.Text.{split, join}
use protoc_gen_star.Text.Split.{Lacks, split-Lacks, split-append, split-join}
use protoc_gen_star.FilePath.{slash, is_abs, push_element, elements, render, clean}
use protoc_gen_star.FilePath.Elements.{IsElement, IsStack, elements-IsStack, elements-reverse}

-- The elements that `Clean` keeps of a path, the last one first.
abbrev pub kept : Text → List Text
kept s = elements (is_abs s) [] (split slash s)

pub clean-render : (s : Text) → clean s ≡ render (is_abs s) (reverse (kept s))
unfolding clean
clean-render s = refl

pub kept-IsStack : (s : Text) → IsStack (is_abs s) (kept s)
kept-IsStack s = elements-IsStack (is_abs s) [] (split slash s) (split-Lacks slash s) tt

pub IsStack-All : (r : Bool) (es : List Text) → IsStack r es → All IsElement es
IsStack-All r [] h = tt
IsStack-All r (e ∷ es) h = (h.0, IsStack-All r es h.2)

pub All-reverse : (P : Text → Type 0) (es : List Text) → All P es → All P (reverse es)
All-reverse P [] h = tt
All-reverse P (e ∷ es) h =
    rw (reverse-cons e es) (All-append P (reverse es) (e ∷ []) (All-reverse P es h.1) (h.0, tt))

map_no_slash : (es : List Text) → All IsElement es → All (Lacks slash) es
map_no_slash [] h = tt
map_no_slash (e ∷ es) h = (h.0.no_slash, map_no_slash es h.1)

is_abs-join :
    (e : Text) (es : List Text) → IsElement e → is_abs (join (slash ∷ []) (e ∷ es)) ≡ false
unfolding join
is_abs-join [] es h = absurd (h.ne_nil refl)
is_abs-join (c ∷ e) [] h = beq_false c slash h.no_slash.0
is_abs-join (c ∷ e) (f ∷ es) h = beq_false c slash h.no_slash.0

pub is_abs-render : (r : Bool) (es : List Text) → All IsElement es → is_abs (render r es) ≡ r
unfolding render
is_abs-render true es h = beq_refl slash
is_abs-render false [] h = refl
is_abs-render false (e ∷ es) h = is_abs-join e es h.0

-- The elements of a path of kept elements are these again, but for empty ones and a lone dot.
elements-render :
    (r : Bool) (es : List Text)
    → All IsElement es
    → elements r [] (split slash (render r es)) ≡ elements r [] es
unfolding render
elements-render true [] h = unfold elements push_element split join in refl
elements-render false [] h = unfold elements push_element split in refl
elements-render false (e ∷ es) h =
    rw (split-join slash e es h.0.no_slash (map_no_slash es h.1)) refl
elements-render true (e ∷ es) h =
    rw
      (
        split-append slash [] (join (slash ∷ []) (e ∷ es)) tt,
        split-join slash e es h.0.no_slash (map_no_slash es h.1),
      )
      (unfold elements push_element in refl)

pub clean-render_lem :
    (r : Bool) (es : List Text)
    → IsStack r es
    → clean (render r (reverse es)) ≡ render r (reverse es)
clean-render_lem r es h =
    let good = All-reverse IsElement es (IsStack-All r es h) in
    let path = render r (reverse es) in
    clean-render path
    ∙ ap (λ b. render b (reverse (elements b [] (split slash path)))) (is_abs-render r _ good)
    ∙ ap (λ l. render r (reverse l)) (elements-render r (reverse es) good ∙ elements-reverse r es h)

-- A path that was cleaned is clean.
pub clean_idem : (s : Text) → clean (clean s) ≡ clean s
clean_idem s = rw (clean-render s) (clean-render_lem (is_abs s) (kept s) (kept-IsStack s))

-- Cleaning neither makes a relative path absolute nor the other way round.
pub is_abs-clean : (s : Text) → is_abs (clean s) ≡ is_abs s
is_abs-clean s = rw (clean-render s) (
    is_abs-render (is_abs s) _
      (All-reverse IsElement (kept s) (IsStack-All _ (kept s) (kept-IsStack s))))
