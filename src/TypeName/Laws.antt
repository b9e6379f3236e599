-- ===== src/TypeName/Laws.antt =====
-- What `Pointer`, `Value`, `Key` and `Element` give on each other's results.
use protoc_gen_star.Base.{
  if◌then◌else◌, Bool-cases, Text, text, ℕ, ◌≡◌, refl, sym, ap, ◌∙◌, inl, inr, true, false, [], ◌∷◌,
  ◌++◌, arith,
}
use protoc_gen_star.Text.{split_two, has_prefix}
use protoc_gen_star.Text.Split.{Lacks}
use protoc_gen_star.Text.Cut.{split_two-append}
use protoc_gen_star.TypeName.{
  star, open_bracket, close_bracket, last_part, element, key_of_parts, key_of, key, is_pointer,
  pointer, value, slice_of, map_of,
}

-- `Pointer` leaves a name alone that is a pointer type.
pointer_same : (n : Text) → is_pointer n ≡ true → pointer n ≡ n
unfolding pointer
pointer_same n eq = ap (λ c. if c then n else star ∷ n) eq

star-IsPointer : (n : Text) → is_pointer (star ∷ n) ≡ true
unfolding is_pointer has_prefix
star-IsPointer n = refl

fixed :
    (n m : Text)
    → pointer n ≡ m
    → is_pointer m ≡ true
    → (is_pointer (pointer n) ≡ true) × (pointer (pointer n) ≡ pointer n)
fixed n m e h = (ap is_pointer e ∙ h, ap pointer e ∙ pointer_same m h ∙ sym e)

-- `Pointer` of any name is a pointer type, and `Pointer` of that changes nothing.
pub pointer_idem : (n : Text) → (is_pointer (pointer n) ≡ true) × (pointer (pointer n) ≡ pointer n)
unfolding pointer
pointer_idem n = elim (Bool-cases (is_pointer n)) [
  | inl eq ↦ fixed n n (pointer_same n eq) eq
  | inr ne ↦ fixed n (star ∷ n) (ap (λ c. if c then n else star ∷ n) ne) (star-IsPointer n)
]

-- `Value` takes off the star that `Pointer` put on a name that is not a pointer type.
pub value-pointer : (n : Text) → is_pointer n ≡ false → value (pointer n) ≡ n
unfolding pointer value
value-pointer n h = rw h refl

-- The name written for a map, whose key has no bracket and is not empty, has that key and that
-- element.
pub key-element-map_of :
    (c : ℕ) (k el : Text)
    → Lacks open_bracket (c ∷ k)
    → Lacks close_bracket (c ∷ k)
    → (key (map_of (c ∷ k) el) ≡ c ∷ k) × (element (map_of (c ∷ k) el) ≡ el)
unfolding key key_of element
key-element-map_of c k el ho hc =
    let cut : split_two close_bracket (map_of (c ∷ k) el) ≡ (text "map[" ++ c ∷ k) ∷ el ∷ [] =
      split_two-append close_bracket (text "map[" ++ c ∷ k) el (
        (λ e. omega (arith, e)),
        ((λ e. omega (arith, e)), ((λ e. omega (arith, e)), ((λ e. omega (arith, e)), hc))),
      ) in
    let cut' : split_two open_bracket (text "map[" ++ c ∷ k) ≡ text "map" ∷ (c ∷ k) ∷ [] =
      split_two-append open_bracket (text "map") (c ∷ k)
        ((λ e. omega (arith, e)), ((λ e. omega (arith, e)), ((λ e. omega (arith, e)), tt))) in
    (ap key_of cut ∙ ap key_of_parts cut', ap last_part cut)

-- The name written for a slice has the key `int` and the element that it was written for.
pub key-element-slice_of :
    (el : Text) → (key (slice_of el) ≡ text "int") × (element (slice_of el) ≡ el)
unfolding key element key_of split_two
key-element-slice_of el = (refl, refl)
