-- ===== src/Parameters/RoundTrip.antt =====
-- `ParseParameters` on what `Parameters.String` prints.
use protoc_gen_star.Base.{
  if◌then◌else◌, Bool-cases, Option-cases, ◌==◌, nat_eq, Text, text_beq_iff, text_eq, beq_false,
  ne_of_beq, All, All-append, lookup, ◌≡◌, refl, sym, ap, ◌∙◌, ◌≢◌, ◌⊎◌, inl, inr, Option, none,
  some, List, [], ◌∷◌, map, arith,
}
use protoc_gen_star.Text.{split, join}
use protoc_gen_star.Text.Split.{Lacks, split-join}
use protoc_gen_star.Text.Cut.{index-append, index-Lacks, take-append, drop-append}
use protoc_gen_star.Parameters.{
  Parameters, comma, equals, parse_part, parse_parameters, show_part, to_string,
}
use protoc_gen_star.Parameters.Parse.{last_value, parse_parameters-lookup}

-- A part is cut at its first `=`, and is all key if it has none.
parse_part-show_part : (k v : Text) → Lacks equals k → parse_part (show_part (k, v)) ≡ (k, v)
unfolding parse_part
parse_part-show_part k [] h = rw (index-Lacks equals k h, parse_part) refl
parse_part-show_part k (c ∷ v) h =
    rw
      (
        index-append equals k (c ∷ v) h,
        parse_part,
        take-append k (equals ∷ c ∷ v),
        drop-append equals k (c ∷ v),
      )
      refl

-- A key without `=` and `,`, and a value without `,`.
abbrev pub IsPlain : Text × Text → Type 0
IsPlain (k, v) = Lacks equals k × Lacks comma k × Lacks comma v

show_part-Lacks : (k v : Text) → Lacks comma k → Lacks comma v → Lacks comma (show_part (k, v))
show_part-Lacks k [] hk hv = hk
show_part-Lacks k (c ∷ v) hk hv =
    All-append (λ x. x ≢ comma) k (equals ∷ c ∷ v) hk ((λ e. omega (arith, e)), hv)

-- The keys of a Go map are different.
abbrev pub IsMap : Parameters → Type 0
IsMap [] = Unit
IsMap ((k, v) ∷ m) = All (λ e. e.0 ≢ k) m × IsMap m

-- What sorting does to the elements: it neither adds nor loses one.
pub record KeepsElements (sort : List Text → List Text) : Type 1 where
  pub adds_none : (P : Text → Type 0) (l : List Text) → All P l → All P (sort l)
  pub loses_none : (P : Text → Type 0) (l : List Text) → All P (sort l) → All P l

-- Every entry with this key has this value.
abbrev Agrees : Text → Text → Text × Text → Type 0
Agrees k v e = e.0 ≡ k → e.1 ≡ v

abbrev Misses : Text → Text × Text → Type 0
Misses k e = e.0 ≢ k

last_value-Misses :
    (k : Text) (m : Parameters) (o : Option Text) → All (Misses k) m → last_value k m o ≡ o
last_value-Misses k [] o h = refl
last_value-Misses k ((j, w) ∷ m) o (ne, h) =
    last_value-Misses k m _ h ∙ ap (λ c. if c then some w else o) (beq_false j k ne)

last_value-Agrees :
    (k v : Text) (m : Parameters) (o : Option Text)
    → All (Agrees k v) m
    → (last_value k m o ≡ some v) ⊎ All (Misses k) m
last_value-Agrees k v [] o h = inr tt
last_value-Agrees k v ((j, w) ∷ m) o (a, h) =
    elim (last_value-Agrees k v m (if j == k then some w else o) h) [
      | inl e ↦ inl e
      | inr misses ↦ elim (Bool-cases (j == k)) [
        | inl eq ↦ inl (
            last_value-Misses k m _ misses
            ∙ ap (λ c. if c then some w else o) eq
            ∙ ap some (a ((text_beq_iff j k).0 eq)))
        | inr ne ↦ inr (ne_of_beq j k ne, misses)
      ]
    ]

Agrees-differ : (j k v : Text) (m : Parameters) → j ≡ k → All (λ e. e.0 ≢ j) m → All (Agrees k v) m
Agrees-differ j k v [] e h = tt
Agrees-differ j k v ((i, w) ∷ m) e (ne, h) =
    ((λ e'. absurd (ne (e' ∙ sym e))), Agrees-differ j k v m e h)

-- What the entries of a map are for a key that it has, and for one that it lacks.
lookup-some :
    (k v : Text) (m : Parameters)
    → IsMap m
    → lookup k m ≡ some v
    → All (Agrees k v) m × (All (Misses k) m → ⊥)
unfolding lookup
lookup-some k v [] d h = cc
lookup-some k v ((j, w) ∷ m) (ds, d) h = elim (Bool-cases (j == k)) [
  | inl eq ↦
      let e = (text_beq_iff j k).0 eq in
      let same : some w ≡ some v = ap (λ c. if c then some w else lookup k m) (sym eq) ∙ h in
      (((λ _. cc same), Agrees-differ j k v m e ds), (λ misses. misses.0 e))
  | inr ne ↦
      let (agrees, found) =
        lookup-some k v m d (ap (λ c. if c then some w else lookup k m) (sym ne) ∙ h) in
      (((λ e. absurd (ne_of_beq j k ne e)), agrees), (λ misses. found misses.1))
]

lookup-none : (k : Text) (m : Parameters) → lookup k m ≡ none → All (Misses k) m
unfolding lookup
lookup-none k [] h = tt
lookup-none k ((j, w) ∷ m) h = elim (Bool-cases (j == k)) [
  | inl eq ↦
      let same : some w ≡ none = ap (λ c. if c then some w else lookup k m) (sym eq) ∙ h in cc same
  | inr ne ↦
      (ne_of_beq j k ne, lookup-none k m (ap (λ c. if c then some w else lookup k m) (sym ne) ∙ h))
]

-- What holds of the entries of a map holds of the parts that are printed for them, and back.
parts-All :
    (P : Text × Text → Type 0) (m : Parameters)
    → All IsPlain m
    → All P m
    → All (λ p. P (parse_part p)) (map show_part m)
parts-All P [] plain h = tt
parts-All P ((k, v) ∷ m) (p, plain) (h, hs) =
    (rw (parse_part-show_part k v p.0) h, parts-All P m plain hs)

entries-All :
    (P : Text × Text → Type 0) (m : Parameters)
    → All IsPlain m
    → All (λ p. P (parse_part p)) (map show_part m)
    → All P m
entries-All P [] plain h = tt
entries-All P ((k, v) ∷ m) (p, plain) (h, hs) =
    (rw (sym (parse_part-show_part k v p.0)) h, entries-All P m plain hs)

parsed-All :
    (P : Text × Text → Type 0) (ps : List Text)
    → All (λ p. P (parse_part p)) ps
    → All P (map parse_part ps)
parsed-All P [] h = tt
parsed-All P (p ∷ ps) (h, hs) = (h, parsed-All P ps hs)

unparsed-All :
    (P : Text × Text → Type 0) (ps : List Text)
    → All P (map parse_part ps)
    → All (λ p. P (parse_part p)) ps
unparsed-All P [] h = tt
unparsed-All P (p ∷ ps) (h, hs) = (h, unparsed-All P ps hs)

parts-Lacks : (m : Parameters) → All IsPlain m → All (Lacks comma) (map show_part m)
parts-Lacks [] h = tt
parts-Lacks ((k, v) ∷ m) (p, h) = (show_part-Lacks k v p.1 p.2, parts-Lacks m h)

split-printed :
    (ps : List Text) → ps ≢ [] → All (Lacks comma) ps → split comma (join (comma ∷ []) ps) ≡ ps
split-printed [] ne h = absurd (ne refl)
split-printed (p ∷ ps) ne (h, hs) = split-join comma p ps h hs

module _ (sort : List Text → List Text) (keeps : KeepsElements sort) where
  sorted-ne-nil : (e : Text × Text) (m : Parameters) → sort (map show_part (e ∷ m)) ≢ []
  sorted-ne-nil e m h = (keeps.loses_none (λ _. ⊥) (map show_part (e ∷ m)) (rw h tt)).0

  value-parsed :
      (k : Text) (m : Parameters)
      → IsMap m
      → All IsPlain m
      → last_value k (map parse_part (sort (map show_part m))) none ≡ lookup k m
  value-parsed k m d plain = elim (Option-cases (lookup k m)) [
    | inl e ↦
        last_value-Misses k _ none (
          parsed-All (Misses k) (sort (map show_part m)) (
            keeps.adds_none _ (map show_part m) (parts-All (Misses k) m plain (lookup-none k m e))))
        ∙ sym e
    | inr (v, e) ↦
        let (agrees, found) = lookup-some k v m d e in
        elim (last_value-Agrees k v _ none (
          parsed-All (Agrees k v) (sort (map show_part m))
            (keeps.adds_none _ (map show_part m) (parts-All (Agrees k v) m plain agrees)))) [
              | inl e' ↦ e' ∙ sym e
              | inr misses ↦ absurd (
                  found (
                    entries-All (Misses k) m plain (
                      keeps.loses_none _ (map show_part m)
                        (unparsed-All (Misses k) (sort (map show_part m)) misses))))
            ]
  ]

  -- For a map that is not empty, with different keys, no `=` or `,` in a key and no `,` in a
  -- value, and a sort that neither adds nor loses elements, printing the map and parsing the text
  -- gives a map with the same value, or the same lack of one, at every key.
  pub parse_parameters-to_string :
      (k : Text) (e : Text × Text) (m : Parameters)
      → IsMap (e ∷ m)
      → All IsPlain (e ∷ m)
      → lookup k (parse_parameters (to_string sort (e ∷ m))) ≡ lookup k (e ∷ m)
  parse_parameters-to_string k e m d plain =
      parse_parameters-lookup (to_string sort (e ∷ m)) k
      ∙ ap (λ ps. last_value k (map parse_part ps) none)
          (split-printed (sort (map show_part (e ∷ m))) (sorted-ne-nil e m)
            (keeps.adds_none (Lacks comma) (map show_part (e ∷ m)) (parts-Lacks (e ∷ m) plain)))
      ∙ value-parsed k (e ∷ m) d plain
