-- ===== src/Name/Casing.antt =====
-- The casings that map each rune, on names that already have the casing's separator.
use protoc_gen_star.Base.{Text, ℕ, ◌≡◌, refl, sym, ap, ◌∙◌, List, [], ◌∷◌, ◌++◌, map}
use protoc_gen_star.Text.{join}
use protoc_gen_star.Name.{
  Unicode, transform_parts, identity, split_name, transform, upper, lower, screaming_snake_case,
  lower_snake_case, snake_case, lower_dot_notation,
}
use protoc_gen_star.Name.Parts.{separator, join-split_name}

map-append-text : (g : ℕ → ℕ) (s t : Text) → map g (s ++ t) ≡ map g s ++ map g t
map-append-text g [] t = refl
map-append-text g (x ∷ s) t = ap (◌∷◌ (g x)) (map-append-text g s t)

map-join :
    (g : ℕ → ℕ) (sep : Text) (ps : List Text)
    → join (map g sep) (map (map g) ps) ≡ map g (join sep ps)
unfolding join
map-join g sep [] = refl
map-join g sep (p ∷ []) = refl
map-join g sep (p ∷ q ∷ ps) =
    rw (map-append-text g p, map-append-text g sep, map-join g sep (q ∷ ps)) refl

transform_parts-map : (f : Text → Text) (ps : List Text) → transform_parts f f ps ≡ map f ps
transform_parts-map f [] = refl
transform_parts-map f (p ∷ ps) = refl

map_identity : (s : Text) → map (λ r. r) s ≡ s
map_identity [] = refl
map_identity (x ∷ s) = ap (◌∷◌ x) (map_identity s)

map_identities : (ps : List Text) → map identity ps ≡ ps
map_identities [] = refl
map_identities (x ∷ s) = ap (◌∷◌ x) (map_identities s)

module _ (u : Unicode) where
  -- One transformer that maps runes, with the name's own separator, maps the name's runes.
  pub transform-map :
      (g : ℕ → ℕ) (n : Text)
      → map g (separator n) ≡ separator n
      → transform u (map g) (map g) (separator n) n ≡ map g n
  unfolding transform
  transform-map g n h =
      ap (join (separator n)) (transform_parts-map (map g) (split_name u n))
      ∙ ap (λ sep. join sep (map (map g) (split_name u n))) (sym h)
      ∙ map-join g (separator n) (split_name u n)
      ∙ ap (map g) (join-split_name u n)

  transform-identity : (n : Text) → transform u identity identity (separator n) n ≡ n
  unfolding transform
  transform-identity n =
      ap (join (separator n))
        (transform_parts-map identity (split_name u n) ∙ map_identities (split_name u n))
      ∙ join-split_name u n

  -- On a name whose separator is the underscore, if the case maps leave the underscore alone, the
  -- three snake casings change no separator: one lowers each rune, one raises each rune, and one
  -- changes nothing.
  pub snake_casings :
      (n : Text)
      → separator n ≡ b'_' ∷ []
      → u.to_lower b'_' ≡ b'_'
      → u.to_upper b'_' ≡ b'_'
      → (lower_snake_case u n ≡ lower u n)
        × (screaming_snake_case u n ≡ upper u n)
        × (snake_case u n ≡ n)
  unfolding lower_snake_case screaming_snake_case snake_case
  snake_casings n e hl hu = (
    rw (← e) (transform-map u.to_lower n (rw (e, hl) refl)),
    rw (← e) (transform-map u.to_upper n (rw (e, hu) refl)),
    rw (← e) (transform-identity n),
  )

  -- On a dotted name, if lowering leaves the dot alone, the lower dot notation keeps the dots and
  -- lowers each rune.
  pub lower_dot_notation_lem :
      (n : Text)
      → separator n ≡ b'.' ∷ []
      → u.to_lower b'.' ≡ b'.'
      → lower_dot_notation u n ≡ lower u n
  unfolding lower_dot_notation
  lower_dot_notation_lem n e hl = rw (← e) (transform-map u.to_lower n (rw (e, hl) refl))
