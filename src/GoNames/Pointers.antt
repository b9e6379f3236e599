-- ===== src/GoNames/Pointers.antt =====
-- Which Go types are pointers, slices or maps.
use mathlib.Core.Option.{some-injective}
use mathlib.Core.Path.{subst}
use protoc_gen_star.Base.{
  Text, ℕ, ◌≡◌, refl, ◌⊎◌, inl, inr, Bool, true, false, ◌||◌, Option, none, some,
}
use protoc_gen_star.Text.{has_prefix}
use protoc_gen_star.Name.{Unicode}
use protoc_gen_star.Parameters.{Parameters}
use protoc_gen_star.TypeName.{scalar_type, is_pointer, pointer, slice_of, map_of}
use protoc_gen_star.TypeName.Laws.{pointer_idem}
use protoc_gen_star.Ast.Entity.{Field, File}
use protoc_gen_star.Ast.Graph.{FieldType, scalar_t, enum_ft, embed_ft, rep_t, map_t, Package}
use protoc_gen_star.Ast.Presence.{is_repeated, is_map, has_presence}
use protoc_gen_star.GoNames.{
  Referred, elem_proto_type, map_type, slice_type, with_presence, importable_type_name, el_type,
  go_type,
}

same-is_pointer : (a t : Text) → is_pointer a ≡ true → some a ≡ some t → is_pointer t ≡ true
same-is_pointer a t h e = subst (λ s. is_pointer s ≡ true) (some-injective a t e) h

slice_type-is_pointer : (o : Option Text) (t : Text) → slice_type o ≡ some t → is_pointer t ≡ true
slice_type-is_pointer none t h = cc h
slice_type-is_pointer (some el) t h =
    same-is_pointer (slice_of el) t (unfold is_pointer has_prefix in refl) h

map_type-is_pointer : (o o' : Option Text) (t : Text) → map_type o o' ≡ some t → is_pointer t ≡ true
map_type-is_pointer none o' t h = cc h
map_type-is_pointer (some k) none t h = cc h
map_type-is_pointer (some k) (some el) t h =
    same-is_pointer (map_of k el) t (unfold is_pointer has_prefix in refl) h

with_presence-is_pointer :
    (o : Option Text) (b : Option Bool) (t : Text)
    → b ≡ some true
    → with_presence o b ≡ some t
    → is_pointer t ≡ true
unfolding with_presence
with_presence-is_pointer none b t e h = cc h
with_presence-is_pointer (some a) none t e h = cc h
with_presence-is_pointer (some a) (some true) t e h =
    same-is_pointer (pointer a) t (pointer_idem a).0 h
with_presence-is_pointer (some a) (some false) t e h = cc e

module _ (u : Unicode) (is_lower : ℕ → Bool) (is_keyword : Text → Bool) (p : Parameters)
    (refers : ℕ → Referred) (pkg : Package) (home : File) where
  -- The Go type of a field with presence, of a repeated field, and of a map can be nil: it is a
  -- pointer, a slice or a map.
  pub go_type-is_pointer :
      (syntax : Option Text) (ft : FieldType) (f : Field) (t : Text)
      → go_type u is_lower is_keyword p refers pkg home syntax ft f ≡ some t
      → (has_presence syntax ft f ≡ some true) ⊎ (is_repeated ft || is_map ft) ≡ true
      → is_pointer t ≡ true
  unfolding go_type
  go_type-is_pointer syntax (scalar_t k) f t h (inl c) =
      with_presence-is_pointer (scalar_type k) (has_presence syntax (scalar_t k) f) t c h
  go_type-is_pointer syntax (scalar_t k) f t h (inr c) = cc c
  go_type-is_pointer syntax (enum_ft e) f t h (inl c) =
      with_presence-is_pointer
        (some (importable_type_name u is_lower is_keyword p refers pkg home (refers e)))
        (has_presence syntax (enum_ft e) f) t c h
  go_type-is_pointer syntax (enum_ft e) f t h (inr c) = cc c
  go_type-is_pointer syntax (embed_ft m) f t h c =
      same-is_pointer
        (pointer (importable_type_name u is_lower is_keyword p refers pkg home (refers m))) t
        (pointer_idem (importable_type_name u is_lower is_keyword p refers pkg home (refers m))).0 h
  go_type-is_pointer syntax (rep_t el) f t h c =
      slice_type-is_pointer (el_type u is_lower is_keyword p refers pkg home el) t h
  go_type-is_pointer syntax (map_t k el) f t h c =
      map_type-is_pointer (scalar_type (elem_proto_type k))
        (el_type u is_lower is_keyword p refers pkg home el) t h
