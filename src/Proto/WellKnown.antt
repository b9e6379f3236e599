-- ===== src/Proto/WellKnown.antt =====
-- wkt.go: the well-known types.
use protoc_gen_star.Base.{
  if◌then◌else◌, Bool-cases, Option-cases, ◌==◌, nat_eq, Text, text_beq_iff, text_eq, text, is_some,
  lookup, ◌≡◌, sym, ap, ◌∙◌, inl, inr, Bool, true, Option, none, some, List, [], ◌∷◌,
}

abbrev pub unknown_wkt : Text
unknown_wkt = text "Unknown"

-- The constants of the type `WellKnownType`, but `UnknownWKT`.
abbrev pub well_known_types : List Text
well_known_types =
    text "Any"
    ∷ text "Duration"
    ∷ text "Empty"
    ∷ text "Struct"
    ∷ text "Timestamp"
    ∷ text "Value"
    ∷ text "ListValue"
    ∷ text "DoubleValue"
    ∷ text "FloatValue"
    ∷ text "Int64Value"
    ∷ text "UInt64Value"
    ∷ text "Int32Value"
    ∷ text "UInt32Value"
    ∷ text "BoolValue"
    ∷ text "StringValue"
    ∷ text "BytesValue"
    ∷ []

abbrev pub paired : List Text → List (Text × Text)
paired [] = []
paired (n ∷ ns) = (n, n) ∷ paired ns

-- `wktLookup`
abbrev pub wkt_lookup : List (Text × Text)
wkt_lookup = paired well_known_types

abbrev pub or_unknown : Option Text → Text
or_unknown none = unknown_wkt
or_unknown (some t) = t

-- `LookupWKT`
abbrev pub lookup_wkt : Text → Text
lookup_wkt n = or_unknown (lookup n wkt_lookup)

-- `WellKnownType.Valid`
abbrev pub valid_wkt : Text → Bool
valid_wkt t = is_some (lookup t wkt_lookup)

lookup-paired : (n t : Text) (ns : List Text) → lookup n (paired ns) ≡ some t → t ≡ n
unfolding lookup
lookup-paired n t [] h = cc h
lookup-paired n t (m ∷ ns) h = elim (Bool-cases (m == n)) [
  | inl eq ↦
      let same : some m ≡ some t =
        ap (λ c. if c then some m else lookup n (paired ns)) (sym eq) ∙ h in
      let e : m ≡ n = (text_beq_iff m n).0 eq in cc (same, e)
  | inr ne ↦
      lookup-paired n t ns (ap (λ c. if c then some m else lookup n (paired ns)) (sym ne) ∙ h)
]

-- A name that is the name of a well-known type is looked up as itself, and any other name gives a
-- type that is not valid.
pub lookup_wkt-valid_wkt :
    (n : Text) → (valid_wkt (lookup_wkt n) ≡ valid_wkt n) × (valid_wkt n ≡ true → lookup_wkt n ≡ n)
unfolding lookup
lookup_wkt-valid_wkt n = elim (Option-cases (lookup n wkt_lookup)) [
  | inl e ↦ (
    ap (λ o. is_some (lookup (or_unknown o) wkt_lookup)) e ∙ sym (ap is_some e),
    (λ h. cc (ap is_some (sym e) ∙ h)),
  )
  | inr (t, e) ↦
      let e' : t ≡ n = lookup-paired n t well_known_types e in
      let found : lookup_wkt n ≡ n = ap or_unknown e ∙ e' in (ap valid_wkt found, (λ h. found))
]
