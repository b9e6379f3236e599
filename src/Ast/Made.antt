-- ===== src/Ast/Made.antt =====
-- Each `hydrate` function adds to the graph the entries of what it makes, under the names that the
-- descriptor gives.
use protoc_gen_star.Base.{
  Text, ℕ, zero, suc, ◌≡◌, refl, sym, ap, ◌∙◌, Option, none, some, List, [], ◌∷◌,
}
use protoc_gen_star.Ast.Descriptor.{FieldDesc, EnumValueDesc, EnumDesc, OneofDesc}
use protoc_gen_star.Ast.Entity.{enum_k, enum_value_k, field_k, extension_k, oneof_k, Field, Oneof}
use protoc_gen_star.Ast.Graph.{Graph, out_of_range, need}
use protoc_gen_star.Ast.Hydrate.{
  fully_qualified_name, hydrate_enum_value, hydrate_enum, hydrate_enums, hydrate_oneof,
  hydrate_oneofs, hydrate_field, add_field, join_oneof, hydrate_fields, append_extension,
  new_extension, hydrate_extension, hydrate_extensions,
}
use protoc_gen_star.Ast.Entries.{
  collect, entry, enum_value_entries, enum_entries, oneof_entries, field_entries, extension_entries,
  enum_value_names, enum_names, oneof_names, field_names,
}
use protoc_gen_star.Ast.Leads.{
  Leads, done_graph, Leads-return, Leads-bind, Leads-keep, Leads-allocate, Leads-map, Same,
  Same-append, Made, Leads-each, Leads-single, Leads-owner,
}

hydrate_enum_value-Made :
    (p : Text) (d : EnumValueDesc)
    → Leads (hydrate_enum_value p d) (Made enum_value_entries (enum_value_names p d))
unfolding hydrate_enum_value
hydrate_enum_value-Made p d = Leads-single _ enum_value_k _ enum_value_entries (λ id. refl)

hydrate_enum-Made :
    (p : Text) (d : EnumDesc) → Leads (hydrate_enum p d) (Made enum_entries (enum_names p d))
unfolding hydrate_enum
hydrate_enum-Made p d =
    Leads-owner (fully_qualified_name p d.name) enum_k _ _ enum_entries (collect enum_value_entries)
      _ (λ id vs. refl)
      (Leads-each _ enum_value_entries (enum_value_names (fully_qualified_name p d.name))
        (hydrate_enum_value-Made (fully_qualified_name p d.name)) d.values)

pub hydrate_enums-Made :
    (p : Text) (ds : List EnumDesc)
    → Leads (hydrate_enums p ds) (Made (collect enum_entries) (collect (enum_names p) ds))
hydrate_enums-Made p = Leads-each _ enum_entries (enum_names p) (hydrate_enum-Made p)

hydrate_oneof-Made :
    (p : Text) (d : OneofDesc) → Leads (hydrate_oneof p d) (Made oneof_entries (oneof_names p d))
unfolding hydrate_oneof
hydrate_oneof-Made p d = Leads-single _ oneof_k _ oneof_entries (λ id. refl)

pub hydrate_oneofs-Made :
    (p : Text) (ds : List OneofDesc)
    → Leads (hydrate_oneofs p ds) (Made (collect oneof_entries) (collect (oneof_names p) ds))
hydrate_oneofs-Made p = Leads-each _ oneof_entries (oneof_names p) (hydrate_oneof-Made p)

hydrate_field-Made :
    (p : Text) (d : FieldDesc) → Leads (hydrate_field p d) (Made field_entries (field_names p d))
unfolding hydrate_field
hydrate_field-Made p d = Leads-single _ field_k _ field_entries (λ id. refl)

hydrate_extension-Made :
    (p : Text) (d : FieldDesc)
    → Leads (hydrate_extension p d) (Made extension_entries (field_names p d))
unfolding hydrate_extension
hydrate_extension-Made p d =
    Leads-allocate (fully_qualified_name p d.name) extension_k _
      (Made extension_entries (field_names p d))
      (λ id.
        Leads-keep (append_extension (new_extension p d id)) _ _
          (λ g g' u h. ap (λ (x : Graph). x.entities) (sym (done_graph h)))
          (λ u. Leads-return (new_extension p d id) _ (refl, refl)))

pub hydrate_extensions-Made :
    (p : Text) (ds : List FieldDesc)
    → Leads
        (hydrate_extensions p ds)
        (Made (collect extension_entries) (collect (field_names p) ds))
hydrate_extensions-Made p =
    Leads-each _ extension_entries (field_names p) (hydrate_extension-Made p)

-- The entities of the oneofs do not change when fields join them.
abbrev SameOneofs : List Oneof → List Oneof → Type 0
SameOneofs os os' = collect oneof_entries os' ≡ collect oneof_entries os

abbrev KeepsOneofs : List Oneof → Option (List Oneof) → Type 0
KeepsOneofs os none = Unit
KeepsOneofs os (some os') = SameOneofs os os'

KeepsOneofs-cons :
    (o : Oneof) (os : List Oneof) (r : Option (List Oneof))
    → KeepsOneofs os r
    → KeepsOneofs (o ∷ os) (elim r [ none ↦ none | some os' ↦ some (o ∷ os') ])
KeepsOneofs-cons o os none h = tt
KeepsOneofs-cons o os (some os') h = ap (entry o.fqn oneof_k o.id ∷◌) h

add_field-KeepsOneofs : (i : ℕ) (f : Field) (os : List Oneof) → KeepsOneofs os (add_field i f os)
unfolding add_field
add_field-KeepsOneofs i f [] = tt
add_field-KeepsOneofs zero f (o ∷ os) = refl
add_field-KeepsOneofs (suc i) f (o ∷ os) =
    KeepsOneofs-cons o os (add_field i f os) (add_field-KeepsOneofs i f os)

need-Leads :
    (o : Option (List Oneof)) (os : List Oneof)
    → KeepsOneofs os o
    → Leads (need out_of_range o) (λ os' l. (l ≡ []) × SameOneofs os os')
need-Leads none os h g g' a e = cc
need-Leads (some os') os h g g' a e =
    Leads-return os' (λ os' l. (l ≡ []) × SameOneofs os os') (refl, h) g g' a e

join_oneof-Leads :
    (i : Option ℕ) (f : Field) (os : List Oneof)
    → Leads (join_oneof i f os) (λ os' l. (l ≡ []) × SameOneofs os os')
unfolding join_oneof
join_oneof-Leads none f os = Leads-return os _ (refl, refl)
join_oneof-Leads (some i) f os = need-Leads (add_field i f os) os (add_field-KeepsOneofs i f os)

-- The fields are added, and the oneofs keep their entities.
pub hydrate_fields-Leads :
    (p : Text) (ds : List FieldDesc) (os : List Oneof)
    → Leads
        (hydrate_fields p ds os)
        (λ r l. Same l (collect field_entries r.0) (collect (field_names p) ds) × SameOneofs os r.1)
unfolding hydrate_fields
hydrate_fields-Leads p [] os = Leads-return _ _ ((refl, refl), refl)
hydrate_fields-Leads p (d ∷ ds) os =
    Leads-bind (hydrate_field p d) _ (Made field_entries (field_names p d)) _
      (hydrate_field-Made p d)
      (λ f l q.
        Leads-bind (join_oneof d.oneof_index f os) _ (λ os' l'. (l' ≡ []) × SameOneofs os os') _
          (join_oneof-Leads d.oneof_index f os)
          (λ os' l' q'.
            Leads-map (hydrate_fields p ds os') _
              (λ r l.
                Same l (collect field_entries r.0) (collect (field_names p) ds)
                × SameOneofs os' r.1)
              _ (hydrate_fields-Leads p ds os')
              (λ r l'' q''. (rw (q'.0) (Same-append q q''.0), q''.1 ∙ q'.1))))
