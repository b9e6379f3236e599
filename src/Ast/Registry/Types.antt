-- ===== src/Ast/Registry/Types.antt =====
-- The types of fields, the extensions and the locations of source code leave the registers alone.
use protoc_gen_star.Base.{
  Bool-cases, ◌==◌, nat_eq, Text, text_eq, get_elem?, is_some, is_some-if, lookup, insert,
  lookup-insert, ℕ, ◌≡◌, refl, ap, ◌∙◌, inl, inr, true, List, [], ◌∷◌,
}
use protoc_gen_star.Proto.{ProtoType, message_t, enum_t}
use protoc_gen_star.Ast.Descriptor.{FieldDesc, Location}
use protoc_gen_star.Ast.Entity.{Kind, message_k, enum_k, Field, Extension, MessageHead, File}
use protoc_gen_star.Ast.Graph.{
  scalar_e, enum_e, embed_e, FieldType, scalar_t, enum_ft, embed_ft, rep_t, map_t, group_type,
  out_of_range, nil_type, repeated_element, ◌>>=◌, return, need, seen_as,
}
use protoc_gen_star.Ast.Types.{
  to_elem, field_elem, message_field_type, repeated_field_type, single_field_type, is_group,
  is_repeated_label, hydrate_field_type, add_type, add_types,
}
use protoc_gen_star.Ast.SourceInfo.{
  package_path, syntax_path, Child, no_child, child, bad_index, file_child, inform, place_location,
  hydrate_source_code_info,
}
use protoc_gen_star.Ast.Process.{set_extendee, connect_extensions}
use protoc_gen_star.Ast.Registry.{
  Through, Through-step, Through-bind, Through-return, Through-fail, Through-need, Through-if,
  seen_as-Through,
}

to_elem-Through : (t : FieldType) → Through (to_elem t)
unfolding to_elem
to_elem-Through (scalar_t t) = Through-return (scalar_e t)
to_elem-Through (enum_ft e) = Through-return (enum_e e)
to_elem-Through (embed_ft m) = Through-return (embed_e m)
to_elem-Through (rep_t el) = Through-fail repeated_element
to_elem-Through (map_t k el) = Through-fail repeated_element

field_elem-Through : (m : MessageHead) (i : ℕ) → Through (field_elem m i)
unfolding field_elem
field_elem-Through m i =
    Through-bind (need out_of_range (get_elem? m.fields i)) _
      (Through-need out_of_range (λ g. get_elem? m.fields i))
      (λ f.
        Through-bind (λ g. need nil_type (lookup f.id g.types) g) _
          (Through-need nil_type (λ g. lookup f.id g.types)) to_elem-Through)

message_field_type-Through : (id : ℕ) (m : MessageHead) → Through (message_field_type id m)
unfolding message_field_type
message_field_type-Through id m =
    Through-if m.info.map_entry _ _
      (Through-bind (field_elem m 0) _ (field_elem-Through m 0) (λ key.
        Through-bind (field_elem m 1) _ (field_elem-Through m 1)
          (λ el. Through-return (map_t key el))))
      (Through-return (rep_t (embed_e id)))

seen_type-Through :
    (k : Kind) (name : Text) (f : ℕ → FieldType) → Through (seen_as k name >>= (λ e. return (f e)))
seen_type-Through k name f =
    Through-bind (seen_as k name) _ (seen_as-Through k name) (λ e. Through-return (f e))

repeated_field_type-Through : (name : Text) (t : ProtoType) → Through (repeated_field_type name t)
unfolding repeated_field_type
repeated_field_type-Through name enum_t = seen_type-Through enum_k name (λ e. rep_t (enum_e e))
repeated_field_type-Through name message_t =
    Through-bind (seen_as message_k name) _ (seen_as-Through message_k name) (λ m.
      Through-bind (λ g. need nil_type (lookup m g.messages) g) _
        (Through-need nil_type (λ g. lookup m g.messages)) (message_field_type-Through m))
repeated_field_type-Through name t = Through-return (rep_t (scalar_e t))

single_field_type-Through : (name : Text) (t : ProtoType) → Through (single_field_type name t)
unfolding single_field_type
single_field_type-Through name enum_t = seen_type-Through enum_k name enum_ft
single_field_type-Through name message_t = seen_type-Through message_k name embed_ft
single_field_type-Through name t = Through-return (scalar_t t)

hydrate_field_type-Through : (fd : FieldDesc) → Through (hydrate_field_type fd)
unfolding hydrate_field_type
hydrate_field_type-Through fd = Through-if (is_group fd.type) _ _ (Through-fail group_type) (
    Through-if (is_repeated_label fd.label) _ _ (repeated_field_type-Through fd.type_name fd.type)
      (single_field_type-Through fd.type_name fd.type))

insert-known :
    (k i : ℕ) (t : FieldType) (types : List (ℕ × FieldType))
    → is_some (lookup i types) ≡ true
    → is_some (lookup i (insert k t types)) ≡ true
insert-known k i t types x =
    ap is_some (lookup-insert k i t types)
    ∙ is_some-if (k == i) t (lookup i types)
    ∙ elim (Bool-cases (k == i)) [ inl e ↦ rw e refl | inr e ↦ rw e x ]

add_type-Through : (id : ℕ) (t : FieldType) → Through (add_type id t)
add_type-Through id t =
    Through-step (λ g. tt) _ (λ g. (refl, refl, refl, λ i x. insert-known id i t g.types x))

pub add_types-Through : (fs : List Field) → Through (add_types fs)
unfolding add_types
add_types-Through [] = Through-return tt
add_types-Through (f ∷ fs) =
    Through-bind (hydrate_field_type f.desc) _ (hydrate_field_type-Through f.desc)
      (λ t. Through-bind (add_type f.id t) _ (add_type-Through f.id t) (λ u. add_types-Through fs))

pub connect_extensions-Through : (xs : List Extension) → Through (connect_extensions xs)
unfolding connect_extensions
connect_extensions-Through [] = Through-return tt
connect_extensions-Through (x ∷ xs) =
    Through-bind (hydrate_field_type x.desc) _ (hydrate_field_type-Through x.desc) (λ t.
      Through-bind (add_type x.id t) _ (add_type-Through x.id t) (λ u.
        Through-bind (seen_as message_k x.desc.extendee) _
          (seen_as-Through message_k x.desc.extendee)
          (λ m.
            Through-bind (set_extendee x.id m) _
              (Through-step (λ g. tt) _ (λ g. (refl, refl, refl, λ i x. x)))
              (λ v. connect_extensions-Through xs))))

inform-Through : (c : Child) (loc : Location) → Through (inform c loc)
inform-Through no_child loc = Through-return tt
inform-Through (child id) loc = Through-step (λ g. tt) _ (λ g. (refl, refl, refl, λ i x. x))
inform-Through bad_index loc = Through-fail out_of_range

place_location-Through :
    (f : File) (loc : Location) (path : List ℕ) → Through (place_location f loc path)
unfolding place_location
place_location-Through f loc (k ∷ []) =
    Through-if (k == syntax_path) _ _ (Through-step (λ g. tt) _ (λ g. (refl, refl, refl, λ i x. x)))
      (Through-if (k == package_path) _ _
        (Through-step (λ g. tt) _ (λ g. (refl, refl, refl, λ i x. x))) (Through-return tt))
place_location-Through f loc [] = inform-Through (file_child f []) loc
place_location-Through f loc (k ∷ i ∷ path) = inform-Through (file_child f (k ∷ i ∷ path)) loc

pub hydrate_source_code_info-Through :
    (f : File) (locs : List Location) → Through (hydrate_source_code_info f locs)
unfolding hydrate_source_code_info
hydrate_source_code_info-Through f [] = Through-return tt
hydrate_source_code_info-Through f (loc ∷ locs) =
    Through-bind (place_location f loc loc.path) _ (place_location-Through f loc loc.path)
      (λ u. hydrate_source_code_info-Through f locs)
