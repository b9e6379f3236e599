-- ===== src/Ast/Keeps.antt =====
-- The computations that leave the entities alone: a name that is looked up, the type of a field,
-- and the loops on them.
use protoc_gen_star.Base.{
  if◌then◌else◌, ◌==◌, nat_eq, Text, text_eq, get_elem?, lookup, ℕ, sym, ap, Bool, true, false,
  Option, none, some, List, [], ◌∷◌,
}
use protoc_gen_star.Proto.{ProtoType, message_t, enum_t}
use protoc_gen_star.Ast.Descriptor.{FieldDesc, Location}
use protoc_gen_star.Ast.Entity.{
  Kind, file_k, message_k, enum_k, Field, Extension, MessageHead, File,
}
use protoc_gen_star.Ast.Graph.{
  scalar_e, enum_e, embed_e, FieldType, scalar_t, enum_ft, embed_ft, rep_t, map_t, Package, Graph,
  Fault, not_seen, group_type, wrong_kind, out_of_range, nil_type, repeated_element, Hydration,
  ◌>>=◌, return, fail, need, must_seen, same_kind, seen_as,
}
use protoc_gen_star.Ast.SourceInfo.{
  package_path, syntax_path, Child, no_child, child, bad_index, file_child, inform, place_location,
  hydrate_source_code_info,
}
use protoc_gen_star.Ast.Types.{
  to_elem, field_elem, message_field_type, repeated_field_type, single_field_type, is_group,
  is_repeated_label, hydrate_field_type, add_type, add_types,
}
use protoc_gen_star.Ast.Process.{
  new_package, hydrate_package, add_dependent, hydrate_dependencies, set_target, mark_target,
  add_to_package, add_file, set_extendee, connect_extensions,
}
use protoc_gen_star.Ast.Leads.{done_graph, Keeps, Keeps-bind}

pub Keeps-return {ℓ} : {A : Type ℓ} (a : A) → Keeps (return a)
Keeps-return a g g' b h = ap (λ (x : Graph). x.entities) (sym (done_graph h))

pub Keeps-fail {ℓ} : {A : Type ℓ} (e : Fault) → Keeps {A = A} (fail e)
Keeps-fail e g g' b h = cc

pub Keeps-need {ℓ} : {A : Type ℓ} (e : Fault) (o : Option A) → Keeps (need e o)
Keeps-need e none g g' b h = cc
Keeps-need e (some a) g g' b h = Keeps-return a g g' b h

pub Keeps-if {ℓ} :
    {A : Type ℓ} (c : Bool) (m n : Hydration A) → Keeps m → Keeps n → Keeps (if c then m else n)
Keeps-if true m n hm hn = hm
Keeps-if false m n hm hn = hn

pub seen_as-Keeps : (k : Kind) (name : Text) → Keeps (seen_as k name)
seen_as-Keeps k name =
    Keeps-bind (must_seen name) _ (λ g. Keeps-need (not_seen name) (lookup name g.entities) g)
      (λ r. Keeps-if (same_kind r.kind k) _ _ (Keeps-return r.id) (Keeps-fail wrong_kind))

to_elem-Keeps : (t : FieldType) → Keeps (to_elem t)
unfolding to_elem
to_elem-Keeps (scalar_t t) = Keeps-return (scalar_e t)
to_elem-Keeps (enum_ft e) = Keeps-return (enum_e e)
to_elem-Keeps (embed_ft m) = Keeps-return (embed_e m)
to_elem-Keeps (rep_t el) = Keeps-fail repeated_element
to_elem-Keeps (map_t k el) = Keeps-fail repeated_element

field_elem-Keeps : (m : MessageHead) (i : ℕ) → Keeps (field_elem m i)
unfolding field_elem
field_elem-Keeps m i =
    Keeps-bind (need out_of_range (get_elem? m.fields i)) _
      (Keeps-need out_of_range (get_elem? m.fields i))
      (λ f.
        Keeps-bind (λ g. need nil_type (lookup f.id g.types) g) _
          (λ g. Keeps-need nil_type (lookup f.id g.types) g) to_elem-Keeps)

message_field_type-Keeps : (id : ℕ) (m : MessageHead) → Keeps (message_field_type id m)
unfolding message_field_type
message_field_type-Keeps id m =
    Keeps-if m.info.map_entry _ _
      (Keeps-bind (field_elem m 0) _ (field_elem-Keeps m 0) (λ key.
        Keeps-bind (field_elem m 1) _ (field_elem-Keeps m 1) (λ el. Keeps-return (map_t key el))))
      (Keeps-return (rep_t (embed_e id)))

seen_type-Keeps :
    (k : Kind) (name : Text) (f : ℕ → FieldType) → Keeps (seen_as k name >>= (λ e. return (f e)))
seen_type-Keeps k name f =
    Keeps-bind (seen_as k name) _ (seen_as-Keeps k name) (λ e. Keeps-return (f e))

repeated_field_type-Keeps : (name : Text) (t : ProtoType) → Keeps (repeated_field_type name t)
unfolding repeated_field_type
repeated_field_type-Keeps name enum_t = seen_type-Keeps enum_k name (λ e. rep_t (enum_e e))
repeated_field_type-Keeps name message_t =
    Keeps-bind (seen_as message_k name) _ (seen_as-Keeps message_k name) (λ m.
      Keeps-bind (λ g. need nil_type (lookup m g.messages) g) _
        (λ g. Keeps-need nil_type (lookup m g.messages) g) (message_field_type-Keeps m))
repeated_field_type-Keeps name t = Keeps-return (rep_t (scalar_e t))

single_field_type-Keeps : (name : Text) (t : ProtoType) → Keeps (single_field_type name t)
unfolding single_field_type
single_field_type-Keeps name enum_t = seen_type-Keeps enum_k name enum_ft
single_field_type-Keeps name message_t = seen_type-Keeps message_k name embed_ft
single_field_type-Keeps name t = Keeps-return (scalar_t t)

pub hydrate_field_type-Keeps : (fd : FieldDesc) → Keeps (hydrate_field_type fd)
unfolding hydrate_field_type
hydrate_field_type-Keeps fd = Keeps-if (is_group fd.type) _ _ (Keeps-fail group_type) (
    Keeps-if (is_repeated_label fd.label) _ _ (repeated_field_type-Keeps fd.type_name fd.type)
      (single_field_type-Keeps fd.type_name fd.type))

pub add_types-Keeps : (fs : List Field) → Keeps (add_types fs)
unfolding add_types
add_types-Keeps [] = Keeps-return tt
add_types-Keeps (f ∷ fs) =
    Keeps-bind (hydrate_field_type f.desc) _ (hydrate_field_type-Keeps f.desc) (λ t.
      Keeps-bind (add_type f.id t) _
        (λ g g' u h. ap (λ (x : Graph). x.entities) (sym (done_graph h))) (λ u. add_types-Keeps fs))

pub hydrate_dependencies-Keeps : (f : ℕ) (deps : List Text) → Keeps (hydrate_dependencies f deps)
unfolding hydrate_dependencies
hydrate_dependencies-Keeps f [] = Keeps-return []
hydrate_dependencies-Keeps f (dep ∷ deps) =
    Keeps-bind (seen_as file_k dep) _ (seen_as-Keeps file_k dep) (λ d.
      Keeps-bind (add_dependent d f) _
        (λ g g' u h. ap (λ (x : Graph). x.entities) (sym (done_graph h)))
        (λ u.
          Keeps-bind (hydrate_dependencies f deps) _ (hydrate_dependencies-Keeps f deps)
            (λ ds. Keeps-return (d ∷ ds))))

set_target-Keeps : (name : Text) (id : ℕ) (t : Option (Option ℕ)) → Keeps (set_target name id t)
set_target-Keeps name id none g g' b h = ap (λ (x : Graph). x.entities) (sym (done_graph h))
set_target-Keeps name id (some t) g g' b h = ap (λ (x : Graph). x.entities) (sym (done_graph h))

pub mark_target-Keeps : (name : Text) (id : ℕ) → Keeps (mark_target name id)
mark_target-Keeps name id g = set_target-Keeps name id (lookup name g.targets) g

new_package-Keeps : (name : Text) (p : Option Package) → Keeps (new_package name p)
new_package-Keeps name none g g' b h = ap (λ (x : Graph). x.entities) (sym (done_graph h))
new_package-Keeps name (some p) g g' b h = ap (λ (x : Graph). x.entities) (sym (done_graph h))

pub hydrate_package-Keeps : (name : Text) → Keeps (hydrate_package name)
hydrate_package-Keeps name g = new_package-Keeps name (lookup name g.packages) g

add_to_package-Keeps :
    (name : Text) (fl : File) (p : Option Package) → Keeps (add_to_package name fl p)
add_to_package-Keeps name fl none g g' b h = cc
add_to_package-Keeps name fl (some p) g g' b h = ap (λ (x : Graph). x.entities) (sym (done_graph h))

pub add_file-Keeps : (name : Text) (fl : File) → Keeps (add_file name fl)
add_file-Keeps name fl g = add_to_package-Keeps name fl (lookup name g.packages) g

pub connect_extensions-Keeps : (xs : List Extension) → Keeps (connect_extensions xs)
unfolding connect_extensions
connect_extensions-Keeps [] = Keeps-return tt
connect_extensions-Keeps (x ∷ xs) =
    Keeps-bind (hydrate_field_type x.desc) _ (hydrate_field_type-Keeps x.desc) (λ t.
      Keeps-bind (add_type x.id t) _
        (λ g g' u h. ap (λ (x : Graph). x.entities) (sym (done_graph h)))
        (λ u.
          Keeps-bind (seen_as message_k x.desc.extendee) _ (seen_as-Keeps message_k x.desc.extendee)
            (λ m.
              Keeps-bind (set_extendee x.id m) _
                (λ g g' u h. ap (λ (x : Graph). x.entities) (sym (done_graph h)))
                (λ v. connect_extensions-Keeps xs))))

inform-Keeps : (c : Child) (loc : Location) → Keeps (inform c loc)
inform-Keeps no_child loc g g' u h = Keeps-return tt g g' u h
inform-Keeps (child id) loc g g' u h = ap (λ (x : Graph). x.entities) (sym (done_graph h))
inform-Keeps bad_index loc g g' u h = Keeps-fail {A = Unit} out_of_range g g' u h

place_location-Keeps :
    (f : File) (loc : Location) (path : List ℕ) → Keeps (place_location f loc path)
unfolding place_location
place_location-Keeps f loc (k ∷ []) =
    Keeps-if (k == syntax_path) _ _
      (λ g g' u h. ap (λ (x : Graph). x.entities) (sym (done_graph h)))
      (Keeps-if (k == package_path) _ _
        (λ g g' u h. ap (λ (x : Graph). x.entities) (sym (done_graph h))) (Keeps-return tt))
place_location-Keeps f loc [] = inform-Keeps (file_child f []) loc
place_location-Keeps f loc (k ∷ i ∷ path) = inform-Keeps (file_child f (k ∷ i ∷ path)) loc

pub hydrate_source_code_info-Keeps :
    (f : File) (locs : List Location) → Keeps (hydrate_source_code_info f locs)
unfolding hydrate_source_code_info
hydrate_source_code_info-Keeps f [] = Keeps-return tt
hydrate_source_code_info-Keeps f (loc ∷ locs) =
    Keeps-bind (place_location f loc loc.path) _ (place_location-Keeps f loc loc.path)
      (λ u. hydrate_source_code_info-Keeps f locs)
