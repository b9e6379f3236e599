-- ===== src/Ast/Presence/Partition.antt =====
-- The fields of a message by their oneofs.
use mathlib.Core.List.Perm
use mathlib.Core.List.{Perm, perm_middle}
use mathlib.Core.Path.{subst}
use protoc_gen_star.Ast.Leads.{done_value, bind-eq-done}
use protoc_gen_star.Ast.Graph.{Graph, out_of_range, done, need}
use protoc_gen_star.Base.{
  if◌then◌else◌, Text, is_some, ℕ, zero, suc, ◌≡◌, sym, ap, Option, none, some, List, [], ◌∷◌, ◌++◌,
  append_assoc,
}
use protoc_gen_star.Ast.Descriptor.{FieldDesc}
use protoc_gen_star.Ast.Entity.{Field, Oneof}
use protoc_gen_star.Ast.Hydrate.{hydrate_field, add_field, join_oneof, hydrate_fields}
use protoc_gen_star.Ast.Presence.{non_oneof_fields, oneof_fields}

-- What `addField` of a oneof leaves: one more field in the oneofs.
abbrev AddsOne : Field → List Oneof → Option (List Oneof) → Type 0
AddsOne f os none = Unit
AddsOne f os (some os') = Perm (oneof_fields os') (f ∷ oneof_fields os)

AddsOne-cons :
    (f : Field) (o : Oneof) (os : List Oneof) (r : Option (List Oneof))
    → AddsOne f os r
    → AddsOne f (o ∷ os) (elim r [ none ↦ none | some os' ↦ some (o ∷ os') ])
unfolding oneof_fields
AddsOne-cons f o os none h = tt
AddsOne-cons f o os (some os') h =
    Perm.trans (Perm.append_left o.flds h) (perm_middle o.flds (oneof_fields os))

add_field-AddsOne : (i : ℕ) (f : Field) (os : List Oneof) → AddsOne f os (add_field i f os)
unfolding add_field oneof_fields
add_field-AddsOne i f [] = tt
add_field-AddsOne zero f (o ∷ os) =
    subst (λ l. Perm l (f ∷ (o.flds ++ oneof_fields os)))
      (sym (append_assoc o.flds (f ∷ []) (oneof_fields os))) (perm_middle o.flds (oneof_fields os))
add_field-AddsOne (suc i) f (o ∷ os) =
    AddsOne-cons f o os (add_field i f os) (add_field-AddsOne i f os)

non_oneof_fields-cons :
    (f : Field) (fs : List Field) (o : Option ℕ)
    → f.oneof ≡ o
    → non_oneof_fields (f ∷ fs)
      ≡ (if is_some o then non_oneof_fields fs else f ∷ non_oneof_fields fs)
unfolding non_oneof_fields
non_oneof_fields-cons f fs o h =
    ap (λ i. if is_some i then non_oneof_fields fs else f ∷ non_oneof_fields fs) h

-- The oneofs and the fields of the rest of the loop, and of the loop from one field earlier.
join_oneof-Perm :
    (o : Option ℕ) (f : Field) (os os₁ os' : List Oneof) (fs : List Field) (g g' : Graph)
    → f.oneof ≡ o
    → join_oneof o f os g ≡ done os₁ g'
    → Perm (oneof_fields os' ++ non_oneof_fields fs) (oneof_fields os₁ ++ fs)
    → Perm (oneof_fields os' ++ non_oneof_fields (f ∷ fs)) (oneof_fields os ++ f ∷ fs)
unfolding join_oneof
join_oneof-Perm none f os os₁ os' fs g g' e h hp = rw (non_oneof_fields-cons f fs none e) (
    Perm.trans (perm_middle (oneof_fields os') (non_oneof_fields fs)) (
      Perm.trans
        (Perm.cons f (
          subst (λ l. Perm (oneof_fields os' ++ non_oneof_fields fs) (oneof_fields l ++ fs))
            (sym (done_value h)) hp))
        (Perm.symm (perm_middle (oneof_fields os) fs))))
join_oneof-Perm (some i) f os os₁ os' fs g g' e h hp = rw (non_oneof_fields-cons f fs (some i) e) (
    Perm.trans hp (
      Perm.trans (Perm.append_right fs (added (add_field i f os) h (add_field-AddsOne i f os)))
        (Perm.symm (perm_middle (oneof_fields os) fs))))
  where
    added :
        (r : Option (List Oneof))
        → need out_of_range r g ≡ done os₁ g'
        → AddsOne f os r
        → Perm (oneof_fields os₁) (f ∷ oneof_fields os)
    added none h one = cc h
    added (some l) h one =
        subst (λ k. Perm (oneof_fields k) (f ∷ oneof_fields os)) (done_value h) one

hydrate_field-oneof :
    (p : Text) (fd : FieldDesc) (g g' : Graph) (f : Field)
    → hydrate_field p fd g ≡ done f g'
    → f.oneof ≡ fd.oneof_index
unfolding hydrate_field
hydrate_field-oneof p fd g g' f h = ap Field.oneof (sym (done_value h))

pub hydrate_fields-Perm :
    (p : Text) (fds : List FieldDesc) (os : List Oneof) (g g' : Graph) (r : List Field × List Oneof)
    → hydrate_fields p fds os g ≡ done r g'
    → Perm (oneof_fields r.1 ++ non_oneof_fields r.0) (oneof_fields os ++ r.0)
unfolding hydrate_fields non_oneof_fields
hydrate_fields-Perm p [] os g g' r h =
    subst
      (λ (q : List Field × List Oneof).
        Perm (oneof_fields q.1 ++ non_oneof_fields q.0) (oneof_fields os ++ q.0))
      (done_value h) (Perm.refl _)
hydrate_fields-Perm p (fd ∷ fds) os g g' r h =
    let (f, g₁, e₁, h₁) = bind-eq-done (hydrate_field p fd g) _ h in
    let (os₁, g₂, e₂, h₂) = bind-eq-done (join_oneof fd.oneof_index f os g₁) _ h₁ in
    let (rest, g₃, e₃, h₃) = bind-eq-done (hydrate_fields p fds os₁ g₂) _ h₂ in
    subst
      (λ (q : List Field × List Oneof).
        Perm (oneof_fields q.1 ++ non_oneof_fields q.0) (oneof_fields os ++ q.0))
      (done_value h₃)
      (join_oneof-Perm fd.oneof_index f os os₁ rest.1 rest.0 g₁ g₂
        (hydrate_field-oneof p fd g g₁ f e₁) e₂ (hydrate_fields-Perm p fds os₁ g₂ g₃ rest e₃))
