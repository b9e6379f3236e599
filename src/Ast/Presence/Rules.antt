-- ===== src/Ast/Presence/Rules.antt =====
-- Which fields have presence, and which oneofs are synthetic.
use mathlib.Core.List.Perm
use mathlib.Core.List.{Perm, perm_append_comm}
use mathlib.Core.Path.{subst}
use protoc_gen_star.Base.{
  if◌then◌else◌, Bool-cases, ◌==◌, nat_eq, Text, text_eq, All, All-append, ◌≡◌, refl, sym, ap, ◌∙◌,
  ◌⊎◌, inl, inr, Bool, true, false, not, ◌&&◌, ◌||◌, some, List, [], ◌∷◌, ◌++◌, append_assoc,
}
use protoc_gen_star.Proto.{proto2, proto3}
use protoc_gen_star.Ast.Entity.{Field, Oneof}
use protoc_gen_star.Ast.Graph.{FieldType, scalar_t, enum_ft, embed_ft, rep_t, map_t}
use protoc_gen_star.Ast.Presence.{
  is_embed, is_repeated, is_map, in_oneof, in_real_oneof, has_presence, lone_optional, is_synthetic,
  oneof_fields, synthetic_oneof_fields, real_oneofs,
}

-- A type that holds one value.
abbrev pub is_singular : FieldType → Bool
is_singular (rep_t el) = false
is_singular (map_t k el) = false
is_singular _ = true

-- The presence of a field of a message of this syntax, from what its type and descriptor say.
abbrev pub tracked : Text → FieldType → Field → Bool
tracked syntax t f = in_oneof f || (is_embed t || (syntax == proto2 && is_singular t))

-- The cascade of `HasPresence`.
cascade :
    (o e single q : Bool)
    → (if o then some true else if e then some true else if single then some q else some false)
      ≡ some (o || (e || (q && single)))
cascade true e single q = refl
cascade false true single q = refl
cascade false false true true = refl
cascade false false true false = refl
cascade false false false true = refl
cascade false false false false = refl

is_singular-not : (t : FieldType) → (not (is_repeated t) && not (is_map t)) ≡ is_singular t
is_singular-not (scalar_t k) = refl
is_singular-not (enum_ft e) = refl
is_singular-not (embed_ft m) = refl
is_singular-not (rep_t el) = refl
is_singular-not (map_t k el) = refl

proto2-presence :
    (t : FieldType) (f : Field) → has_presence (some proto2) t f ≡ some (tracked proto2 t f)
unfolding has_presence
proto2-presence t f =
    cascade (in_oneof f) (is_embed t) (not (is_repeated t) && not (is_map t)) true
    ∙ ap (λ s. some (in_oneof f || (is_embed t || s))) (is_singular-not t)

proto3-presence :
    (t : FieldType) (f : Field)
    → (f.desc.proto3_optional ≡ true → in_oneof f ≡ true)
    → has_presence (some proto3) t f ≡ some (tracked proto3 t f)
unfolding has_presence
proto3-presence t f keyword =
    cascade (in_oneof f) (is_embed t) (not (is_repeated t) && not (is_map t)) f.desc.proto3_optional
    ∙ elim (Bool-cases (in_oneof f)) [
      | inl e ↦ rw e refl
      | inr e ↦ elim (Bool-cases f.desc.proto3_optional) [
        | inl q ↦ cc (keyword q, e)
        | inr q ↦ rw (e, q) refl
      ]
    ]

-- If a field with the optional keyword of proto3 is in a oneof, as protoc puts it into one, a field
-- of a proto2 or proto3 message has presence if and only if it is in a oneof, is a message by
-- itself, or is neither repeated nor a map in proto2.
pub has_presence-Tracked :
    (syntax : Text) (t : FieldType) (f : Field)
    → (syntax ≡ proto2) ⊎ (syntax ≡ proto3)
    → (f.desc.proto3_optional ≡ true → in_oneof f ≡ true)
    → has_presence (some syntax) t f
      ≡ some (in_oneof f || (is_embed t || (syntax == proto2 && is_singular t)))
has_presence-Tracked syntax t f (inl e) keyword = rw e (proto2-presence t f)
has_presence-Tracked syntax t f (inr e) keyword = rw e (proto3-presence t f keyword)

non_real :
    (syntax : Text) (o : Oneof)
    → is_synthetic syntax o ≡ true
    → All (λ f. in_real_oneof f ≡ false) o.flds
unfolding is_synthetic
non_real syntax o h = lone o.flds (and_right (syntax == proto3) (lone_optional o.flds) h)
  where
    and_right : (a b : Bool) → (a && b) ≡ true → b ≡ true
    and_right true b e = e
    and_right false b e = cc e

    lone : (fs : List Field) → lone_optional fs ≡ true → All (λ f. in_real_oneof f ≡ false) fs
    lone [] e = tt
    lone (f ∷ []) e =
        (elim (Bool-cases (in_real_oneof f)) [ inl r ↦ cc (e, ap not r) | inr r ↦ r ], tt)
    lone (f ∷ f' ∷ fs) e = cc e

append_swap : {A : Type 0} (xs ys zs : List A) → Perm (xs ++ (ys ++ zs)) (ys ++ (xs ++ zs))
append_swap xs ys zs =
    subst (λ l. Perm l (ys ++ (xs ++ zs))) (append_assoc xs ys zs)
      (subst (Perm ((xs ++ ys) ++ zs)) (append_assoc ys xs zs)
        (Perm.append_right zs (perm_append_comm xs ys)))

-- The fields in synthetic oneofs and those in real ones are the fields in oneofs, each of them
-- once, and none in a synthetic oneof counts as being in a real one.
pub synthetic_oneof_fields-Perm :
    (syntax : Text) (os : List Oneof)
    → Perm
        (synthetic_oneof_fields syntax os ++ oneof_fields (real_oneofs syntax os))
        (oneof_fields os)
      × All (λ f. in_real_oneof f ≡ false) (synthetic_oneof_fields syntax os)
unfolding synthetic_oneof_fields oneof_fields real_oneofs
synthetic_oneof_fields-Perm syntax [] = (Perm.refl [], tt)
synthetic_oneof_fields-Perm syntax (o ∷ os) =
    let (parts, below) = synthetic_oneof_fields-Perm syntax os in
    elim (Bool-cases (is_synthetic syntax o)) [
      | inl e ↦ rw e (
        subst (λ l. Perm l (o.flds ++ oneof_fields os))
            (sym (
              append_assoc o.flds (synthetic_oneof_fields syntax os)
                (oneof_fields (real_oneofs syntax os))))
            (Perm.append_left o.flds parts),
        All-append _ o.flds (synthetic_oneof_fields syntax os) (non_real syntax o e) below,
      )
      | inr e ↦ rw e (
        Perm.trans
            (append_swap (synthetic_oneof_fields syntax os) o.flds
              (oneof_fields (real_oneofs syntax os)))
            (Perm.append_left o.flds parts),
        below,
      )
    ]
