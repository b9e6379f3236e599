-- ===== src/Ast/Dependents/Converse.antt =====
-- The two lists of `assignDependent`: who uses a message, and what a message uses.
use mathlib.Core.List.Memᴰ
use mathlib.Core.Option.{some-injective}
use mathlib.Core.Path.{subst}
use protoc_gen_star.Base.{
  Bool-cases, Option-cases, ◌==◌, nat_eq, text_eq, All, is_some, lookup, ℕ, ◌≡◌, refl, ap, inl, inr,
  true, Option, none, some, List, [], ◌∷◌, ◌++◌, Memᴰ,
}
use protoc_gen_star.Ast.Entity.{Field, Message, File, head_of, file_all_messages}
use protoc_gen_star.Ast.Graph.{
  scalar_e, enum_e, embed_e, FieldType, scalar_t, enum_ft, embed_ft, rep_t, map_t,
}
use protoc_gen_star.Ast.Types.{fields_of}
use protoc_gen_star.Ast.Dependents.{
  Uses, assign_dependent, assign_fields, assign_messages, assign_files,
}

-- A message is among the dependents of another if and only if that one is among its dependencies.
pub record Converse (ds es : List (ℕ × ℕ)) : Type 0 where
  pub there : (m p : ℕ) → Memᴰ (m, p) ds → Memᴰ (p, m) es
  pub back : (m p : ℕ) → Memᴰ (p, m) es → Memᴰ (m, p) ds

Converse-both :
    (ds es : List (ℕ × ℕ)) (m p : ℕ)
    → Converse ds es
    → Converse (ds ++ (m, p) ∷ []) (es ++ (p, m) ∷ [])
Converse-both ds es m p h = record {
  there = λ a b i. elim (Memᴰ.append_cases ds i) [
    | inl j ↦ Memᴰ.append_left ((p, m) ∷ []) (h.there a b j)
    | inr j ↦
        let e = Memᴰ.eq_of_singleton j in
        Memᴰ.append_right es (Memᴰ.head (ap (λ (q : ℕ × ℕ). (q.1, q.0)) e))
  ];
  back = λ a b i. elim (Memᴰ.append_cases es i) [
    | inl j ↦ Memᴰ.append_left ((m, p) ∷ []) (h.back a b j)
    | inr j ↦
        let e = Memᴰ.eq_of_singleton j in
        Memᴰ.append_right ds (Memᴰ.head (ap (λ (q : ℕ × ℕ). (q.1, q.0)) e))
  ];
}

-- A dependent that is there already.
Converse-again :
    (ds es : List (ℕ × ℕ)) (m p : ℕ)
    → Memᴰ (p, m) es
    → Converse ds es
    → Converse (ds ++ (m, p) ∷ []) es
Converse-again ds es m p known h = record {
  there = λ a b i. elim (Memᴰ.append_cases ds i) [
    | inl j ↦ h.there a b j
    | inr j ↦ let e = Memᴰ.eq_of_singleton j in Memᴰ.cast (ap (λ (q : ℕ × ℕ). (q.1, q.0)) e) known
  ];
  back = λ a b i. Memᴰ.append_left ((m, p) ∷ []) (h.back a b i);
}

-- The key of a map is no message, as protoc checks.
abbrev pub PlainKey : FieldType → Type 0
PlainKey (map_t (embed_e m) el) = ⊥
PlainKey _ = Unit

abbrev ConverseUses : Uses → Type 0
ConverseUses u = Converse u.dependents u.dependencies

last-of : (es : List (ℕ × ℕ)) (x : ℕ × ℕ) → Memᴰ x (es ++ x ∷ [])
last-of es x = Memᴰ.append_right es (Memᴰ.head refl)

Converse-twice :
    (ds es : List (ℕ × ℕ)) (m p : ℕ)
    → Converse ds es
    → Converse ((ds ++ (m, p) ∷ []) ++ (m, p) ∷ []) (es ++ (p, m) ∷ [])
Converse-twice ds es m p h =
    Converse-again (ds ++ (m, p) ∷ []) (es ++ (p, m) ∷ []) m p (last-of es (p, m))
      (Converse-both ds es m p h)

assign_dependent-Converse :
    (t : FieldType) (p : ℕ) (u : Uses)
    → PlainKey t
    → ConverseUses u
    → ConverseUses (assign_dependent t p u)
unfolding assign_dependent
assign_dependent-Converse (scalar_t t) p u plain h = h
assign_dependent-Converse (enum_ft e) p u plain h = h
assign_dependent-Converse (embed_ft m) p u plain h = Converse-both u.dependents u.dependencies m p h
assign_dependent-Converse (rep_t (scalar_e t)) p u plain h = h
assign_dependent-Converse (rep_t (enum_e e)) p u plain h = h
assign_dependent-Converse (rep_t (embed_e m)) p u plain h =
    Converse-both u.dependents u.dependencies m p h
assign_dependent-Converse (map_t (scalar_e s) (scalar_e t)) p u plain h = h
assign_dependent-Converse (map_t (scalar_e s) (enum_e e)) p u plain h = h
assign_dependent-Converse (map_t (scalar_e s) (embed_e m)) p u plain h =
    Converse-twice u.dependents u.dependencies m p h
assign_dependent-Converse (map_t (enum_e k) (scalar_e t)) p u plain h = h
assign_dependent-Converse (map_t (enum_e k) (enum_e e)) p u plain h = h
assign_dependent-Converse (map_t (enum_e k) (embed_e m)) p u plain h =
    Converse-twice u.dependents u.dependencies m p h
assign_dependent-Converse (map_t (embed_e k) el) p u plain h = absurd plain

-- Every field of these messages has a type.
abbrev pub Typed : List (ℕ × FieldType) → List Message → Type 0
Typed types ms = All (λ m. All (λ (f : Field). is_some (lookup f.id types) ≡ true) (fields_of m)) ms

-- No type is a map from messages.
abbrev pub PlainKeys : List (ℕ × FieldType) → Type 0
PlainKeys types = All (λ p. PlainKey p.1) types

lookup-PlainKey :
    (types : List (ℕ × FieldType)) (i : ℕ) (t : FieldType)
    → PlainKeys types
    → lookup i types ≡ some t
    → PlainKey t
unfolding lookup
lookup-PlainKey [] i t h e = cc e
lookup-PlainKey ((j, s) ∷ types) i t (h, hs) e = elim (Bool-cases (j == i)) [
  | inl eq ↦ subst PlainKey (some-injective s t (rw eq at e)) h
  | inr ne ↦ lookup-PlainKey types i t hs (rw ne at e)
]

-- The loop ends and the lists are converse.
abbrev pub EndsConverse : Option Uses → Type 0
EndsConverse r = (u : Uses) × (r ≡ some u) × Converse u.dependents u.dependencies

EndsConverse-then :
    (r : Option Uses) (k : Uses → Option Uses)
    → EndsConverse r
    → ((u : Uses) → ConverseUses u → EndsConverse (k u))
    → EndsConverse (elim r [ none ↦ none | some u ↦ k u ])
EndsConverse-then r k (u, e, h) hk = let (v, e', h') = hk u h in (v, rw e e', h')

module _ (types : List (ℕ × FieldType)) (plain : PlainKeys types) where
  assign_fields-Converse :
      (m : ℕ) (fs : List Field) (u : Uses)
      → All (λ (f : Field). is_some (lookup f.id types) ≡ true) fs
      → ConverseUses u
      → EndsConverse (assign_fields types m fs u)
  unfolding assign_fields
  assign_fields-Converse m [] u t h = (u, refl, h)
  assign_fields-Converse m (f ∷ fs) u (t, ts) h = elim (Option-cases (lookup f.id types)) [
    | inl e ↦ cc (ap is_some e, t)
    | inr (ft, e) ↦
        rw (e, assign_fields)
          (assign_fields-Converse m fs (assign_dependent ft m u) ts
            (assign_dependent-Converse ft m u (lookup-PlainKey types f.id ft plain e) h))
  ]

  assign_messages-Converse :
      (ms : List Message) (u : Uses)
      → Typed types ms
      → ConverseUses u
      → EndsConverse (assign_messages types ms u)
  unfolding assign_messages
  assign_messages-Converse [] u t h = (u, refl, h)
  assign_messages-Converse (m ∷ ms) u (t, ts) h =
      EndsConverse-then (assign_fields types (head_of m).id (fields_of m) u) _
        (assign_fields-Converse (head_of m).id (fields_of m) u t h)
        (λ v hv. assign_messages-Converse ms v ts hv)

  -- If every field of the messages of these files has a type, and no type is a map from messages,
  -- the loops of `ProcessCodeGeneratorRequestBidirectional` end without a panic, and where a
  -- message was among the dependents of another if and only if that one was among its
  -- dependencies, so it is after them.
  pub assign_files-Converse :
      (fs : List File) (u : Uses)
      → All (λ (f : File). Typed types (file_all_messages f.msgs)) fs
      → Converse u.dependents u.dependencies
      → (v : Uses) × (assign_files types fs u ≡ some v) × Converse v.dependents v.dependencies
  unfolding assign_files
  assign_files-Converse [] u t h = (u, refl, h)
  assign_files-Converse (f ∷ fs) u (t, ts) h =
      EndsConverse-then (assign_messages types (file_all_messages f.msgs) u) _
        (assign_messages-Converse (file_all_messages f.msgs) u t h)
        (λ v hv. assign_files-Converse fs v ts hv)
