-- ===== src/Ast/Transitive/Listed.antt =====
-- Which imports of a file are listed at all: the first loops of `UnusedImports` of file.go.
use mathlib.Core.List.Memᴰ
use mathlib.Core.Path.{subst}
use protoc_gen_star.Base.{
  if◌then◌else◌, Bool-cases, ◌==◌, nat_eq, Text, text_eq, get_elem?, lookup, insert, ℕ, zero, suc,
  ◌+◌, ◌≡◌, refl, sym, ap, ◌∙◌, ◌↔◌, ◌⊎◌, inl, inr, Bool, true, false, ◌||◌, some, List, [], ◌∷◌,
  Memᴰ, arith,
}
use protoc_gen_star.Ast.Transitive.{Files, is_public, private_imports}
use protoc_gen_star.Ast.Transitive.Unused.{has, has-insert}

pub or-true : (a b : Bool) → ((a || b) ≡ true) ↔ ((a ≡ true) ⊎ (b ≡ true))
or-true true b = (λ h. inl refl, λ h. refl)
or-true false b = (λ h. inr h, λ h. elim h [ inl e ↦ cc e | inr e ↦ e ])

absent : (is : List ℕ) (m n : ℕ) → m ≡ n → (Memᴰ m is → ⊥) → Memᴰ n is → ⊥
absent is m n e = subst (λ j. Memᴰ j is → ⊥) e

module _ (name : ℕ → Text) (k : Text) where
  -- An import of the name `k` stands at an index that is not among the public ones.
  abbrev pub Private : List ℕ → List ℕ → Type 0
  Private public deps =
      (i : ℕ) × (f : ℕ) × (get_elem? deps i ≡ some f) × (name f ≡ k) × (Memᴰ i public → ⊥)

module _ (file_of : ℕ → ℕ) (name : ℕ → Text) (k : Text) where
  is_public-Memᴰ : (i : ℕ) (js : List ℕ) → (is_public i js ≡ true) ↔ Memᴰ i js
  is_public-Memᴰ i [] = (λ e. cc e, λ h. absurd (Memᴰ.not-nil h))
  is_public-Memᴰ i (j ∷ js) =
      let (there, back) = is_public-Memᴰ i js in
      let split = or-true (j == i) (is_public i js) in
      (
        λ e. elim (split.0 e) [
          | inl e ↦ Memᴰ.head (sym ((nat_eq.beq_iff j i).0 e))
          | inr e ↦ Memᴰ.tail (there e)
        ],
        λ h. elim (Memᴰ.cases_cons h) [
          | inl e ↦ split.1 (inl ((nat_eq.beq_iff j i).1 (sym e)))
          | inr h ↦ split.1 (inr (back h))
        ],
      )

  -- One more import, at this index.
  entered :
      (public : List ℕ) (i f : ℕ) (m : Files)
      → (has k (if is_public i public then m else insert (name f) f m) ≡ true)
        ↔ ((has k m ≡ true) ⊎ ((name f ≡ k) × (Memᴰ i public → ⊥)))
  entered public i f m = elim (Bool-cases (is_public i public)) [
    | inl e ↦ rw e (
      λ h. inl h,
      λ h. elim h [ inl h ↦ h | inr (q, away) ↦ absurd (away ((is_public-Memᴰ i public).0 e)) ],
    )
    | inr e ↦
        let away : Memᴰ i public → ⊥ = λ h. cc (e, (is_public-Memᴰ i public).1 h) in
        let same = text_eq.beq_iff (name f) k in
        let split = or-true (name f == k) (has k m) in
        rw (e, has-insert k (name f) f m)
          (
            λ h. elim (split.0 h) [ inl q ↦ inr (same.0 q, away) | inr h ↦ inl h ],
            λ h. elim h [ inl h ↦ split.1 (inr h) | inr (q, _) ↦ split.1 (inl (same.1 q)) ],
          )
  ]

  -- An import of the name `k` that is not public, where the indices count from this one.
  abbrev PrivateFrom : ℕ → List ℕ → List ℕ → Type 0
  PrivateFrom i public deps =
      (j : ℕ) × (f : ℕ) × (get_elem? deps j ≡ some f) × (name f ≡ k) × (Memᴰ (j + i) public → ⊥)

  private_imports-PrivateFrom :
      (public : List ℕ) (i : ℕ) (deps : List ℕ) (m : Files)
      → (has k (private_imports file_of name public i deps m) ≡ true)
        ↔ ((has k m ≡ true) ⊎ PrivateFrom i public deps)
  unfolding private_imports
  private_imports-PrivateFrom public i [] m =
      (λ h. inl h, λ h. elim h [ inl h ↦ h | inr (j, f, e, q, away) ↦ cc e ])
  private_imports-PrivateFrom public i (f ∷ fs) m =
      let (there, back) = private_imports-PrivateFrom public (suc i) fs _ in
      let enter = entered public i f m in
      (
        λ h. elim (there h) [
          | inl h ↦ elim (enter.0 h) [
            | inl h ↦ inl h
            | inr (q, away) ↦ inr (0, f, refl, q, absent public _ _ (omega arith) away)
          ]
          | inr (j, g, e, q, away) ↦ inr (suc j, g, e, q, absent public _ _ (omega arith) away)
        ],
        λ h. elim h [
          | inl h ↦ back (inl (enter.1 (inl h)))
          | inr (zero, g, e, q, away) ↦
              back (inl (enter.1 (inr (ap name (cc e) ∙ q, absent public _ _ (omega arith) away))))
          | inr (suc j, g, e, q, away) ↦
              back (inr (j, g, e, q, absent public _ _ (omega arith) away))
        ],
      )

  none_there : has k [] ≡ true → ⊥
  unfolding lookup
  none_there h = cc h

  pub private_imports-Private :
      (public deps : List ℕ)
      → (has k (private_imports file_of name public 0 deps []) ≡ true) ↔ Private name k public deps
  private_imports-Private public deps =
      let (there, back) = private_imports-PrivateFrom public 0 deps [] in
      (
        λ h. elim (there h) [
          | inl h ↦ absurd (none_there h)
          | inr (j, f, e, q, away) ↦ (j, f, e, q, absent public _ _ (omega arith) away)
        ],
        λ (j, f, e, q, away). back (inr (j, f, e, q, absent public _ _ (omega arith) away)),
      )
