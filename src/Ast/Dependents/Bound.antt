-- ===== src/Ast/Dependents/Bound.antt =====
-- How deep the calls of `populateDependentsCache` go: each one on a message without a cache gives
-- it one, so there are no more than there are messages.
use mathlib.Core.List.Memᴰ
use protoc_gen_star.Base.{
  if◌then◌else◌, Option-cases, ◌==◌, nat_eq, Text, text_eq, beq_refl, length, is_some, is_some-if,
  lookup, insert, lookup-insert, ℕ, zero, suc, ◌≤◌, ◌<◌, ◌≡◌, refl, ap, ◌∙◌, ◌⊎◌, inl, inr, Bool,
  true, false, Option, none, some, List, [], ◌∷◌, Memᴰ, arith,
}
use protoc_gen_star.Ast.Dependents.Steps.{populate_cache-some, populate_cache-none}
use protoc_gen_star.Ast.Dependents.{
  Names, Caches, direct, cache_of, set_name, copy_names, fill, populate_cache,
}

abbrev pub has_cache : ℕ → Caches → Bool
has_cache m c = is_some (lookup m c)

-- The uses whose second message has no cache.
abbrev missing : List (ℕ × ℕ) → Caches → ℕ
missing [] c = 0
missing ((a, b) ∷ us) c = if has_cache b c then missing us c else suc (missing us c)

missing-length : (us : List (ℕ × ℕ)) (c : Caches) → missing us c ≤ length us
missing-length [] c = omega arith
missing-length ((a, b) ∷ us) c = ground (arith, missing-length us c)

pub has_cache-insert :
    (m : ℕ) (ns : Names) (c : Caches) (x : ℕ)
    → has_cache x (insert m ns c) ≡ (if m == x then true else has_cache x c)
has_cache-insert m ns c x =
    ap is_some (lookup-insert m x ns c) ∙ is_some-if (m == x) ns (lookup x c)

missing-insert :
    (us : List (ℕ × ℕ)) (m : ℕ) (ns : Names) (c : Caches)
    → missing us (insert m ns c) ≤ missing us c
missing-insert [] m ns c = omega arith
missing-insert ((a, b) ∷ us) m ns c =
    rw (has_cache-insert m ns c b) ground (arith, missing-insert us m ns c)

direct_cases :
    (us : List (ℕ × ℕ)) (a b m x : ℕ)
    → Memᴰ m (direct ((a, b) ∷ us) x)
    → (m ≡ b) ⊎ Memᴰ m (direct us x)
direct_cases us a b m x i =
    elim (a == x)
        as (λ t.
          Memᴰ m (if t then b ∷ direct us x else direct us x) → (m ≡ b) ⊎ Memᴰ m (direct us x)) [
            | true ↦ Memᴰ.cases_cons
            | false ↦ inr
          ]
      i

missing-insert_new :
    (us : List (ℕ × ℕ)) (m : ℕ) (ns : Names) (c : Caches) (x : ℕ)
    → Memᴰ m (direct us x)
    → has_cache m c ≡ false
    → missing us (insert m ns c) < missing us c
missing-insert_new [] m ns c x i h = absurd (Memᴰ.not-nil i)
missing-insert_new ((a, b) ∷ us) m ns c x i h =
    rw (has_cache-insert m ns c b) elim (direct_cases us a b m x i) [
      | inl e ↦ rw (← e) rw (h, beq_refl m) ground (arith, missing-insert us m ns c)
      | inr j ↦ ground (arith, missing-insert_new us m ns c x j h)
    ]

-- A run that ends, with no more missing than before.
abbrev Ends : List (ℕ × ℕ) → Caches → Option Caches → Type 0
Ends us c r = (c' : Caches) × (r ≡ some c') × (missing us c' ≤ missing us c)

copy_names-missing :
    (us : List (ℕ × ℕ)) (m : ℕ) (ns : Names) (c : Caches)
    → missing us (copy_names m ns c) ≤ missing us c
unfolding copy_names
copy_names-missing us m [] c = omega arith
copy_names-missing us m ((name, d) ∷ ns) c = omega (
  arith,
  copy_names-missing us m ns (set_name m name d c),
  missing-insert us m (insert name d (cache_of m c)) c,
)

Ends-after :
    (us : List (ℕ × ℕ)) (c c₀ : Caches) (r : Option Caches)
    → missing us c ≤ missing us c₀
    → Ends us c r
    → Ends us c₀ r
Ends-after us c c₀ r h (c', e, l) = (c', e, omega (arith, h, l))

Ends-then :
    (us : List (ℕ × ℕ)) (c : Caches) (r : Option Caches) (k : Caches → Option Caches)
    → Ends us c r
    → ((c' : Caches) → missing us c' ≤ missing us c → Ends us c (k c'))
    → Ends us c (elim r [ none ↦ none | some c' ↦ k c' ])
Ends-then us c r k (c', e, l) h = let (c₁, e₁, l₁) = h c' l in (c₁, rw e e₁, l₁)

module _ (fqn : ℕ → Text) (us : List (ℕ × ℕ)) where
  -- The loop ends when the calls in it do, at every cache with no more missing.
  fill-Ends :
      (populate : ℕ → Caches → Option Caches) (m : ℕ) (ds : List ℕ) (c : Caches)
      → ((d : ℕ) (c' : Caches)
          → Memᴰ d ds
          → missing us c' ≤ missing us c
          → Ends us c' (populate d c'))
      → Ends us c (fill fqn populate m ds c)
  unfolding fill
  fill-Ends populate m [] c h = (c, refl, omega arith)
  fill-Ends populate m (d ∷ ds) c h =
      let named = missing-insert us m (insert (fqn d) d (cache_of m c)) c in
      Ends-then us c (populate d (set_name m (fqn d) d c)) _
        (Ends-after us (set_name m (fqn d) d c) c _ named
          (h d (set_name m (fqn d) d c) (Memᴰ.head refl) named))
        (λ c₁ l₁.
          let l₂ : missing us (copy_names m (cache_of d c₁) c₁) ≤ missing us c =
            omega (arith, l₁, copy_names-missing us m (cache_of d c₁) c₁) in
          Ends-after us (copy_names m (cache_of d c₁) c₁) c _ l₂ (
            fill-Ends populate m ds (copy_names m (cache_of d c₁) c₁)
              (λ d' c' i l. h d' c' (Memᴰ.tail i) (omega (arith, l, l₂)))))

  populate_cache-Ends :
      (n m x : ℕ) (c : Caches)
      → Memᴰ m (direct us x)
      → missing us c < n
      → Ends us c (populate_cache fqn us n m c)
  unfolding populate_cache
  populate_cache-Ends zero m x c i l = let impossible : ⊥ = omega (arith, l) in absurd impossible
  populate_cache-Ends (suc n) m x c i l = elim (Option-cases (lookup m c)) [
    | inl e ↦
        let new = missing-insert_new us m [] c x i (ap is_some e) in
        rw (populate_cache-none fqn us n m c e) (
          Ends-after us (insert m [] c) c _ (omega (arith, new)) (
            fill-Ends (λ d c'. populate_cache fqn us n d c') m (direct us m) (insert m [] c)
              (λ d c' j l'. populate_cache-Ends n d m c' j (omega (arith, l, l', new)))))
    | inr (ns, e) ↦ rw (populate_cache-some fqn us n m c ns e) (c, refl, omega arith)
  ]

  -- Two more than the number of uses are enough fuel for `populateDependentsCache`, at any message
  -- and with any caches: its recursion ends, also where messages use each other in a circle.
  pub populate_cache-length :
      (m : ℕ) (c : Caches) → is_some (populate_cache fqn us (suc (suc (length us))) m c) ≡ true
  populate_cache-length m c = elim (Option-cases (lookup m c)) [
    | inl e ↦
        let (c', e', l) =
          fill-Ends (λ d c'. populate_cache fqn us (suc (length us)) d c') m (direct us m)
            (insert m [] c)
            (λ d c' j l'.
              populate_cache-Ends (suc (length us)) d m c' j
                (omega (arith, missing-length us c'))) in
        ap is_some (populate_cache-none fqn us (suc (length us)) m c e ∙ e')
    | inr (ns, e) ↦ ap is_some (populate_cache-some fqn us (suc (length us)) m c ns e)
  ]
