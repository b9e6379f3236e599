-- ===== src/Ast/Transitive/Cached.antt =====
-- file.go: `Dependents`, which keeps what it found in the file. A cache is `none` until then.
use mathlib.Core.Path.{subst}
use protoc_gen_star.Base.{
  if◌then◌else◌, Bool-cases, Option-cases, ◌==◌, nat_beq_iff, nat_eq, Text, text_eq, All,
  some-injective, lookup, insert, ℕ, zero, suc, ◌+◌, ◌≡◌, refl, ap, inl, inr, true, false, Option,
  none, some, List, [], ◌∷◌, arith,
}
use protoc_gen_star.Ast.Transitive.{Files, values, put_files, gather, transitive_imports}

-- The caches of the files that have one.
abbrev pub FileCaches : Type 0
FileCaches = List (ℕ × Files)

module _ (name : ℕ → Text) (dependents : ℕ → List ℕ) where
  -- The loop of `file.Dependents`, given that method for the files in it.
  unfoldable pub gather_dependents :
      (ℕ → FileCaches → Option (Files × FileCaches))
      → List ℕ
      → Files
      → FileCaches
      → Option (Files × FileCaches)
  unfolding put_files
  gather_dependents call [] m cs = some (m, cs)
  gather_dependents call (f ∷ fs) m cs = elim (call f cs) [
    | none ↦ none
    | some r ↦ gather_dependents call fs (put_files name (values r.0) (insert (name f) f m)) r.1
  ]

  -- `f.dependentsCache = …`
  abbrev pub keep_dependents : ℕ → Option (Files × FileCaches) → Option (Files × FileCaches)
  keep_dependents f none = none
  keep_dependents f (some (m, cs)) = some (m, insert f m cs)

  abbrev pub cached_or :
      Option Files → FileCaches → Option (Files × FileCaches) → Option (Files × FileCaches)
  cached_or (some m) cs fresh = some (m, cs)
  cached_or none cs fresh = fresh

  -- `file.Dependents`, on fuel. It gives the values of this map.
  unfoldable pub file_dependents : ℕ → ℕ → FileCaches → Option (Files × FileCaches)
  unfolding gather_dependents
  file_dependents zero f cs = none
  file_dependents (suc n) f cs =
      cached_or (lookup f cs) cs
        (keep_dependents f (gather_dependents (λ d c. file_dependents n d c) (dependents f) [] cs))

  abbrev found : ℕ → ℕ → Option Files
  found n f = transitive_imports name dependents n f

  -- What a cache is to hold: what the search without caches finds.
  pub record Finds (f : ℕ) (m : Files) : Type 0 where
    pub fuel : ℕ
    pub finds : transitive_imports name dependents fuel f ≡ some m

  abbrev pub AllFound : FileCaches → Type 0
  AllFound cs = All (λ c. Finds c.0 c.1) cs

  gather-more :
      (t t' : ℕ → Option Files)
      → ((d : ℕ) (b : Files) → t d ≡ some b → t' d ≡ some b)
      → (fs : List ℕ) (m m' : Files) → gather name dependents t fs m ≡ some m'
      → gather name dependents t' fs m ≡ some m'
  unfolding gather
  gather-more t t' more [] m m' h = h
  gather-more t t' more (f ∷ fs) m m' h = elim (Option-cases (t f)) [
    | inl e ↦ cc (rw (e, gather) at h)
    | inr (b, e) ↦ rw (more f b e, gather) (gather-more t t' more fs _ m' (rw (e, gather) at h))
  ]

  found-suc : (n f : ℕ) (m : Files) → found n f ≡ some m → found (suc n) f ≡ some m
  unfolding transitive_imports
  found-suc zero f m h = cc h
  found-suc (suc n) f m h =
      gather-more (λ d. found n d) (λ d. found (suc n) d) (λ d b. found-suc n d b) (dependents f) []
        m h

  found-more : (k n f : ℕ) (m : Files) → found n f ≡ some m → found (k + n) f ≡ some m
  found-more zero n f m h =
      let e : n ≡ zero + n = omega arith in subst (λ k. found k f ≡ some m) e h
  found-more (suc k) n f m h =
      let more : found (suc (k + n)) f ≡ some m = found-suc (k + n) f m (found-more k n f m h) in
      let e : suc (k + n) ≡ suc k + n = omega arith in subst (λ i. found i f ≡ some m) e more

  found_unique : (n n' f : ℕ) (m m' : Files) → found n f ≡ some m → found n' f ≡ some m' → m ≡ m'
  found_unique n n' f m m' h h' =
      let a = found-more n' n f m h in
      let b = found-more n n' f m' h' in
      let e : n' + n ≡ n + n' = omega arith in cc (a, b, ap (λ k. found k f) e)

  AllFound-lookup :
      (f : ℕ) (cs : FileCaches) (m : Files) → AllFound cs → lookup f cs ≡ some m → Finds f m
  unfolding lookup
  AllFound-lookup f [] m h e = cc e
  AllFound-lookup f ((g, b) ∷ cs) m (h, hs) e = elim (Bool-cases (g == f)) [
    | inl q ↦
        let same : g ≡ f = (nat_beq_iff g f).0 q in
        let value : some b ≡ some m = rw q at e in
        subst (λ x. Finds x m) same (subst (Finds g) (some-injective value) h)
    | inr q ↦ AllFound-lookup f cs m hs (rw q at e)
  ]

  AllFound-insert :
      (f : ℕ) (cs : FileCaches) (m : Files) → Finds f m → AllFound cs → AllFound (insert f m cs)
  unfolding insert
  AllFound-insert f [] m h hs = (h, tt)
  AllFound-insert f ((g, b) ∷ cs) m h (hb, hs) =
      elim (g == f) as (λ c. AllFound (if c then (f, m) ∷ cs else (g, b) ∷ insert f m cs)) [
        | true ↦ (h, hs)
        | false ↦ (hb, AllFound-insert f cs m h hs)
      ]

  -- A call with caches that ends with what the search without them finds, and keeps them right.
  abbrev Agrees : Option (Files × FileCaches) → Files → Type 0
  Agrees r m = (cs' : FileCaches) × (r ≡ some (m, cs')) × AllFound cs'

  gather_dependents-Agrees :
      (t : ℕ → Option Files) (call : ℕ → FileCaches → Option (Files × FileCaches))
      → ((d : ℕ) (b : Files) (cs : FileCaches) → t d ≡ some b → AllFound cs → Agrees (call d cs) b)
      → (fs : List ℕ) (m m' : Files) (cs : FileCaches) → gather name dependents t fs m ≡ some m'
      → AllFound cs
      → Agrees (gather_dependents call fs m cs) m'
  unfolding gather gather_dependents
  gather_dependents-Agrees t call ih [] m m' cs h good =
      (cs, ap (λ x. some (x, cs)) (some-injective h), good)
  gather_dependents-Agrees t call ih (f ∷ fs) m m' cs h good = elim (Option-cases (t f)) [
    | inl e ↦ cc (rw (e, gather) at h)
    | inr (b, e) ↦
        let (cs₁, e₁, good₁) = ih f b cs e good in
        rw (e₁, gather_dependents)
          (gather_dependents-Agrees t call ih fs _ m' cs₁ (rw (e, gather) at h) good₁)
  ]

  -- Where the caches hold what the search without caches finds, and this search ends, `Dependents`
  -- ends on the same fuel with what the search finds, and leaves caches that hold such again.
  pub file_dependents-Agrees :
      (n f : ℕ) (m : Files) (cs : FileCaches)
      → transitive_imports name dependents n f ≡ some m
      → AllFound cs
      → (cs' : FileCaches) × (file_dependents n f cs ≡ some (m, cs')) × AllFound cs'
  unfolding transitive_imports file_dependents
  file_dependents-Agrees zero f m cs h good = cc h
  file_dependents-Agrees (suc n) f m cs h good = elim (Option-cases (lookup f cs)) [
    | inl e ↦
        let (cs', e', good') =
          gather_dependents-Agrees (λ d. found n d) (λ d c. file_dependents n d c)
            (λ d b c e₁ g₁. file_dependents-Agrees n d b c e₁ g₁) (dependents f) [] m cs h good in
        (
          insert f m cs',
          rw (e, e') refl,
          AllFound-insert f cs' m (record { fuel = suc n; finds = h }) good',
        )
    | inr (m₀, e) ↦
        let from = AllFound-lookup f cs m₀ good e in
        (
          cs,
          rw e (ap (λ x. some (x, cs)) (found_unique from.fuel (suc n) f m₀ m from.finds h)),
          good,
        )
  ]
