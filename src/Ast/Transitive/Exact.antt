-- ===== src/Ast/Transitive/Exact.antt =====
-- The transitive imports of a file are the files that it imports, directly or through others.
use mathlib.Core.List.Memᴰ
use mathlib.Core.Path.{subst}
use protoc_gen_star.Ast.Transitive.Cached.{
  FileCaches, file_dependents, AllFound, file_dependents-Agrees,
}
use protoc_gen_star.Base.{
  if◌then◌else◌, Bool-cases, ◌==◌, nat_eq, Text, text_eq, All, is_some, lookup, insert,
  lookup-insert_self, ℕ, zero, suc, ◌<◌, ◌≡◌, refl, sym, ap, ◌∙◌, inl, inr, true, false, Option,
  some, List, [], ◌∷◌, Memᴰ, arith,
}
use protoc_gen_star.Ast.Dependents.{direct}
use protoc_gen_star.Ast.Dependents.Reached.{Reaches, directly, onward, Entry, All-insert}
use protoc_gen_star.Ast.Dependents.Named.{is_some-lookup-insert}
use protoc_gen_star.Ast.Dependents.Filled.{Downward, direct-Downward}
use protoc_gen_star.Ast.Transitive.{Files, values, put_files, gather, transitive_imports}

-- A map that has this name.
abbrev pub Named : Text → Files → Type 0
Named k m = is_some (lookup k m) ≡ true

insert-Named : (k n : Text) (f : ℕ) (m : Files) → Named k m → Named k (insert n f m)
insert-Named k n f m h =
    rw (is_some-lookup-insert k n f m, h)
      elim (n == k) as (λ b. (if b then true else true) ≡ true) [ true ↦ refl | false ↦ refl ]

insert-Named_self : (n : Text) (f : ℕ) (m : Files) → Named n (insert n f m)
insert-Named_self n f m = ap is_some (lookup-insert_self n f m)

module _ (name : ℕ → Text) where
  put_files-Named : (fs : List ℕ) (k : Text) (m : Files) → Named k m → Named k (put_files name fs m)
  unfolding put_files
  put_files-Named [] k m h = h
  put_files-Named (f ∷ fs) k m h =
      put_files-Named fs k (insert (name f) f m) (insert-Named k (name f) f m h)

  put_files-values :
      (below m : Files) (k : Text)
      → All (λ p. name p.1 ≡ p.0) below
      → Named k below
      → Named k (put_files name (values below) m)
  unfolding put_files lookup
  put_files-values [] m k own h = cc h
  put_files-values ((n, f) ∷ below) m k (e, own) h = elim (Bool-cases (n == k)) [
    | inl eq ↦ put_files-Named (values below) k (insert (name f) f m) (
        subst (λ j. Named j (insert (name f) f m)) (e ∙ (text_eq.beq_iff n k).0 eq)
          (insert-Named_self (name f) f m))
    | inr ne ↦ put_files-values below (insert (name f) f m) k own (rw ne at h)
  ]

  module _ (edges : List (ℕ × ℕ)) where
    put_files-Entry :
        (f d : ℕ) (below m : Files)
        → Memᴰ d (direct edges f)
        → All (Entry name edges d) below
        → All (Entry name edges f) m
        → All (Entry name edges f) (put_files name (values below) m)
    unfolding put_files
    put_files-Entry f d [] m i hb hm = hm
    put_files-Entry f d ((n, x) ∷ below) m i (h, hb) hm =
        put_files-Entry f d below (insert (name x) x m) i hb (
          All-insert (Entry name edges f) (name x) x m
            (record { own_name = refl; reached = onward i h.reached }) hm)

    own_names : (d : ℕ) (m : Files) → All (Entry name edges d) m → All (λ p. name p.1 ≡ p.0) m
    own_names d [] h = tt
    own_names d (p ∷ m) (h, hs) = (h.own_name, own_names d m hs)

    -- What the transitive imports of a file are.
    pub record AllImports (f : ℕ) (m : Files) : Type 0 where
      pub entries : All (Entry name edges f) m
      pub names : (d : ℕ) → Reaches edges f d → Named (name d) m

    -- What the loop leaves of a map, behind these imports.
    record Gathered (f : ℕ) (ds : List ℕ) (m m' : Files) : Type 0 where
      pub entries : All (Entry name edges f) m'
      pub keeps : (k : Text) → Named k m → Named k m'
      pub here : (d : ℕ) → Memᴰ d ds → Named (name d) m'
      pub below : (d e : ℕ) → Memᴰ d ds → Reaches edges d e → Named (name e) m'

    gather-Gathered :
        (transitive : ℕ → Option Files) (f : ℕ) (ds : List ℕ) (m : Files)
        → ((d : ℕ) → Memᴰ d ds → (b : Files) × (transitive d ≡ some b) × AllImports d b)
        → ((d : ℕ) → Memᴰ d ds → Memᴰ d (direct edges f))
        → All (Entry name edges f) m
        → (m' : Files) × (gather name (direct edges) transitive ds m ≡ some m') × Gathered f ds m m'
    unfolding gather
    gather-Gathered transitive f [] m ht sub hm = (
      m,
      refl,
      record {
        entries = hm;
        keeps = λ k h. h;
        here = λ d i. absurd (Memᴰ.not-nil i);
        below = λ d e i r. absurd (Memᴰ.not-nil i);
      },
    )
    gather-Gathered transitive f (d ∷ ds) m ht sub hm =
        let edge = sub d (Memᴰ.head refl) in
        let (b, eb, hb) = ht d (Memᴰ.head refl) in
        let m₁ : Files = put_files name (values b) (insert (name d) d m) in
        let h₁ = put_files-Entry f d b (insert (name d) d m) edge hb.entries (
          All-insert (Entry name edges f) (name d) d m
            (record { own_name = refl; reached = directly edge }) hm) in
        let (m', e', h') =
          gather-Gathered transitive f ds m₁ (λ x i. ht x (Memᴰ.tail i))
            (λ x i. sub x (Memᴰ.tail i)) h₁ in
        let d_here = put_files-Named (values b) (name d) _ (insert-Named_self (name d) d m) in
        (
          m',
          rw (eb, gather) e',
          record {
            entries = h'.entries;
            keeps =
                λ k h. h'.keeps k (put_files-Named (values b) k _ (insert-Named k (name d) d m h));
            here = λ x i. elim (Memᴰ.cases_cons i) [
              | inl eq ↦ subst (λ y. Named (name y) m') (sym eq) (h'.keeps (name d) d_here)
              | inr j ↦ h'.here x j
            ];
            below = λ x e i r. elim (Memᴰ.cases_cons i) [
              | inl eq ↦ h'.keeps (name e) (
                  put_files-values b _ (name e) (own_names d b hb.entries)
                    (hb.names e (subst (λ y. Reaches edges y e) eq r)))
              | inr j ↦ h'.below x e j r
            ];
          },
        )

    Gathered-names :
        (f : ℕ) (m m' : Files)
        → Gathered f (direct edges f) m m'
        → (d : ℕ) → Reaches edges f d
        → Named (name d) m'
    Gathered-names f m m' h d (directly i) = h.here d i
    Gathered-names f m m' h e (onward {d = d} i r) = h.below d e i r

    transitive_imports-rank :
        (rank : ℕ → ℕ) (n f : ℕ)
        → Downward rank edges
        → rank f < n
        → (m : Files) × (transitive_imports name (direct edges) n f ≡ some m) × AllImports f m
    unfolding transitive_imports
    transitive_imports-rank rank zero f down l =
        let impossible : ⊥ = omega (arith, l) in absurd impossible
    transitive_imports-rank rank (suc n) f down l =
        let (m, e, h) =
          gather-Gathered (λ d. transitive_imports name (direct edges) n d) f (direct edges f) []
            (λ d i.
              transitive_imports-rank rank n d down
                (omega (arith, l, direct-Downward rank edges f d down i)))
            (λ d i. i) tt in
        (m, e, record { entries = h.entries; names = Gathered-names f [] m h })

    -- If the imports of a file have smaller numbers, as files do that are made earlier, then
    -- `TransitiveImports` of a file ends, on any fuel above its number, with a map that has the
    -- names of all files that it imports, directly or through others, and holds such a file under
    -- each of its names.
    pub transitive_imports-AllImports :
        (n f : ℕ)
        → Downward (λ i. i) edges
        → f < n
        → (m : Files) × (transitive_imports name (direct edges) n f ≡ some m) × AllImports f m
    transitive_imports-AllImports n f down l = transitive_imports-rank (λ i. i) n f down l

    -- If every file comes before the files that import it in some ranking, and the caches hold what
    -- the search without caches finds, then `Dependents` of a file ends, on any fuel above its
    -- rank, with a map that has the names of all files that import it, directly or through others,
    -- and holds such a file under each of its names; and the caches hold what that search finds.
    pub file_dependents-AllImports :
        (rank : ℕ → ℕ) (n f : ℕ) (cs : FileCaches)
        → Downward rank edges
        → rank f < n
        → AllFound name (direct edges) cs
        → (m : Files) × (cs' : FileCaches) × (file_dependents name (direct edges) n f cs
            ≡ some (m, cs'))
          × AllImports f m
          × AllFound name (direct edges) cs'
    file_dependents-AllImports rank n f cs down l good =
        let (m, e, h) = transitive_imports-rank rank n f down l in
        let (cs', e', good') = file_dependents-Agrees name (direct edges) n f m cs e good in
        (m, cs', e', h, good')
