-- ===== src/Ast/Dependents/Reached.antt =====
-- The messages in a cache use its owner, each under its own name.
use mathlib.Core.Path.{subst}
use protoc_gen_star.Base.{
  Bool-cases, Option-cases, Comparable, ◌==◌, nat_eq, Text, text_eq, All, lookup, insert, ℕ, zero,
  suc, ◌≡◌, refl, inl, inr, Option, none, some, List, [], ◌∷◌, Memᴰ,
}
use protoc_gen_star.Ast.Dependents.Steps.{populate_cache-some, populate_cache-none}
use protoc_gen_star.Ast.Dependents.{
  Names, Caches, direct, cache_of, set_name, copy_names, fill, populate_cache,
}

-- One message is reached from another along the lists, as `transitively` says it.
pub data Reaches (us : List (ℕ × ℕ)) : ℕ → ℕ → Type 0 where
  directly : {m d : ℕ} → Memᴰ d (direct us m) → Reaches us m d
  onward : {m d e : ℕ} → Memᴰ d (direct us m) → Reaches us d e → Reaches us m e

-- What a cache may hold.
pub record Entry (fqn : ℕ → Text) (us : List (ℕ × ℕ)) (m : ℕ) (p : Text × ℕ) : Type 0 where
  pub own_name : fqn p.1 ≡ p.0
  pub reached : Reaches us m p.1

pub All-insert :
    {K V : Type 0} ⦃k : Comparable K⦄ (P : K × V → Type 0) (a : K) (x : V) (m : List (K × V))
    → P (a, x)
    → All P m
    → All P (insert a x m)
unfolding insert
All-insert P a x [] h hs = (h, tt)
All-insert P a x ((b, y) ∷ m) h (hy, hs) = elim (Bool-cases (b == a)) [
  | inl e ↦ rw e (h, hs)
  | inr e ↦ rw e (hy, All-insert P a x m h hs)
]

module _ (fqn : ℕ → Text) (us : List (ℕ × ℕ)) where
  -- Each cache holds only what uses its owner.
  abbrev pub AllEntries : Caches → Type 0
  AllEntries c = All (λ p. All (Entry fqn us p.0) p.1) c

  cache_of-Entry : (m : ℕ) (c : Caches) → AllEntries c → All (Entry fqn us m) (cache_of m c)
  unfolding lookup
  cache_of-Entry m [] h = tt
  cache_of-Entry m ((x, ns) ∷ c) (h, hs) = elim (Bool-cases (x == m)) [
    | inl e ↦ rw e (subst (λ y. All (Entry fqn us y) ns) ((nat_eq.beq_iff x m).0 e) h)
    | inr e ↦ rw e (cache_of-Entry m c hs)
  ]

  set_name-AllEntries :
      (m : ℕ) (p : Text × ℕ) (c : Caches)
      → Entry fqn us m p
      → AllEntries c
      → AllEntries (set_name m p.0 p.1 c)
  set_name-AllEntries m p c h hs =
      All-insert (λ q. All (Entry fqn us q.0) q.1) m _ c
        (All-insert (Entry fqn us m) p.0 p.1 (cache_of m c) h (cache_of-Entry m c hs)) hs

  copy_names-AllEntries :
      (m : ℕ) (ns : Names) (c : Caches)
      → All (Entry fqn us m) ns
      → AllEntries c
      → AllEntries (copy_names m ns c)
  unfolding copy_names
  copy_names-AllEntries m [] c hn hc = hc
  copy_names-AllEntries m (p ∷ ns) c (h, hn) hc =
      copy_names-AllEntries m ns (set_name m p.0 p.1 c) hn (set_name-AllEntries m p c h hc)

  onward-Entry :
      (m d : ℕ) (ns : Names)
      → Memᴰ d (direct us m)
      → All (Entry fqn us d) ns
      → All (Entry fqn us m) ns
  onward-Entry m d [] i h = tt
  onward-Entry m d (p ∷ ns) i (h, hs) =
      (record { own_name = h.own_name; reached = onward i h.reached }, onward-Entry m d ns i hs)

  -- What a run leaves, when it ends.
  abbrev Leaves : Option Caches → Type 0
  Leaves none = Unit
  Leaves (some c) = AllEntries c

  Leaves-then :
      (r : Option Caches) (k : Caches → Option Caches)
      → Leaves r
      → ((c : Caches) → AllEntries c → Leaves (k c))
      → Leaves (elim r [ none ↦ none | some c ↦ k c ])
  Leaves-then none k h hk = tt
  Leaves-then (some c) k h hk = hk c h

  fill-Leaves :
      (populate : ℕ → Caches → Option Caches) (m : ℕ) (ds : List ℕ) (c : Caches)
      → ((d : ℕ) (c' : Caches) → AllEntries c' → Leaves (populate d c'))
      → ((d : ℕ) → Memᴰ d ds → Memᴰ d (direct us m))
      → AllEntries c
      → Leaves (fill fqn populate m ds c)
  unfolding fill
  fill-Leaves populate m [] c hp sub h = h
  fill-Leaves populate m (d ∷ ds) c hp sub h =
      let edge = sub d (Memᴰ.head refl) in
      let own : Entry fqn us m (fqn d, d) = record { own_name = refl; reached = directly edge } in
      Leaves-then (populate d (set_name m (fqn d) d c)) _
        (hp d (set_name m (fqn d) d c) (set_name-AllEntries m (fqn d, d) c own h))
        (λ c₁ h₁.
          fill-Leaves populate m ds _ hp (λ e i. sub e (Memᴰ.tail i))
            (copy_names-AllEntries m (cache_of d c₁) c₁
              (onward-Entry m d (cache_of d c₁) edge (cache_of-Entry d c₁ h₁)) h₁))

  populate_cache-Leaves :
      (n m : ℕ) (c : Caches) → AllEntries c → Leaves (populate_cache fqn us n m c)
  unfolding populate_cache
  populate_cache-Leaves zero m c h = tt
  populate_cache-Leaves (suc n) m c h = elim (Option-cases (lookup m c)) [
    | inl e ↦ rw (populate_cache-none fqn us n m c e) (
        fill-Leaves (λ d c'. populate_cache fqn us n d c') m (direct us m) (insert m [] c)
          (populate_cache-Leaves n) (λ d i. i)
          (All-insert (λ q. All (Entry fqn us q.0) q.1) m [] c tt h))
    | inr (ns, e) ↦ rw (populate_cache-some fqn us n m c ns e) h
  ]

  -- If every cache holds only messages that use its owner, directly or through other messages,
  -- each under its own name, then so it is after `populateDependentsCache`, whatever the fuel.
  pub populate_cache-AllEntries :
      (n m : ℕ) (c c' : Caches)
      → AllEntries c
      → populate_cache fqn us n m c ≡ some c'
      → AllEntries c'
  populate_cache-AllEntries n m c c' h e = subst Leaves e (populate_cache-Leaves n m c h)
