-- ===== src/Ast/Dependents/Filled.antt =====
-- What the calls of `populateDependentsCache` leave behind, while caches are being filled.
use mathlib.Core.List.Memᴰ
use mathlib.Core.Path.{subst}
use protoc_gen_star.Base.{
  Bool-cases, ◌==◌, nat_eq, Text, text_eq, All, is_some, lookup, ℕ, ◌<◌, ◌≡◌, sym, ap, ◌∙◌, inl,
  inr, true, Option, none, some, List, [], ◌∷◌, Memᴰ, arith,
}
use protoc_gen_star.Ast.Dependents.{Caches, direct, names_or_none}
use protoc_gen_star.Ast.Dependents.Bound.{has_cache}
use protoc_gen_star.Ast.Dependents.Reached.{Reaches, AllEntries}
use protoc_gen_star.Ast.Dependents.Named.{Has, SameBut, Grows}

-- The uses go down in rank.
abbrev pub Downward : (ℕ → ℕ) → List (ℕ × ℕ) → Type 0
Downward rank us = All (λ p. rank p.1 < rank p.0) us

pub direct-Downward :
    (rank : ℕ → ℕ) (us : List (ℕ × ℕ)) (m d : ℕ)
    → Downward rank us
    → Memᴰ d (direct us m)
    → rank d < rank m
direct-Downward rank [] m d h i = absurd (Memᴰ.not-nil i)
direct-Downward rank ((a, b) ∷ us) m d (h, hs) i = elim (Bool-cases (a == m)) [
  | inl e ↦ elim (Memᴰ.cases_cons (rw e at i)) [
    | inl eq ↦ omega (arith, h, ap rank eq, ap rank ((nat_eq.beq_iff a m).0 e))
    | inr j ↦ direct-Downward rank us m d hs j
  ]
  | inr e ↦ direct-Downward rank us m d hs (rw e at i)
]

abbrev pub IfSome : (Caches → Type 0) → Option Caches → Type 0
IfSome P none = Unit
IfSome P (some c) = P c

pub IfSome-then :
    (P Q : Caches → Type 0) (r : Option Caches) (k : Caches → Option Caches)
    → IfSome P r
    → ((c : Caches) → P c → IfSome Q (k c))
    → IfSome Q (elim r [ none ↦ none | some c ↦ k c ])
IfSome-then P Q none k h hk = tt
IfSome-then P Q (some c) k h hk = hk c h

pub IfSome-map :
    (P Q : Caches → Type 0) (r : Option Caches)
    → ((c : Caches) → P c → Q c)
    → IfSome P r
    → IfSome Q r
IfSome-map P Q none f h = tt
IfSome-map P Q (some c) f h = f c h

module _ (fqn : ℕ → Text) (us : List (ℕ × ℕ)) where
  -- The cache of `m` has the names of all that it reaches.
  abbrev pub Full : ℕ → Caches → Type 0
  Full m c = (d : ℕ) → Reaches us m d → Has m (fqn d) c

  -- Every cache holds exactly what it should: the names of all messages that use its owner, and
  -- under each of them such a message.
  pub record Exact (c : Caches) : Type 0 where
    pub entries : AllEntries fqn us c
    pub full : (x : ℕ) → has_cache x c ≡ true → Full x c

  -- The caches are full but for those still being filled.
  abbrev pub FullBut : (ℕ → Type 0) → Caches → Type 0
  FullBut P c = (x : ℕ) → has_cache x c ≡ true → ¬ P x → Full x c

  pub FullBut-change :
      (P : ℕ → Type 0) (m : ℕ) (c c' : Caches) → P m → SameBut m c c' → FullBut P c → FullBut P c'
  FullBut-change P m c c' pm same h x cached np d r =
      let eq = same x (λ e. np (subst P (sym e) pm)) in
      subst (λ ns. is_some (lookup (fqn d) (names_or_none ns)) ≡ true) (sym eq)
        (h x (ap is_some (sym eq) ∙ cached) np d r)

module _ (fqn : ℕ → Text) (us : List (ℕ × ℕ)) (rank : ℕ → ℕ) where
  -- What a call on `m` leaves behind, with the messages `P` still being filled.
  pub record Called (P : ℕ → Type 0) (m : ℕ) (c c' : Caches) : Type 0 where
    pub cached : has_cache m c' ≡ true
    pub others_full : FullBut fqn us P c'
    pub above : (x : ℕ) → rank m < rank x → lookup x c' ≡ lookup x c

  -- What the loop at `m` leaves behind.
  pub record Looped (P : ℕ → Type 0) (m : ℕ) (ds : List ℕ) (c c' : Caches) : Type 0 where
    pub called : Called P m c c'
    pub grows : Grows m c c'
    pub named : (d : ℕ) → Memᴰ d ds → Has m (fqn d) c'
    pub below : (d e : ℕ) → Memᴰ d ds → Reaches us d e → Has m (fqn e) c'
