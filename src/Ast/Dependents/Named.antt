-- ===== src/Ast/Dependents/Named.antt =====
-- The names in a cache, before and after names are added to it.
use mathlib.Core.Path.{subst}
use protoc_gen_star.Base.{
  if◌then◌else◌, Bool-cases, ◌==◌, nat_eq, Text, text_eq, beq_refl, beq_false, is_some, is_some-if,
  lookup, insert, lookup-insert, lookup-insert_self, ℕ, ◌≡◌, refl, sym, ap, ◌∙◌, ◌≢◌, inl, inr,
  true, false, [], ◌∷◌,
}
use protoc_gen_star.Ast.Dependents.Bound.{has_cache}
use protoc_gen_star.Ast.Dependents.{Names, Caches, names_or_none, cache_of, set_name, copy_names}

-- The cache of `m` has this name.
abbrev pub Has : ℕ → Text → Caches → Type 0
Has m name c = is_some (lookup name (cache_of m c)) ≡ true

-- Nothing but the cache of `m` differs.
abbrev pub SameBut : ℕ → Caches → Caches → Type 0
SameBut m c c' = (x : ℕ) → x ≢ m → lookup x c' ≡ lookup x c

-- A cache with at least the names that it had.
abbrev pub Grows : ℕ → Caches → Caches → Type 0
Grows m c c' = (name : Text) → Has m name c → Has m name c'

pub insert-SameBut : (m : ℕ) (ns : Names) (c : Caches) → SameBut m c (insert m ns c)
insert-SameBut m ns c x h = rw (lookup-insert m x ns c, beq_false m x (λ e. h (sym e))) refl

pub is_some-lookup-insert :
    (name other : Text) (d : ℕ) (ns : Names)
    → is_some (lookup name (insert other d ns))
      ≡ (if other == name then true else is_some (lookup name ns))
is_some-lookup-insert name other d ns =
    ap is_some (lookup-insert other name d ns) ∙ is_some-if (other == name) d (lookup name ns)

pub set_name-SameBut :
    (m : ℕ) (name : Text) (d : ℕ) (c : Caches) → SameBut m c (set_name m name d c)
set_name-SameBut m name d c = insert-SameBut m (insert name d (cache_of m c)) c

cache_of-set_name :
    (m : ℕ) (name : Text) (d : ℕ) (c : Caches)
    → cache_of m (set_name m name d c) ≡ insert name d (cache_of m c)
cache_of-set_name m name d c =
    ap names_or_none (lookup-insert_self m (insert name d (cache_of m c)) c)

pub set_name-Has : (m : ℕ) (name : Text) (d : ℕ) (c : Caches) → Has m name (set_name m name d c)
set_name-Has m name d c =
    rw (cache_of-set_name m name d c, is_some-lookup-insert, beq_refl name) refl

pub set_name-Grows : (m : ℕ) (name : Text) (d : ℕ) (c : Caches) → Grows m c (set_name m name d c)
set_name-Grows m name d c other h =
    rw (cache_of-set_name m name d c, is_some-lookup-insert, h)
      elim (name == other) as (λ b. (if b then true else true) ≡ true) [
        | true ↦ refl
        | false ↦ refl
      ]

pub copy_names-SameBut : (m : ℕ) (ns : Names) (c : Caches) → SameBut m c (copy_names m ns c)
unfolding copy_names
copy_names-SameBut m [] c x h = refl
copy_names-SameBut m ((name, d) ∷ ns) c x h =
    copy_names-SameBut m ns (set_name m name d c) x h ∙ set_name-SameBut m name d c x h

pub copy_names-Grows : (m : ℕ) (ns : Names) (c : Caches) → Grows m c (copy_names m ns c)
unfolding copy_names
copy_names-Grows m [] c other h = h
copy_names-Grows m ((name, d) ∷ ns) c other h =
    copy_names-Grows m ns (set_name m name d c) other (set_name-Grows m name d c other h)

pub copy_names-Has :
    (m : ℕ) (ns : Names) (c : Caches) (other : Text)
    → is_some (lookup other ns) ≡ true
    → Has m other (copy_names m ns c)
unfolding copy_names lookup
copy_names-Has m [] c other h = cc h
copy_names-Has m ((name, d) ∷ ns) c other h = elim (Bool-cases (name == other)) [
  | inl e ↦ copy_names-Grows m ns (set_name m name d c) other (
      subst (λ n. Has m n (set_name m name d c)) ((text_eq.beq_iff name other).0 e)
        (set_name-Has m name d c))
  | inr e ↦ copy_names-Has m ns (set_name m name d c) other (rw e at h)
]

pub set_name-has_cache :
    (m : ℕ) (name : Text) (d : ℕ) (c : Caches) → has_cache m (set_name m name d c) ≡ true
set_name-has_cache m name d c = ap is_some (lookup-insert_self m (insert name d (cache_of m c)) c)

pub copy_names-has_cache :
    (m : ℕ) (ns : Names) (c : Caches)
    → has_cache m c ≡ true
    → has_cache m (copy_names m ns c) ≡ true
unfolding copy_names
copy_names-has_cache m [] c h = h
copy_names-has_cache m ((name, d) ∷ ns) c h =
    copy_names-has_cache m ns (set_name m name d c) (set_name-has_cache m name d c)

-- What the cache of `m` has is read off its entry.
pub Has-same :
    (m : ℕ) (name : Text) (c c' : Caches) → lookup m c' ≡ lookup m c → Has m name c → Has m name c'
Has-same m name c c' e h = ap (λ ns. is_some (lookup name (names_or_none ns))) e ∙ h
