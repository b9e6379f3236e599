-- ===== src/GoPackage/Identifier.antt =====
-- The name of a Go package is an identifier.
use mathlib.Core.Path.{subst}
use protoc_gen_star.Base.{
  if◌then◌else◌, Bool-cases, Option-cases, ◌==◌, nat_eq, Text, text_eq, All, ℕ, suc, ◌≡◌, refl, sym,
  ◌⊎◌, inl, inr, Bool, true, false, not, ◌&&◌, Option, none, some, [], ◌∷◌,
}
use protoc_gen_star.Name.{Unicode}
use protoc_gen_star.Parameters.{Parameters, import_path, mapped_import}
use protoc_gen_star.FilePath.{slash, dir}
use protoc_gen_star.Text.{drop, last_index}
use protoc_gen_star.Ast.Entity.{File}
use protoc_gen_star.Ast.Graph.{Package}
use protoc_gen_star.GoPackage.{
  is_alphanum, replace_all, semicolon, resolve_go_package, split_option, guard_keyword,
  starts_digit, guard_digit, name_without_option, unmapped_package, override_or, option_package,
  chosen_package, package_name,
}

-- A letter or digit of ASCII, or an underscore.
abbrev pub IsWord : ℕ → Type 0
IsWord c = (is_alphanum c ≡ true) ⊎ (c ≡ b'_')

replace_all-IsWord : (s : Text) → All IsWord (replace_all s)
replace_all-IsWord [] = tt
replace_all-IsWord (c ∷ s) = (
  elim (Bool-cases (is_alphanum c)) [ inl e ↦ rw e (inl e) | inr e ↦ rw e (inr refl) ],
  replace_all-IsWord s,
)

split_option-IsWord : (directory s : Text) → All IsWord (split_option directory s).1
unfolding split_option
split_option-IsWord directory s = elim (Option-cases (last_index semicolon s)) [
  | inr (i, e) ↦ rw (e, split_option) (replace_all-IsWord (drop (suc i) s))
  | inl e ↦ elim (Option-cases (last_index slash s)) [
    | inr (i, e') ↦ rw (e, e', split_option) (replace_all-IsWord (drop (suc i) s))
    | inl e' ↦ rw (e, e', split_option) (replace_all-IsWord s)
  ]
]

-- What is assumed of keywords and digits.
pub record Assumed (u : Unicode) (is_keyword : Text → Bool) : Type 0 where
  pub keyword_start : (s : Text) → is_keyword (b'_' ∷ s) ≡ false
  pub underscore : u.is_digit b'_' ≡ false

module _ (u : Unicode) (is_keyword : Text → Bool) (a : Assumed u is_keyword) where
  guard_digit-start : (s : Text) → starts_digit u (guard_digit u s) ≡ false
  guard_digit-start s = elim (Bool-cases (starts_digit u s)) [
    | inl e ↦ rw e a.underscore
    | inr e ↦ rw e e
  ]

  guard_keyword-none : (s : Text) → is_keyword (guard_keyword is_keyword s) ≡ false
  guard_keyword-none s = elim (Bool-cases (is_keyword s)) [
    | inl e ↦ rw e (a.keyword_start s)
    | inr e ↦ rw e e
  ]

  guard_digit-keyword : (s : Text) → is_keyword s ≡ false → is_keyword (guard_digit u s) ≡ false
  guard_digit-keyword s h = elim (Bool-cases (starts_digit u s)) [
    | inl e ↦ rw e (a.keyword_start s)
    | inr e ↦ rw e h
  ]

  guards-IsWord :
      (s : Text) → All IsWord s → All IsWord (guard_digit u (guard_keyword is_keyword s))
  guards-IsWord s h =
      prefixed (starts_digit u (guard_keyword is_keyword s)) _ (prefixed (is_keyword s) s h)
    where
      prefixed : (b : Bool) (t : Text) → All IsWord t → All IsWord (if b then b'_' ∷ t else t)
      prefixed true t ht = (inr refl, ht)
      prefixed false t ht = ht

  package_name-keyword :
      (p : Parameters) (pkg : Package) (f : File)
      → (is_keyword (package_name u p is_keyword pkg f) ≡ false)
        × (starts_digit u (package_name u p is_keyword pkg f) ≡ false)
  unfolding package_name
  package_name-keyword p pkg f = (
    guard_digit-keyword (guard_keyword is_keyword (chosen_package u p pkg f))
        (guard_keyword-none (chosen_package u p pkg f)),
    guard_digit-start (guard_keyword is_keyword (chosen_package u p pkg f)),
  )

  override_or-IsWord :
      (p : Parameters) (o : Option Text) (target : Bool) (r : Text × Text)
      → (o ≡ none) ⊎ (target ≡ true)
      → All IsWord r.1
      → All IsWord (override_or u p o target r).1
  override_or-IsWord p none target r c h = h
  override_or-IsWord p (some path) true r c h = h
  override_or-IsWord p (some path) false r (inl e) h = cc e
  override_or-IsWord p (some path) false r (inr e) h = cc e

  option_package-IsWord :
      (p : Parameters) (pkg : Package) (f : File)
      → (resolve_go_package pkg f == []) ≡ false
      → (mapped_import p f.desc.name ≡ none) ⊎ (f.build_target ≡ true)
      → All IsWord (option_package u p pkg f).1
  unfolding option_package unmapped_package
  option_package-IsWord p pkg f has unmapped =
      override_or-IsWord p (mapped_import p f.desc.name) f.build_target (unmapped_package u p pkg f)
        unmapped
        (subst
          (λ b.
            All IsWord
              (if b
                then (dir f.desc.name, name_without_option u p pkg f)
                else split_option (dir f.desc.name) (resolve_go_package pkg f)).1)
          (sym has) (split_option-IsWord (dir f.desc.name) (resolve_go_package pkg f)))

  chosen_package-IsWord :
      (p : Parameters) (pkg : Package) (f : File)
      → (import_path p ≡ []) ⊎ ((f.desc.go_package == []) ≡ false)
      → All IsWord (option_package u p pkg f).1
      → All IsWord (chosen_package u p pkg f)
  unfolding chosen_package
  chosen_package-IsWord p pkg f own h =
      subst (λ b. All IsWord (if b then import_path p else (option_package u p pkg f).1))
        (sym (not_chosen (import_path p) f.desc.go_package own)) h
    where
      not_chosen :
          (ip gp : Text) → (ip ≡ []) ⊎ ((gp == []) ≡ false) → (not (ip == []) && gp == []) ≡ false
      not_chosen ip gp (inl e) = rw e refl
      not_chosen ip gp (inr e) = rw e (and_false (not (ip == [])))
        where
          and_false : (b : Bool) → (b && false) ≡ false
          and_false true = refl
          and_false false = refl

  package_name-IsWord :
      (p : Parameters) (pkg : Package) (f : File)
      → (resolve_go_package pkg f == []) ≡ false
      → (mapped_import p f.desc.name ≡ none) ⊎ (f.build_target ≡ true)
      → (import_path p ≡ []) ⊎ ((f.desc.go_package == []) ≡ false)
      → All IsWord (package_name u p is_keyword pkg f)
  unfolding package_name
  package_name-IsWord p pkg f has unmapped own =
      guards-IsWord (chosen_package u p pkg f)
        (chosen_package-IsWord p pkg f own (option_package-IsWord p pkg f has unmapped))

  -- If no keyword starts with an underscore and that is no digit, the file or its package has a
  -- `go_package` option, the file is to be generated or has no import mapping, and it has the
  -- option itself or there is no import path, then the name of the Go package of the file has
  -- nothing but letters and digits of ASCII and underscores, does not start with a digit and is no
  -- keyword.
  pub package_name-IsIdentifier :
      (p : Parameters) (pkg : Package) (f : File)
      → (resolve_go_package pkg f == []) ≡ false
      → (mapped_import p f.desc.name ≡ none) ⊎ (f.build_target ≡ true)
      → (import_path p ≡ []) ⊎ ((f.desc.go_package == []) ≡ false)
      → All IsWord (package_name u p is_keyword pkg f)
        × (starts_digit u (package_name u p is_keyword pkg f) ≡ false)
        × (is_keyword (package_name u p is_keyword pkg f) ≡ false)
  package_name-IsIdentifier p pkg f has unmapped own = (
    package_name-IsWord p pkg f has unmapped own,
    (package_name-keyword p pkg f).1,
    (package_name-keyword p pkg f).0,
  )
