-- ===== src/Ast/Transitive/Unused.antt =====
-- Which imports of a file are unused.
use protoc_gen_star.Base.{
  if◌then◌else◌, ◌==◌, nat_eq, Text, text_eq, All, is_some, is_some-if, lookup, insert, ℕ, ◌≡◌,
  refl, sym, ap, ◌∙◌, Bool, true, false, not, ◌&&◌, ◌||◌, List, [], ◌∷◌, arith,
}
use protoc_gen_star.Ast.Entity.{Method, Service}
use protoc_gen_star.Ast.Graph.{FieldType}
use protoc_gen_star.Ast.Dependents.Named.{is_some-lookup-insert}
use protoc_gen_star.Ast.Dependents.Reached.{All-insert}
use protoc_gen_star.Ast.Transitive.{
  Files, values, put_files, delete, type_imports, put_types, message_imports, method_imports,
  put_methods, service_imports, private_imports, delete_files, drop_messages, drop_services,
  unused_imports,
}

-- One of them passes the test.
abbrev pub any {ℓ} : {T : Type ℓ} → (T → Bool) → List T → Bool
any test [] = false
any test (t ∷ ts) = test t || any test ts

abbrev pub has : Text → Files → Bool
has k m = is_some (lookup k m)

has-delete : (n k : Text) (m : Files) → has k (delete n m) ≡ (not (n == k) && has k m)
unfolding delete lookup
has-delete n k [] = elim (n == k) as (λ b. false ≡ (not b && false)) [ true ↦ refl | false ↦ refl ]
has-delete n k ((j, f) ∷ m) =
    ground (arith, has-delete n k m, text_eq.beq_iff j n, text_eq.beq_iff j k, text_eq.beq_iff n k)

both_gone : (a b x : Bool) → (not b && (not a && x)) ≡ (not (a || b) && x)
both_gone true true x = refl
both_gone true false x = refl
both_gone false true x = refl
both_gone false false x = refl

either : (a b x : Bool) → (b || (a || x)) ≡ ((a || b) || x)
either true true x = refl
either true false x = refl
either false true x = refl
either false false x = refl

or_if : (b x : Bool) → (if b then true else x) ≡ (b || x)
or_if true x = refl
or_if false x = refl

pub has-insert : (k n : Text) (f : ℕ) (m : Files) → has k (insert n f m) ≡ ((n == k) || has k m)
has-insert k n f m = is_some-lookup-insert k n f m ∙ or_if (n == k) (has k m)

module _ (file_of : ℕ → ℕ) (name : ℕ → Text) where
  -- One of these files has this name.
  abbrev pub has_name : Text → List ℕ → Bool
  has_name k = any (λ f. name f == k)

  has-delete_files :
      (k : Text) (fs : List ℕ) (m : Files)
      → has k (delete_files file_of name fs m) ≡ (not (has_name k fs) && has k m)
  unfolding delete_files
  has-delete_files k [] m = refl
  has-delete_files k (f ∷ fs) m =
      has-delete_files k fs (delete (name f) m)
      ∙ ap (λ b. not (has_name k fs) && b) (has-delete (name f) k m)
      ∙ both_gone (name f == k) (has_name k fs) (has k m)

  has-put_files :
      (k : Text) (fs : List ℕ) (m : Files)
      → has k (put_files name fs m) ≡ (has_name k fs || has k m)
  unfolding put_files
  has-put_files k [] m = refl
  has-put_files k (f ∷ fs) m =
      has-put_files k fs (insert (name f) f m)
      ∙ ap (λ b. has_name k fs || b) (has-insert k (name f) f m)
      ∙ either (name f == k) (has_name k fs) (has k m)

  -- Every file stands under its own name.
  abbrev Own : Files → Type 0
  Own m = All (λ p. name p.1 ≡ p.0) m

  put_files-Own : (fs : List ℕ) (m : Files) → Own m → Own (put_files name fs m)
  unfolding put_files
  put_files-Own [] m h = h
  put_files-Own (f ∷ fs) m h =
      put_files-Own fs (insert (name f) f m) (All-insert (λ p. name p.1 ≡ p.0) (name f) f m refl h)

  has_name-values : (k : Text) (m : Files) → Own m → has_name k (values m) ≡ has k m
  unfolding lookup
  has_name-values k [] h = refl
  has_name-values k ((n, f) ∷ m) (e, h) =
      rw (e, has_name-values k m h)
        (sym (is_some-if (n == k) f (lookup k m) ∙ or_if (n == k) (has k m)))

  -- What the types of a message's fields, its methods, messages and services bring in.
  abbrev pub types_need : ℕ → Text → List FieldType → Bool
  types_need home k = any (λ t. has_name k (type_imports file_of name home t))

  abbrev pub methods_need : ℕ → Text → List Method → Bool
  methods_need home k = any (λ m. has_name k (method_imports file_of name home m))

  abbrev pub messages_need : ℕ → Text → List (List FieldType) → Bool
  messages_need home k = any (types_need home k)

  abbrev pub services_need : ℕ → Text → List Service → Bool
  services_need home k = any (λ (s : Service). methods_need home k s.methods)

  -- A map under construction holds its files under their own names, and has these names more.
  abbrev Puts : Bool → Text → Files → Files → Type 0
  Puts b k m m' = (Own m → Own m') × (has k m' ≡ (b || has k m))

  put_types-Puts :
      (home : ℕ) (k : Text) (ts : List FieldType) (m : Files)
      → Puts (types_need home k ts) k m (put_types file_of name home ts m)
  unfolding put_types
  put_types-Puts home k [] m = (λ h. h, refl)
  put_types-Puts home k (t ∷ ts) m =
      let fs = type_imports file_of name home t in
      let (own, names) = put_types-Puts home k ts (put_files name fs m) in
      (
        λ h. own (put_files-Own fs m h),
        names
            ∙ ap (λ b. types_need home k ts || b) (has-put_files k fs m)
            ∙ either (has_name k fs) (types_need home k ts) (has k m),
      )

  put_methods-Puts :
      (home : ℕ) (k : Text) (ms : List Method) (m : Files)
      → Puts (methods_need home k ms) k m (put_methods file_of name home ms m)
  unfolding put_methods
  put_methods-Puts home k [] m = (λ h. h, refl)
  put_methods-Puts home k (x ∷ ms) m =
      let fs = method_imports file_of name home x in
      let (own, names) = put_methods-Puts home k ms (put_files name fs m) in
      (
        λ h. own (put_files-Own fs m h),
        names
            ∙ ap (λ b. methods_need home k ms || b) (has-put_files k fs m)
            ∙ either (has_name k fs) (methods_need home k ms) (has k m),
      )

  or_nothing : (b : Bool) → (b || false) ≡ b
  or_nothing true = refl
  or_nothing false = refl

  values-Puts : (b : Bool) (k : Text) (m : Files) → Puts b k [] m → has_name k (values m) ≡ b
  unfolding lookup
  values-Puts b k m (own, names) = has_name-values k m (own tt) ∙ names ∙ or_nothing b

  has-drop_messages :
      (home : ℕ) (k : Text) (ms : List (List FieldType)) (m : Files)
      → has k (drop_messages file_of name home ms m) ≡ (not (messages_need home k ms) && has k m)
  unfolding drop_messages
  has-drop_messages home k [] m = refl
  has-drop_messages home k (ts ∷ ms) m =
      has-drop_messages home k ms _
      ∙ ap (λ b. not (messages_need home k ms) && b)
          (has-delete_files k (message_imports file_of name home ts) m)
      ∙ ap (λ b. not (messages_need home k ms) && (not b && has k m))
          (values-Puts (types_need home k ts) k _ (put_types-Puts home k ts []))
      ∙ both_gone (types_need home k ts) (messages_need home k ms) (has k m)

  has-drop_services :
      (home : ℕ) (k : Text) (ss : List Service) (m : Files)
      → has k (drop_services file_of name home ss m) ≡ (not (services_need home k ss) && has k m)
  unfolding drop_services
  has-drop_services home k [] m = refl
  has-drop_services home k (s ∷ ss) m =
      has-drop_services home k ss _
      ∙ ap (λ b. not (services_need home k ss) && b)
          (has-delete_files k (service_imports file_of name home s) m)
      ∙ ap (λ b. not (services_need home k ss) && (not b && has k m))
          (values-Puts (methods_need home k s.methods) k _ (put_methods-Puts home k s.methods []))
      ∙ both_gone (methods_need home k s.methods) (services_need home k ss) (has k m)

  pub unused_imports-has :
      (home : ℕ) (public deps : List ℕ) (ms : List (List FieldType)) (ss : List Service) (k : Text)
      → is_some (lookup k (unused_imports file_of name home public deps ms ss)) ≡ (
          not (messages_need home k ms || services_need home k ss)
          && is_some (lookup k (private_imports file_of name public 0 deps [])))
  unfolding unused_imports
  unused_imports-has home public deps ms ss k =
      has-drop_services home k ss _
      ∙ ap (λ b. not (services_need home k ss) && b) (has-drop_messages home k ms _)
      ∙ both_gone (messages_need home k ms) (services_need home k ss) _
