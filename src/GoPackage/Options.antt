-- ===== src/GoPackage/Options.antt =====
-- The forms of a `go_package` option.
use protoc_gen_star.Base.{
  nat_beq_iff, nat_eq, Text, text_eq, beq_refl, length, All-append, ℕ, ◌≡◌, refl, ◌≢◌, none, some,
  [], ◌∷◌, ◌++◌, arith,
}
use protoc_gen_star.Text.{last_index}
use protoc_gen_star.Text.Cut.{take-append, drop-append}
use protoc_gen_star.FilePath.{slash}
use protoc_gen_star.Text.Split.{Lacks}
use protoc_gen_star.GoPackage.{replace_all, semicolon, split_option}

last_index-Lacks : (c : ℕ) (s : Text) → Lacks c s → last_index c s ≡ none
unfolding last_index
last_index-Lacks c [] h = refl
last_index-Lacks c (x ∷ s) h = ground (arith, nat_beq_iff x c, last_index-Lacks c s h.1)

last_index-append : (c : ℕ) (s t : Text) → Lacks c t → last_index c (s ++ c ∷ t) ≡ some (length s)
unfolding last_index
last_index-append c [] t h = rw (last_index-Lacks c t h, beq_refl c) refl
last_index-append c (x ∷ s) t h = rw (last_index-append c s t h) refl

Lacks-append : (c : ℕ) (s t : Text) → Lacks c s → Lacks c t → Lacks c (s ++ t)
Lacks-append c s t h h' = All-append (λ x. x ≢ c) s t h h'

with_semicolon :
    (directory path name : Text)
    → Lacks semicolon name
    → split_option directory (path ++ semicolon ∷ name) ≡ (path, replace_all name)
unfolding split_option
with_semicolon directory path name h =
    rw
      (
        last_index-append semicolon path name h,
        split_option,
        take-append path (semicolon ∷ name),
        drop-append semicolon path name,
      )
      refl

with_slash :
    (directory path name : Text)
    → Lacks semicolon (path ++ slash ∷ name)
    → Lacks slash name
    → split_option directory (path ++ slash ∷ name) ≡ (path ++ slash ∷ name, replace_all name)
unfolding split_option
with_slash directory path name none_in h =
    rw
      (
        last_index-Lacks semicolon (path ++ slash ∷ name) none_in,
        last_index-append slash path name h,
        split_option,
        drop-append slash path name,
      )
      refl

name_alone :
    (directory name : Text)
    → Lacks semicolon name
    → Lacks slash name
    → split_option directory name ≡ (directory, replace_all name)
unfolding split_option
name_alone directory name h h' =
    rw (last_index-Lacks semicolon name h, last_index-Lacks slash name h', split_option) refl

-- For a path without a semicolon and a name with neither a semicolon nor a slash, a `go_package`
-- option of the path, a semicolon and the name gives that path and that name; one of the path, a
-- slash and the name gives the whole as the path and that name; and the name alone gives the
-- directory of the file and that name. What is not a letter or a digit of ASCII is replaced by an
-- underscore in the names.
pub split_option_forms :
    (directory path name : Text)
    → Lacks semicolon path
    → Lacks semicolon name
    → Lacks slash name
    → (split_option directory (path ++ semicolon ∷ name) ≡ (path, replace_all name))
      × (split_option directory (path ++ slash ∷ name) ≡ (path ++ slash ∷ name, replace_all name))
      × (split_option directory name ≡ (directory, replace_all name))
split_option_forms directory path name hp hs hn = (
  with_semicolon directory path name hs,
  with_slash directory path name
      (Lacks-append semicolon path (slash ∷ name) hp ((λ e. omega (arith, e)), hs)) hn,
  name_alone directory name hs hn,
)
