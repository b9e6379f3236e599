-- ===== src/Artifact/Tests.antt =====
-- Names of artifacts that are accepted and refused.
use protoc_gen_star.Base.{text, All, ◌≡◌, refl, false, arith}
use protoc_gen_star.Text.{split}
use protoc_gen_star.FilePath.{slash, is_abs, clean}
use protoc_gen_star.Artifact.{absolute_name, outside_name, ok, err, clean_generator_file_name}
use protoc_gen_star.Artifact.FileName.{
  GoesDown, clean_generator_file_name-GoesDown, clean_generator_file_name_idem,
  clean_generator_file_name_dots,
}

accepted : clean_generator_file_name (text "./a//b/../c.go") ≡ ok (text "a/c.go")
unfolding clean_generator_file_name clean
accepted = refl

refused :
    (clean_generator_file_name (text "/a") ≡ err absolute_name)
    × (clean_generator_file_name (text "a/../../b") ≡ err outside_name)
    × (clean_generator_file_name (text "a/..") ≡ err outside_name)
unfolding clean_generator_file_name clean
refused = (refl, refl, refl)

clean_generator_file_name-GoesDown_example :
    (is_abs (text "a/c.go") ≡ false) × All GoesDown (split slash (text "a/c.go"))
clean_generator_file_name-GoesDown_example =
    clean_generator_file_name-GoesDown (text "./a//b/../c.go") (text "a/c.go") accepted

cleaned_twice : clean_generator_file_name (text "a/c.go") ≡ ok (text "a/c.go")
cleaned_twice = clean_generator_file_name_idem (text "./a//b/../c.go") (text "a/c.go") accepted

dots_refused :
    (clean (text "..foo") ≡ text "..foo")
    × All GoesDown (split slash (text "..foo"))
    × (clean_generator_file_name (text "..foo") ≡ err outside_name)
dots_refused =
    clean_generator_file_name_dots b'f' (text "oo")
      ((λ e. omega (arith, e)), ((λ e. omega (arith, e)), ((λ e. omega (arith, e)), tt)))
