-- ===== src/FilePath/Tests.antt =====
-- Paths of name_test.go, and of the documentation of package filepath.
use protoc_gen_star.Base.{text, ◌≡◌, refl, []}
use protoc_gen_star.FilePath.{clean, dir, base, ext, base_name, push, set_base, set_ext}

cleans :
    (clean (text "a//b/./c/..") ≡ text "a/b")
    × (clean (text "/../a") ≡ text "/a")
    × (clean (text "../../x/../y") ≡ text "../../y")
    × (clean [] ≡ text ".")
    × (clean (text "a/..") ≡ text ".")
    × (clean (text "///") ≡ text "/")
unfolding clean
cleans = (refl, refl, refl, refl, refl, refl)

parts :
    (dir (text "/foo/bar") ≡ text "/foo")
    × (base (text "/foo/bar/") ≡ text "bar")
    × (ext (text "a.b/c.tar.gz") ≡ text ".gz")
    × (base_name (text "fizz/buzz.baz") ≡ text "buzz")
    × (set_ext (text "fizz/buzz.baz") (text ".bar") ≡ text "fizz/buzz.bar")
    × (set_base (text "fizz/buzz") (text "baz") ≡ text "fizz/baz")
    × (push (text "fizz") (text "buzz") ≡ text "fizz/buzz")
unfolding base set_ext
parts = (refl, refl, refl, refl, refl, refl, refl)
