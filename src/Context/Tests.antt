-- ===== src/Context/Tests.antt =====
-- Contexts of build_context_test.go.
use protoc_gen_star.Base.{text, ◌≡◌, refl, [], ◌∷◌}
use protoc_gen_star.FilePath.{clean, join_elems}
use protoc_gen_star.Context.{BuildContext, context, push_prefix, push_dir, context_path, pop_dir}
use protoc_gen_star.Context.Paths.{
  push_all, pop_dir-push_dir, made, pushed_dir, Reached-context_path,
}

abbrev root : BuildContext
root = context [] (text "foo/bar")

pushed_path : context_path (push_dir (push_prefix root (text "p")) (text "../baz")) ≡ text "foo/baz"
unfolding join_elems clean
pushed_path = refl

popped_dir :
    (context_path (push_all (push_dir root (text "baz")) (text "p" ∷ []))
      ≡ join_elems (context_path root ∷ clean (text "baz") ∷ []))
    × (pop_dir (push_all (push_dir root (text "baz")) (text "p" ∷ [])) ≡ root)
popped_dir = pop_dir-push_dir root (text "baz") (text "p" ∷ [])

Reached-context_path_example :
    clean (context_path (push_dir root (text "a//b"))) ≡ context_path (push_dir root (text "a//b"))
Reached-context_path_example =
    Reached-context_path (push_dir root (text "a//b"))
      (pushed_dir (text "a//b") (made [] (text "foo/bar")))
