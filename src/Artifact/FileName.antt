-- ===== src/Artifact/FileName.antt =====
-- `cleanGeneratorFileName`: an accepted name stays below the output directory.
use mathlib.Core.List.{reverse, reverse-cons}
use protoc_gen_star.Base.{
  Bool-cases, ◌==◌, nat_eq, Text, text_beq_iff, text_eq, beq_false, ne_of_beq, All, ℕ, ◌≡◌, refl,
  ap, ◌∙◌, ◌≢◌, ◌⊎◌, inl, inr, Bool, true, false, List, [], ◌∷◌, ◌++◌, arith,
}
use protoc_gen_star.Text.{split, join, has_prefix}
use protoc_gen_star.Text.Split.{Lacks, split-Lacks_self, split-join}
use protoc_gen_star.FilePath.{slash, dot, dot_dot, is_abs, render, clean}
use protoc_gen_star.FilePath.Elements.{IsElement, IsStack}
use protoc_gen_star.FilePath.Clean.{
  kept, clean-render, kept-IsStack, IsStack-All, All-reverse, clean-render_lem, clean_idem,
  is_abs-clean,
}
use protoc_gen_star.Artifact.{outside_name, ok, err, clean_generator_file_name}

-- An element that goes one directory down.
pub record GoesDown (e : Text) : Type 0 where
  pub element : IsElement e
  pub ne_dot_dot : e ≢ dot_dot

-- A stack with `..` in it has one at its bottom, which the path begins with.
IsStack-cases :
    (r : Bool) (es : List Text)
    → IsStack r es
    → All (λ e. e ≢ dot_dot) es ⊎ ((qs : List Text) × (reverse es ≡ dot_dot ∷ qs))
IsStack-cases r [] h = inl tt
IsStack-cases r (e ∷ es) h = elim (IsStack-cases r es h.2) [
  | inr (qs, eq) ↦ inr (qs ++ (e ∷ []), rw (reverse-cons e es, eq) refl)
  | inl names ↦ elim (Bool-cases (e == dot_dot)) [
    | inr name ↦ inl (ne_of_beq e dot_dot name, names)
    | inl up ↦ let same = (text_beq_iff e dot_dot).0 up in inr (only es names (h.1 same).1 same)
  ]
]
  where
    only :
        (fs : List Text)
        → All (λ f. f ≢ dot_dot) fs
        → All (λ f. f ≡ dot_dot) fs
        → e ≡ dot_dot
        → (qs : List Text) × (reverse (e ∷ fs) ≡ dot_dot ∷ qs)
    only [] n a same = ([], ap (λ x. x ∷ []) same)
    only (f ∷ fs) n a same = absurd (n.0 a.0)

GoesDown-All : (es : List Text) → All IsElement es → All (λ e. e ≢ dot_dot) es → All GoesDown es
GoesDown-All [] h n = tt
GoesDown-All (e ∷ es) h n = (record { element = h.0; ne_dot_dot = n.0 }, GoesDown-All es h.1 n.1)

Lacks-All : (es : List Text) → All GoesDown es → All (Lacks slash) es
Lacks-All [] h = tt
Lacks-All (e ∷ es) h = (h.0.element.no_slash, Lacks-All es h.1)

split-render :
    (es : List Text)
    → All GoesDown es
    → render false es ≢ dot
    → All GoesDown (split slash (render false es))
unfolding render
split-render [] h n = absurd (n refl)
split-render (e ∷ es) h n = rw (split-join slash e es h.0.element.no_slash (Lacks-All es h.1)) h

join_dot_dot : (qs : List Text) → has_prefix (render false (dot_dot ∷ qs)) dot_dot ≡ true
unfolding render has_prefix
join_dot_dot [] = refl
join_dot_dot (q ∷ qs) = refl

-- The tests that an accepted name passes.
clean_generator_file_name-eq-ok :
    (name : Text) {out : Text}
    → clean_generator_file_name name ≡ ok out
    → (is_abs name ≡ false) × (out ≡ clean name) × (out ≢ dot) × (has_prefix out dot_dot ≡ false)
unfolding clean_generator_file_name
clean_generator_file_name-eq-ok name h = ground (arith, text_beq_iff (clean name) dot)

-- A name that is accepted comes out relative, and each of its elements between slashes goes one
-- directory down: none is empty, `.` or `..`.
pub clean_generator_file_name-GoesDown :
    (name out : Text)
    → clean_generator_file_name name ≡ ok out
    → (is_abs out ≡ false) × All GoesDown (split slash out)
clean_generator_file_name-GoesDown name out h =
    let (rel, eq, nd, np) = clean_generator_file_name-eq-ok name h in
    let path : out ≡ render false (reverse (kept name)) =
      eq ∙ clean-render name ∙ ap (λ b. render b (reverse (kept name))) rel in
    let stack = rw rel at (kept-IsStack name) in
    (
      rw (eq, is_abs-clean name) rel,
      elim (IsStack-cases _ (kept name) (kept-IsStack name)) [
        | inr (qs, up) ↦ absurd (cc (np, path, up, join_dot_dot qs))
        | inl names ↦ rw path (
            split-render (reverse (kept name))
              (All-reverse GoesDown (kept name)
                (GoesDown-All (kept name) (IsStack-All _ (kept name) (kept-IsStack name)) names))
              (λ e. nd (path ∙ e)))
      ],
    )

-- The form in which a name is accepted is accepted again, unchanged.
pub clean_generator_file_name_idem :
    (name out : Text)
    → clean_generator_file_name name ≡ ok out
    → clean_generator_file_name out ≡ ok out
unfolding clean_generator_file_name
clean_generator_file_name_idem name out h =
    let (rel, eq, nd, np) = clean_generator_file_name-eq-ok name h in
    let rel' : is_abs out ≡ false = rw (eq, is_abs-clean name) rel in
    let same : clean out ≡ out = rw eq (clean_idem name) in
    rw (rel', same, beq_false out dot nd, np) refl

Lacks-IsElement : (c : ℕ) (t : Text) → Lacks slash (c ∷ t) → IsElement (b'.' ∷ b'.' ∷ c ∷ t)
Lacks-IsElement c t h = record {
  ne_nil = λ e. cc;
  ne_dot = λ e. cc;
  no_slash = (omega arith, (omega arith, h));
}

clean-Lacks : (e : Text) → IsElement e → e ≢ dot_dot → clean e ≡ e
unfolding render join
clean-Lacks e h n = clean-render_lem false (e ∷ []) (h, (λ q. absurd (n q)), tt)

-- A name of one element that begins with two dots and goes on, without a slash, is clean, goes
-- one directory down, and is refused all the same.
pub clean_generator_file_name_dots :
    (c : ℕ) (t : Text)
    → Lacks slash (c ∷ t)
    → (clean (b'.' ∷ b'.' ∷ c ∷ t) ≡ b'.' ∷ b'.' ∷ c ∷ t)
      × All GoesDown (split slash (b'.' ∷ b'.' ∷ c ∷ t))
      × (clean_generator_file_name (b'.' ∷ b'.' ∷ c ∷ t) ≡ err outside_name)
unfolding clean_generator_file_name
clean_generator_file_name_dots c t h =
    let e = Lacks-IsElement c t h in
    let n : Text = b'.' ∷ b'.' ∷ c ∷ t in
    let other : n ≢ dot_dot = λ q. cc in
    let same = clean-Lacks n e other in
    (
      same,
      rw (split-Lacks_self slash n e.no_slash) (record { element = e; ne_dot_dot = other }, tt),
      rw same (unfold has_prefix in refl),
    )
