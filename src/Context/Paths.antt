-- ===== src/Context/Paths.antt =====
-- Where a context leads to: `Pop` and `PopDir` after pushes, and the output path.
use mathlib.Core.Path.{subst}
use protoc_gen_star.Base.{Text, some-injective, ◌≡◌, refl, sym, ap, ◌∙◌, ◌≢◌, some, List, [], ◌∷◌}
use protoc_gen_star.FilePath.{slash, render, clean, join_elems}
use protoc_gen_star.FilePath.Clean.{clean_idem}
use protoc_gen_star.Parameters.{Parameters}
use protoc_gen_star.Text.{join}
use protoc_gen_star.Context.{
  BuildContext, root_context, prefix_context, dir_context, context, push_prefix, push_dir,
  context_path, pop, pop_dir,
}

-- `Push` for each of these prefixes.
abbrev pub push_all : BuildContext → List Text → BuildContext
push_all c [] = c
push_all c (p ∷ ps) = push_all (push_prefix c p) ps

pop_dir-push_all : (c : BuildContext) (ps : List Text) → pop_dir (push_all c ps) ≡ pop_dir c
pop_dir-push_all c [] = refl
pop_dir-push_all c (p ∷ ps) = pop_dir-push_all (push_prefix c p) ps

context_path-push_all :
    (c : BuildContext) (ps : List Text) → context_path (push_all c ps) ≡ context_path c
context_path-push_all c [] = refl
context_path-push_all c (p ∷ ps) = context_path-push_all (push_prefix c p) ps

-- After `PushDir` and any pushes of prefixes, the output path is the directory joined to the old
-- one, whatever the prefixes, and `PopDir` gives the context before the `PushDir`.
pub pop_dir-push_dir :
    (c : BuildContext) (d : Text) (ps : List Text)
    → (context_path (push_all (push_dir c d) ps) ≡ join_elems (context_path c ∷ clean d ∷ []))
      × (pop_dir (push_all (push_dir c d) ps) ≡ c)
pop_dir-push_dir c d ps =
    (context_path-push_all (push_dir c d) ps, pop_dir-push_all (push_dir c d) ps)

-- A context that `Context` made, or that `Push`, `PushDir`, `Pop` or `PopDir` gave.
pub data Reached : BuildContext → Type 0 where
  made : (params : Parameters) (output : Text) → Reached (context params output)
  pushed : {c : BuildContext} (prefix : Text) → Reached c → Reached (push_prefix c prefix)
  pushed_dir : {c : BuildContext} (d : Text) → Reached c → Reached (push_dir c d)
  popped : {c c' : BuildContext} → Reached c → pop c ≡ some c' → Reached c'
  popped_dir : {c : BuildContext} → Reached c → Reached (pop_dir c)

-- The paths in a context are clean.
abbrev IsClean : BuildContext → Type 0
IsClean (root_context p params) = clean p ≡ p
IsClean (prefix_context c prefix) = IsClean c
IsClean (dir_context c p) = IsClean c × (clean p ≡ p)

pop-IsClean : (c c' : BuildContext) → IsClean c → pop c ≡ some c' → IsClean c'
pop-IsClean (root_context p params) c' h e = cc e
pop-IsClean (prefix_context c prefix) c' h e = subst IsClean (some-injective e) h
pop-IsClean (dir_context c p) c' h e = subst IsClean (some-injective e) h.0

pop_dir-IsClean : (c : BuildContext) → IsClean c → IsClean (pop_dir c)
pop_dir-IsClean (root_context p params) h = h
pop_dir-IsClean (prefix_context c prefix) h = pop_dir-IsClean c h
pop_dir-IsClean (dir_context c p) h = h.0

Reached-IsClean : {c : BuildContext} → Reached c → IsClean c
Reached-IsClean (made params output) = clean_idem output
Reached-IsClean (pushed prefix r) = Reached-IsClean r
Reached-IsClean (pushed_dir d r) = (Reached-IsClean r, clean_idem d)
Reached-IsClean (popped {c} {c'} r e) = pop-IsClean c c' (Reached-IsClean r) e
Reached-IsClean (popped_dir {c} r) = pop_dir-IsClean c (Reached-IsClean r)

-- A joined path is clean, if its first element is not empty.
join_elems-clean : (a b : Text) → a ≢ [] → clean (join_elems (a ∷ b ∷ [])) ≡ join_elems (a ∷ b ∷ [])
unfolding join_elems
join_elems-clean [] b ne = absurd (ne refl)
join_elems-clean (c ∷ a) b ne = clean_idem (join (slash ∷ []) ((c ∷ a) ∷ b ∷ []))

clean-ne-nil : (s : Text) → clean s ≢ []
unfolding clean render
clean-ne-nil s h = let e : clean [] ≡ [] = ap clean (sym h) ∙ clean_idem s ∙ h in cc e

IsClean-context_path : (c : BuildContext) → IsClean c → clean (context_path c) ≡ context_path c
IsClean-context_path (root_context p params) h = h
IsClean-context_path (prefix_context c prefix) h = IsClean-context_path c h
IsClean-context_path (dir_context c p) h =
    join_elems-clean (context_path c) p
      (λ e. clean-ne-nil (context_path c) (IsClean-context_path c h.0 ∙ e))

-- The output path of every context that can be reached is clean.
pub Reached-context_path : (c : BuildContext) → Reached c → clean (context_path c) ≡ context_path c
Reached-context_path c r = IsClean-context_path c (Reached-IsClean r)
