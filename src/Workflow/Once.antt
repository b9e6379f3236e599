-- ===== src/Workflow/Once.antt =====
-- A generator runs its workflow once, however it is called.
use protoc_gen_star.Base.{
  if◌then◌else◌, ◌≡◌, refl, ap, ◌∙◌, Bool, true, false, none, some, List, [], ◌∷◌,
}
use protoc_gen_star.Workflow.{Phases, new_once, State, Call, ast_call, render_call, perform_all}

module _ {W A R : Type 0} (wf : Phases W A R) (w : W) where
  -- One run of the wrapped workflow: every phase on what the one before it gave.
  abbrev pub straight : W
  straight = let init = wf.init w in let run = wf.run init.0 init.1 in wf.persist run.0 run.1

  fresh : State wf
  fresh = (new_once, w)

  gathered : State wf
  gathered = (record { ast = some (wf.init w).0; arts = none; persisted = false }, (wf.init w).1)

  rendered : State wf
  rendered = (
    record {
      ast = some (wf.init w).0;
      arts = some (wf.run (wf.init w).0 (wf.init w).1).0;
      persisted = true;
    },
    straight,
  )

  abbrev pub has_render : List Call → Bool
  has_render [] = false
  has_render (render_call ∷ cs) = true
  has_render (ast_call ∷ cs) = has_render cs

  after_rendered : (cs : List Call) → perform_all wf cs rendered ≡ rendered
  unfolding perform_all rendered
  after_rendered [] = refl
  after_rendered (ast_call ∷ cs) = after_rendered cs
  after_rendered (render_call ∷ cs) = after_rendered cs

  after_gathered :
      (cs : List Call) → perform_all wf cs gathered ≡ (if has_render cs then rendered else gathered)
  unfolding perform_all rendered gathered
  after_gathered [] = refl
  after_gathered (ast_call ∷ cs) = after_gathered cs
  after_gathered (render_call ∷ cs) = after_rendered cs

  -- From a new generator, any calls of `AST` and `Render` with a `Render` among them leave the
  -- world as one run of the wrapped workflow does: each of its phases is called once, on what the
  -- one before it gave. Without a `Render`, and with an `AST`, only the first phase is called, once.
  pub perform_all-once :
      (c : Call) (cs : List Call)
      → (perform_all wf (c ∷ cs) (new_once, w)).1
        ≡ (if has_render (c ∷ cs) then straight else (wf.init w).1)
  unfolding perform_all rendered gathered
  perform_all-once render_call cs = ap (λ (s : State wf). s.1) (after_rendered cs)
  perform_all-once ast_call cs =
      ap (λ (s : State wf). s.1) (after_gathered cs) ∙ world (has_render cs)
    where
      world :
          (b : Bool)
          → (if b then rendered else gathered).1 ≡ (if b then straight else (wf.init w).1)
      world true = refl
      world false = refl
