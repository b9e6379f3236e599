-- ===== src/Workflow/Register.antt =====
-- Registering modules with a debugger that ends the process.
use protoc_gen_star.Base.{
  if◌then◌else◌, Text, text, ◌≡◌, refl, sym, ap, ◌∙◌, Bool, true, false, Option, none, some, List,
  [], ◌∷◌, ◌++◌, append-nil, append_assoc,
}
use protoc_gen_star.Debugger.{
  Format, Console, Run, running, ended, continue_with, return, root_debugger, init_debugger,
}
use protoc_gen_star.Debugger.Methods.{debug, assert}
use protoc_gen_star.Workflow.Setup.{Settings, check_modules, register_module}

-- The modules in front of the first nil one, and whether there is one.
abbrev pub before_nil : {M : Type 0} → List (Option M) → List M × Bool
before_nil [] = ([], false)
before_nil (none ∷ os) = ([], true)
before_nil (some m ∷ os) = (m ∷ (before_nil os).0, (before_nil os).1)

module _ {V E M : Type 0} (fmt : Format V E) (name : M → Text) where
  -- What is logged of these modules.
  abbrev pub announced : Bool → List M → List Text
  announced debugs [] = []
  announced debugs (m ∷ ms) =
      if debugs
      then fmt.println (fmt.of_text (text "registering module: ") ∷ fmt.of_text (name m) ∷ [])
        ∷ announced debugs ms
      else announced debugs ms

  abbrev pub complaint : Text
  complaint =
      let message = fmt.of_text (text "nil module provided") in
      fmt.println (fmt.of_text (fmt.sprint (fmt.of_text (fmt.sprint (message ∷ [])) ∷ [])) ∷ [])

  abbrev pub with_lines : Console E → List Text → Console E
  with_lines w ls = record w { output = w.output ++ ls }

  -- What checking the modules comes to.
  abbrev pub checked : Bool → List (Option M) → Console E → Run E (List M)
  checked debugs os w =
      let (ms, found) = before_nil os in
      if found
      then ended 1 (with_lines w (announced debugs ms ++ complaint ∷ []))
      else running ms (with_lines w (announced debugs ms))

  abbrev outcome : Bool → List M → List Text → Console E → Run E (List M)
  outcome found ms ls w =
      if found then ended 1 (with_lines w (ls ++ complaint ∷ [])) else running ms (with_lines w ls)

  one_more_line :
      (found : Bool) (m : M) (ms : List M) (l : Text) (ls : List Text) (w : Console E)
      → continue_with (λ ms'. return (m ∷ ms')) (outcome found ms ls (with_lines w (l ∷ [])))
        ≡ outcome found (m ∷ ms) (l ∷ ls) w
  one_more_line true m ms l ls w =
      ap (λ o. ended 1 (record w { output = o }))
        (append_assoc w.output (l ∷ []) (ls ++ complaint ∷ []))
  one_more_line false m ms l ls w =
      ap (λ o. running (m ∷ ms) (record w { output = o })) (append_assoc w.output (l ∷ []) ls)

  one_more :
      (found : Bool) (m : M) (ms : List M) (ls : List Text) (w : Console E)
      → continue_with (λ ms'. return (m ∷ ms')) (outcome found ms ls w)
        ≡ outcome found (m ∷ ms) ls w
  one_more true m ms ls w = refl
  one_more false m ms ls w = refl

  check_modules-checked :
      (debugs : Bool) (os : List (Option M)) (w : Console E)
      → check_modules fmt (init_debugger fmt debugs) root_debugger name os w ≡ checked debugs os w
  unfolding check_modules init_debugger assert debug
  check_modules-checked debugs [] w =
      ap (λ o. running [] (record w { output = o })) (sym (append-nil w.output))
  check_modules-checked debugs (none ∷ os) w = refl
  check_modules-checked true (some m ∷ os) w =
      let l = fmt.println (fmt.of_text (text "registering module: ") ∷ fmt.of_text (name m) ∷ []) in
      ap (continue_with (λ ms. return (m ∷ ms)))
        (check_modules-checked true os (with_lines w (l ∷ [])))
      ∙ one_more_line (before_nil os).1 m (before_nil os).0 l (announced true (before_nil os).0) w
  check_modules-checked false (some m ∷ os) w =
      ap (continue_with (λ ms. return (m ∷ ms))) (check_modules-checked false os w)
      ∙ one_more (before_nil os).1 m (before_nil os).0 (announced false (before_nil os).0) w

  -- With a debugger that ends the process, `RegisterModule` announces each module in front of the
  -- first nil one, if debugging is on. If none is nil it appends them all in order, and else it
  -- ends the process with the code 1 and the complaint.
  pub register_module-all :
      {Input Writer Fs P : Type 0} (debugs : Bool) (os : List (Option M))
      (g : Settings Input Writer Fs M P) (w : Console E)
      → let (ms, found) = before_nil os in
        register_module fmt (init_debugger fmt debugs) root_debugger name os g w ≡ (
          if found
          then ended 1 (with_lines w (announced debugs ms ++ complaint ∷ []))
          else running (record g { mods = g.mods ++ ms }) (with_lines w (announced debugs ms)))
  unfolding register_module
  register_module-all debugs os g w =
      ap (continue_with (λ ms. return (record g { mods = g.mods ++ ms })))
        (check_modules-checked debugs os w)
      ∙ by_found (before_nil os).1
    where
      by_found :
          (found : Bool)
          → continue_with
              (λ ms. return (record g { mods = g.mods ++ ms }))
              (outcome found (before_nil os).0 (announced debugs (before_nil os).0) w)
            ≡ (if found
                then ended 1 (with_lines w (announced debugs (before_nil os).0 ++ complaint ∷ []))
                else running
                    (record g { mods = g.mods ++ (before_nil os).0 })
                    (with_lines w (announced debugs (before_nil os).0)))
      by_found true = refl
      by_found false = refl
