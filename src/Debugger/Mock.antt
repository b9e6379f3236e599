-- ===== src/Debugger/Mock.antt =====
-- The debugger for tests beside one that ends the process: the same calls on both.
use protoc_gen_star.Base.{
  Text, ◌≡◌, refl, sym, ap, ◌∙◌, true, false, Option, none, some, List, [], ◌∷◌, ◌++◌, append-nil,
  append_assoc,
}
use protoc_gen_star.Debugger.{
  Format, Console, Run, running, ended, panicked, Action, continue_with, RootDebugger, Debugger,
  root_debugger, prefixed_debugger, init_debugger, init_mock_debugger,
}
use protoc_gen_star.Debugger.Methods.{
  log, logf, debug, debugf, fail, failf, check_err, assert, exit, debugger_pop, Call, log_c,
  debug_c, fail_c, logf_c, debugf_c, failf_c, check_err_c, assert_c, exit_c, Command, push_c, pop_c,
  call_c, call, issue, issue_all,
}
use protoc_gen_star.Debugger.Prefixes.{with_prefix, call-prefixed}

module _ {V E : Type 0} (fmt : Format V E) where
  abbrev pub ending : RootDebugger V E
  ending = init_debugger fmt true

  abbrev pub mock : RootDebugger V E
  mock = init_mock_debugger fmt

  -- The later state has logged all that the earlier one had, and still knows of an end.
  pub record Onward (w w' : Console E) : Type 0 where
    pub logged : (rest : List Text) × (w'.output ≡ w.output ++ rest)
    pub still : w.exited ≡ true → w'.exited ≡ true

  Onward-one :
      (w w' : Console E) (l : Text)
      → w'.output ≡ w.output ++ l ∷ []
      → (w.exited ≡ true → w'.exited ≡ true)
      → Onward w w'
  Onward-one w w' l e s = record { logged = (l ∷ [], e); still = s }

  Onward-refl :
      (w w' : Console E) → w'.output ≡ w.output → (w.exited ≡ true → w'.exited ≡ true) → Onward w w'
  Onward-refl w w' e s = record { logged = ([], e ∙ sym (append-nil w.output)); still = s }

  Onward-trans : (w w' w'' : Console E) → Onward w w' → Onward w' w'' → Onward w w''
  Onward-trans w w' w'' h k =
      let (r, e) = h.logged in
      let (r', e') = k.logged in
      record {
        logged = (r ++ r', e' ∙ ap (◌++ r') e ∙ append_assoc w.output r r');
        still = λ x. k.still (h.still x);
      }

  -- A run of the mock from this state: it does not end the process.
  abbrev pub Goes : {A : Type 0} → Console E → Run E A → Type 0
  Goes w (running a w') = Onward w w'
  Goes w (ended c w') = ⊥
  Goes w (panicked w') = Onward w w'

  Goes-after : {A : Type 0} (w w' : Console E) (m : Run E A) → Onward w w' → Goes w' m → Goes w m
  Goes-after w w' (running a w'') h g = Onward-trans w w' w'' h g
  Goes-after w w' (ended c w'') h g = g
  Goes-after w w' (panicked w'') h g = Onward-trans w w' w'' h g

  Goes-bind :
      {A B : Type 0} (w : Console E) (m : Run E A) (k : A → Action E B)
      → Goes w m
      → ((a : A) (w' : Console E) → Goes w' (k a w'))
      → Goes w (continue_with k m)
  Goes-bind w (running a w') k h g = Goes-after w w' (k a w') h (g a w')
  Goes-bind w (ended c w') k h g = h
  Goes-bind w (panicked w') k h g = h

  root-Goes : (c : Call V E) (w : Console E) → Goes w (call fmt mock c root_debugger w)
  unfolding call log logf debug debugf fail failf check_err assert exit init_mock_debugger
  root-Goes (log_c v) w = Onward-one _ _ _ refl (λ h. h)
  root-Goes (debug_c v) w = Onward-one _ _ _ refl (λ h. h)
  root-Goes (fail_c v) w = Onward-one _ _ _ refl (λ h. refl)
  root-Goes (logf_c f v) w = Onward-one _ _ _ refl (λ h. h)
  root-Goes (debugf_c f v) w = Onward-one _ _ _ refl (λ h. h)
  root-Goes (failf_c f v) w = Onward-one _ _ _ refl (λ h. refl)
  root-Goes (check_err_c none v) w = Onward-refl _ _ refl (λ h. h)
  root-Goes (check_err_c (some e) v) w = Onward-one _ _ _ refl (λ h. refl)
  root-Goes (assert_c true v) w = Onward-refl _ _ refl (λ h. h)
  root-Goes (assert_c false v) w = Onward-one _ _ _ refl (λ h. refl)
  root-Goes (exit_c code) w = Onward-refl _ _ refl (λ h. refl)

  call-Goes : (c : Call V E) (d : Debugger) (w : Console E) → Goes w (call fmt mock c d w)
  call-Goes c root_debugger w = root-Goes c w
  call-Goes c (prefixed_debugger d p) w =
      rw (call-prefixed fmt mock c d p) (call-Goes (with_prefix fmt p c) d w)

  issue-Goes :
      (c : Command V E) (d : Option Debugger) (w : Console E) → Goes w (issue fmt mock c d w)
  unfolding issue debugger_pop init_mock_debugger
  issue-Goes c none w = Onward-refl _ _ refl (λ h. h)
  issue-Goes (push_c p) (some d) w = Onward-refl _ _ refl (λ h. h)
  issue-Goes pop_c (some root_debugger) w = Onward-one _ _ _ refl (λ h. refl)
  issue-Goes pop_c (some (prefixed_debugger d p)) w = Onward-refl _ _ refl (λ h. h)
  issue-Goes (call_c c) (some d) w =
      Goes-bind w (call fmt mock c d w) _ (call-Goes c d w)
        (λ u w'. Onward-refl w' w' refl (λ h. h))

  issue_all-Goes :
      (cs : List (Command V E)) (d : Option Debugger) (w : Console E)
      → Goes w (issue_all fmt mock cs d w)
  unfolding issue_all
  issue_all-Goes [] d w = Onward-refl w w refl (λ h. h)
  issue_all-Goes (c ∷ cs) d w =
      Goes-bind w (issue fmt mock c d w) _ (issue-Goes c d w) (λ d' w'. issue_all-Goes cs d' w')

  -- Where the process has ended in the state `w`, the mock is in one that has logged all of that,
  -- and knows of the end.
  abbrev pub After : {A : Type 0} → Console E → Run E A → Type 0
  After w (running a w') = Onward w w' × (w'.exited ≡ true)
  After w (ended c w') = ⊥
  After w (panicked w') = Onward w w' × (w'.exited ≡ true)

  -- Where the one returns, so does the mock, in the same state; where the one ends the process, the
  -- mock has logged as much and knows of the end.
  abbrev pub Alike : {A : Type 0} → Run E A → Run E A → Type 0
  Alike (running a w) m = m ≡ running a w
  Alike (ended c w) m = After w m
  Alike (panicked w) m = m ≡ panicked w

  After-later :
      {A : Type 0} (w w' : Console E) (m : Run E A)
      → Onward w w'
      → w'.exited ≡ true
      → Goes w' m
      → After w m
  After-later w w' (running a w'') h e g = (Onward-trans w w' w'' h g, g.still e)
  After-later w w' (ended c w'') h e g = g
  After-later w w' (panicked w'') h e g = (Onward-trans w w' w'' h g, g.still e)

  After-bind :
      {A B : Type 0} (w : Console E) (m : Run E A) (k : A → Action E B)
      → After w m
      → ((a : A) (w' : Console E) → Goes w' (k a w'))
      → After w (continue_with k m)
  After-bind w (running a w') k (h, e) g = After-later w w' (k a w') h e (g a w')
  After-bind w (ended c w') k h g = h
  After-bind w (panicked w') k h g = h

  Alike-bind :
      {A B : Type 0} (r m : Run E A) (j k : A → Action E B)
      → Alike r m
      → ((a : A) (w : Console E) → Alike (j a w) (k a w))
      → ((a : A) (w : Console E) → Goes w (k a w))
      → Alike (continue_with j r) (continue_with k m)
  Alike-bind (running a w) m j k e h g = rw e (h a w)
  Alike-bind (ended c w) m j k e h g = After-bind w m k e g
  Alike-bind (panicked w) m j k e h g = ap (continue_with k) e

  root-Alike :
      (c : Call V E) (w : Console E)
      → Alike (call fmt ending c root_debugger w) (call fmt mock c root_debugger w)
  unfolding call log logf debug debugf fail failf check_err assert exit init_debugger
      init_mock_debugger
  root-Alike (log_c v) w = refl
  root-Alike (debug_c v) w = refl
  root-Alike (fail_c v) w = (Onward-refl _ _ refl (λ h. refl), refl)
  root-Alike (logf_c f v) w = refl
  root-Alike (debugf_c f v) w = refl
  root-Alike (failf_c f v) w = (Onward-refl _ _ refl (λ h. refl), refl)
  root-Alike (check_err_c none v) w = refl
  root-Alike (check_err_c (some e) v) w = (Onward-refl _ _ refl (λ h. refl), refl)
  root-Alike (assert_c true v) w = refl
  root-Alike (assert_c false v) w = (Onward-refl _ _ refl (λ h. refl), refl)
  root-Alike (exit_c code) w = (Onward-refl _ _ refl (λ h. refl), refl)

  call-Alike :
      (c : Call V E) (d : Debugger) (w : Console E)
      → Alike (call fmt ending c d w) (call fmt mock c d w)
  call-Alike c root_debugger w = root-Alike c w
  call-Alike c (prefixed_debugger d p) w =
      rw (call-prefixed fmt ending c d p, call-prefixed fmt mock c d p)
        (call-Alike (with_prefix fmt p c) d w)

  issue-Alike :
      (c : Command V E) (d : Option Debugger) (w : Console E)
      → Alike (issue fmt ending c d w) (issue fmt mock c d w)
  unfolding issue debugger_pop init_debugger init_mock_debugger
  issue-Alike c none w = refl
  issue-Alike (push_c p) (some d) w = refl
  issue-Alike pop_c (some root_debugger) w = (Onward-refl _ _ refl (λ h. refl), refl)
  issue-Alike pop_c (some (prefixed_debugger d p)) w = refl
  issue-Alike (call_c c) (some d) w =
      Alike-bind (call fmt ending c d w) (call fmt mock c d w) _ _ (call-Alike c d w) (λ u w'. refl)
        (λ u w'. Onward-refl w' w' refl (λ h. h))

  -- Whatever the calls on a debugger with debugging on, pushes and pops among them: where they
  -- return or panic, the same calls on the mock do, in the same state; where they end the process,
  -- the mock does not end, its log begins with what was logged, and `Exited` is true.
  pub issue_all-Alike :
      (cs : List (Command V E)) (d : Option Debugger) (w : Console E)
      → Alike (issue_all fmt ending cs d w) (issue_all fmt mock cs d w)
  unfolding issue_all
  issue_all-Alike [] d w = refl
  issue_all-Alike (c ∷ cs) d w =
      Alike-bind (issue fmt ending c d w) (issue fmt mock c d w) _ _ (issue-Alike c d w)
        (λ d' w'. issue_all-Alike cs d' w') (λ d' w'. issue_all-Goes cs d' w')
