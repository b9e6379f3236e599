-- ===== src/Debugger/Methods.antt =====
-- debug.go: the methods of the debuggers. A method of a prefixed debugger adds its prefix and calls
-- its parent, up to the root.
use protoc_gen_star.Base.{
  if◌then◌else◌, Text, text, ℕ, Bool, true, false, Option, none, some, List, [], ◌∷◌,
}
use protoc_gen_star.Debugger.{
  Format, panicked, Action, ◌>>=◌, ◌>>◌, return, RootDebugger, Debugger, root_debugger,
  prefixed_debugger, debugger_push, prepend_format, write_line, prepend,
}

module _ {V E : Type 0} (fmt : Format V E) (root : RootDebugger V E) where
  -- The methods of `rootDebugger`.
  abbrev pub root_log : List V → Action E (Unit {0})
  root_log v = write_line fmt (fmt.println v)

  abbrev pub root_logf : Text → List V → Action E (Unit {0})
  root_logf format v = write_line fmt (fmt.printf format v)

  abbrev pub root_debug : List V → Action E (Unit {0})
  root_debug v = if root.log_debugs then root_log v else return tt

  abbrev pub root_debugf : Text → List V → Action E (Unit {0})
  root_debugf format v = if root.log_debugs then root_logf format v else return tt

  abbrev pub root_fail : List V → Action E (Unit {0})
  root_fail v = root.on_fail (fmt.of_text (fmt.sprint v) ∷ [])

  abbrev pub root_failf : Text → List V → Action E (Unit {0})
  root_failf format v = root.on_fail (fmt.of_text (fmt.sprintf format v) ∷ [])

  abbrev pub root_check_err : Option E → List V → Action E (Unit {0})
  root_check_err none v = return tt
  root_check_err (some e) v = root.on_error (some e) (fmt.of_text (fmt.sprint v) ∷ [])

  abbrev pub root_assert : Bool → List V → Action E (Unit {0})
  root_assert true v = return tt
  root_assert false v = root_fail (fmt.of_text (fmt.sprint v) ∷ [])

  -- `Log`
  unfoldable pub log : Debugger → List V → Action E (Unit {0})
  log root_debugger v = root_log v
  log (prefixed_debugger d p) v = log d (prepend fmt p v)

  -- `Logf`
  unfoldable pub logf : Debugger → Text → List V → Action E (Unit {0})
  logf root_debugger format v = root_logf format v
  logf (prefixed_debugger d p) format v = logf d (prepend_format p format) v

  -- `Debug`
  unfoldable pub debug : Debugger → List V → Action E (Unit {0})
  debug root_debugger v = root_debug v
  debug (prefixed_debugger d p) v = debug d (prepend fmt p v)

  -- `Debugf`
  unfoldable pub debugf : Debugger → Text → List V → Action E (Unit {0})
  debugf root_debugger format v = root_debugf format v
  debugf (prefixed_debugger d p) format v = debugf d (prepend_format p format) v

  -- `Fail`
  unfoldable pub fail : Debugger → List V → Action E (Unit {0})
  fail root_debugger v = root_fail v
  fail (prefixed_debugger d p) v = fail d (prepend fmt p v)

  -- `Failf`
  unfoldable pub failf : Debugger → Text → List V → Action E (Unit {0})
  failf root_debugger format v = root_failf format v
  failf (prefixed_debugger d p) format v = failf d (prepend_format p format) v

  -- `CheckErr`
  unfoldable pub check_err : Debugger → Option E → List V → Action E (Unit {0})
  check_err root_debugger e v = root_check_err e v
  check_err (prefixed_debugger d p) e v = check_err d e (prepend fmt p v)

  -- `Assert`
  unfoldable pub assert : Debugger → Bool → List V → Action E (Unit {0})
  assert root_debugger expr v = root_assert expr v
  assert (prefixed_debugger d p) expr v = assert d expr (prepend fmt p v)

  -- `Exit`
  unfoldable pub exit : Debugger → ℕ → Action E (Unit {0})
  exit root_debugger code = root.on_exit code
  exit (prefixed_debugger d p) code = exit d code

  -- `Pop`: the root fails, and what it returns is nil.
  unfoldable pub debugger_pop : Debugger → Action E (Option Debugger)
  debugger_pop root_debugger = do
    root_fail (fmt.of_text (text "attempted to pop the root debugger") ∷ [])
    return none
  debugger_pop (prefixed_debugger d p) = return (some d)

-- The calls on a debugger that return nothing.
pub data Call (V E : Type 0) : Type 0 where
  log_c debug_c fail_c : List V → Call V E
  logf_c debugf_c failf_c : Text → List V → Call V E
  check_err_c : Option E → List V → Call V E
  assert_c : Bool → List V → Call V E
  exit_c : ℕ → Call V E

pub data Command (V E : Type 0) : Type 0 where
  push_c : Text → Command V E
  pop_c : Command V E
  call_c : Call V E → Command V E

module _ {V E : Type 0} (fmt : Format V E) (root : RootDebugger V E) where
  unfoldable pub call : Call V E → Debugger → Action E (Unit {0})
  unfolding log logf debug debugf fail failf check_err assert exit
  call (log_c v) d = log fmt root d v
  call (debug_c v) d = debug fmt root d v
  call (fail_c v) d = fail fmt root d v
  call (logf_c f v) d = logf fmt root d f v
  call (debugf_c f v) d = debugf fmt root d f v
  call (failf_c f v) d = failf fmt root d f v
  call (check_err_c e v) d = check_err fmt root d e v
  call (assert_c b v) d = assert fmt root d b v
  call (exit_c code) d = exit fmt root d code

  -- A call, and the debugger that the caller goes on with; one on a nil debugger panics.
  unfoldable pub issue : Command V E → Option Debugger → Action E (Option Debugger)
  unfolding call debugger_pop
  issue c none = λ w. panicked w
  issue (push_c p) (some d) = return (some (debugger_push d p))
  issue pop_c (some d) = debugger_pop fmt root d
  issue (call_c c) (some d) = do call c d; return (some d)

  unfoldable pub issue_all : List (Command V E) → Option Debugger → Action E (Option Debugger)
  unfolding issue
  issue_all [] d = return d
  issue_all (c ∷ cs) d = do d' ← issue c d; issue_all cs d'
