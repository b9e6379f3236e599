-- ===== src/Debugger.antt =====
-- debug.go: the debuggers that prefix what they log, the root that writes it and ends the process,
-- and the root for tests that records instead. The values that are logged and the functions of fmt
-- and log that print them are arguments.
pub mod Methods
pub mod Prefixes
pub mod Printed
pub mod Mock
mod Tests
use protoc_gen_star.Base.{
  if◌then◌else◌, Text, text, ℕ, Bool, true, false, Option, none, some, List, [], ◌∷◌, ◌++◌,
}
use protoc_gen_star.Text.{has_prefix}

-- fmt and log on the values that Go boxes in an `interface{}`: `Sprint`, `Sprintf`, and the text
-- that a logger writes for `Println` and `Printf`. A value is a text, an error, or anything else.
pub record Format (V E : Type 0) : Type 0 where
  pub of_text : Text → V
  pub of_error : E → V
  pub sprint : List V → Text
  pub sprintf : Text → List V → Text
  pub println : List V → Text
  pub printf : Text → List V → Text

-- What the process has logged, and what `mockDebugger` records; a debugger that is not a mock
-- leaves the record alone.
pub record Console (E : Type 0) : Type 0 where
  pub output : List Text
  pub failed : Bool
  pub error : Option E
  pub exited : Bool
  pub code : ℕ

abbrev pub new_console : {E : Type 0} → Console E
new_console = record { output = []; failed = false; error = none; exited = false; code = 0 }

-- A call returns, ends the process with a code, or panics on a nil debugger.
pub data Run (E A : Type 0) : Type 0 where
  running : A → Console E → Run E A
  ended : ℕ → Console E → Run E A
  panicked : Console E → Run E A

abbrev pub Action : Type 0 → Type 0 → Type 0
Action E A = Console E → Run E A

abbrev pub continue_with : {E A B : Type 0} → (A → Action E B) → Run E A → Run E B
continue_with f (running a w) = f a w
continue_with f (ended c w) = ended c w
continue_with f (panicked w) = panicked w

infixl 5 ◌>>=◌ ◌>>◌
abbrev pub ◌>>=◌ : {E A B : Type 0} → Action E A → (A → Action E B) → Action E B
(m >>= f) w = continue_with f (m w)

abbrev pub ◌>>◌ : {E B : Type 0} → Action E (Unit {0}) → Action E B → Action E B
(m >> k) w = continue_with (λ u. k) (m w)

abbrev pub return : {E A : Type 0} → A → Action E A
return a w = running a w

-- `rootDebugger` with its functions; its logger is the argument of the methods.
pub record RootDebugger (V E : Type 0) : Type 0 where
  pub on_error : Option E → List V → Action E (Unit {0})
  pub on_fail : List V → Action E (Unit {0})
  pub on_exit : ℕ → Action E (Unit {0})
  pub log_debugs : Bool

-- A root, or a `prefixedDebugger` with its parent and its prefix.
pub data Debugger : Type 0 where
  root_debugger : Debugger
  prefixed_debugger : Debugger → Text → Debugger

-- `[prefix]`
abbrev pub bracketed : Text → Text
bracketed prefix = text "[" ++ (prefix ++ text "]")

-- `Push`
abbrev pub debugger_push : Debugger → Text → Debugger
debugger_push d prefix = prefixed_debugger d (bracketed prefix)

-- `prependFormat`
unfoldable pub prepend_format : Text → Text → Text
prepend_format prefix format =
    if has_prefix format (text "[") then prefix ++ format else prefix ++ (text " " ++ format)

module _ {V E : Type 0} (fmt : Format V E) where
  -- A line of the logger.
  abbrev pub write_line : Text → Action E (Unit {0})
  write_line line w = running tt (record w { output = w.output ++ line ∷ [] })

  -- `prepend`
  abbrev pub prepend : Text → List V → List V
  prepend prefix v = fmt.of_text prefix ∷ v

  -- `defaultErr`, with the function that exits.
  unfoldable pub default_err : (ℕ → Action E (Unit {0})) → Option E → List V → Action E (Unit {0})
  default_err exit none msg = return tt
  default_err exit (some e) msg = do
    write_line
        (fmt.printf (text "[error] %s: %v\n") (fmt.of_text (fmt.sprint msg) ∷ fmt.of_error e ∷ []))
    exit 1

  -- `defaultFail`
  unfoldable pub default_fail : (ℕ → Action E (Unit {0})) → List V → Action E (Unit {0})
  default_fail exit msg = do write_line (fmt.println msg); exit 1

  -- `os.Exit`
  abbrev pub os_exit : ℕ → Action E (Unit {0})
  os_exit code w = ended code w

  -- `initDebugger`
  unfoldable pub init_debugger : Bool → RootDebugger V E
  unfolding default_err default_fail
  init_debugger debug = record {
    on_error = default_err os_exit;
    on_fail = default_fail os_exit;
    on_exit = os_exit;
    log_debugs = debug;
  }

  -- The functions that `InitMockDebugger` puts in place: each records what it was called with.
  abbrev pub mock_exit : ℕ → Action E (Unit {0})
  mock_exit code w = running tt (record w { exited = true; code = code })

  abbrev pub mock_fail : List V → Action E (Unit {0})
  mock_fail msg w = default_fail mock_exit msg (record w { failed = true })

  abbrev pub mock_err : Option E → List V → Action E (Unit {0})
  mock_err none msg w = default_err mock_exit none msg w
  mock_err (some e) msg w = default_err mock_exit (some e) msg (record w { error = some e })

  -- `InitMockDebugger`
  unfoldable pub init_mock_debugger : RootDebugger V E
  unfolding default_err default_fail
  init_mock_debugger = record {
    on_error = mock_err;
    on_fail = mock_fail;
    on_exit = mock_exit;
    log_debugs = true;
  }
