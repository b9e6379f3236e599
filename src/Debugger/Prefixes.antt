-- ===== src/Debugger/Prefixes.antt =====
-- A chain of debuggers does what its root does on the call with all the prefixes of the chain.
use protoc_gen_star.Base.{
  if◌then◌else◌, Text, text, ◌≡◌, refl, sym, ap, ◌∙◌, Bool, true, false, List, [], ◌∷◌, ◌++◌, map,
  append-nil, append_assoc,
}
use protoc_gen_star.Text.{has_prefix}
use protoc_gen_star.Debugger.{
  Format, RootDebugger, Debugger, root_debugger, prefixed_debugger, bracketed, debugger_push,
  prepend_format, prepend,
}
use protoc_gen_star.Debugger.Methods.{
  log, logf, debug, debugf, fail, failf, check_err, assert, exit, Call, log_c, debug_c, fail_c,
  logf_c, debugf_c, failf_c, check_err_c, assert_c, exit_c, call,
}

-- The debugger after these pushes.
abbrev pub pushed_from : Debugger → List Text → Debugger
pushed_from d [] = d
pushed_from d (n ∷ ns) = pushed_from (debugger_push d n) ns

abbrev pub brackets : List Text → List Text
brackets [] = []
brackets (n ∷ ns) = bracketed n ∷ brackets ns

abbrev pub concat : List Text → Text
concat [] = []
concat (t ∷ ts) = t ++ concat ts

-- A format that does not begin with a bracket has one space behind the prefixes.
abbrev pub spaced : Text → Text
spaced format = if has_prefix format (text "[") then format else text " " ++ format

abbrev pub spread_format : List Text → Text → Text
spread_format [] format = format
spread_format (n ∷ ns) format = concat (brackets (n ∷ ns)) ++ spaced format

prepend_format-spread :
    (n : Text) (ns : List Text) (format : Text)
    → prepend_format (bracketed n) (spread_format ns format) ≡ spread_format (n ∷ ns) format
unfolding prepend_format has_prefix
prepend_format-spread n [] format = rw append-nil (by_test (has_prefix format (text "[")))
  where
    by_test :
        (b : Bool)
        → (if b then bracketed n ++ format else bracketed n ++ (text " " ++ format))
          ≡ bracketed n ++ (if b then format else text " " ++ format)
    by_test true = refl
    by_test false = refl
prepend_format-spread n (m ∷ ns) format =
    sym (append_assoc (bracketed n) (concat (brackets (m ∷ ns))) (spaced format))

module _ {V E : Type 0} (fmt : Format V E) where
  abbrev pub spread_values : List Text → List V → List V
  spread_values ns v = map fmt.of_text (brackets ns) ++ v

  -- The call on the root that does the same as this one behind the prefixes.
  abbrev pub spread : List Text → Call V E → Call V E
  spread ns (log_c v) = log_c (spread_values ns v)
  spread ns (debug_c v) = debug_c (spread_values ns v)
  spread ns (fail_c v) = fail_c (spread_values ns v)
  spread ns (logf_c f v) = logf_c (spread_format ns f) v
  spread ns (debugf_c f v) = debugf_c (spread_format ns f) v
  spread ns (failf_c f v) = failf_c (spread_format ns f) v
  spread ns (check_err_c e v) = check_err_c e (spread_values ns v)
  spread ns (assert_c b v) = assert_c b (spread_values ns v)
  spread ns (exit_c code) = exit_c code

  -- The call that a prefixed debugger makes of its parent.
  abbrev pub with_prefix : Text → Call V E → Call V E
  with_prefix p (log_c v) = log_c (prepend fmt p v)
  with_prefix p (debug_c v) = debug_c (prepend fmt p v)
  with_prefix p (fail_c v) = fail_c (prepend fmt p v)
  with_prefix p (logf_c f v) = logf_c (prepend_format p f) v
  with_prefix p (debugf_c f v) = debugf_c (prepend_format p f) v
  with_prefix p (failf_c f v) = failf_c (prepend_format p f) v
  with_prefix p (check_err_c e v) = check_err_c e (prepend fmt p v)
  with_prefix p (assert_c b v) = assert_c b (prepend fmt p v)
  with_prefix p (exit_c code) = exit_c code

  spread-nil : (c : Call V E) → spread [] c ≡ c
  spread-nil (log_c v) = refl
  spread-nil (debug_c v) = refl
  spread-nil (fail_c v) = refl
  spread-nil (logf_c f v) = refl
  spread-nil (debugf_c f v) = refl
  spread-nil (failf_c f v) = refl
  spread-nil (check_err_c e v) = refl
  spread-nil (assert_c b v) = refl
  spread-nil (exit_c code) = refl

  with_prefix-spread :
      (c : Call V E) (n : Text) (ns : List Text)
      → with_prefix (bracketed n) (spread ns c) ≡ spread (n ∷ ns) c
  with_prefix-spread (log_c v) n ns = refl
  with_prefix-spread (debug_c v) n ns = refl
  with_prefix-spread (fail_c v) n ns = refl
  with_prefix-spread (logf_c f v) n ns = ap (λ x. logf_c x v) (prepend_format-spread n ns f)
  with_prefix-spread (debugf_c f v) n ns = ap (λ x. debugf_c x v) (prepend_format-spread n ns f)
  with_prefix-spread (failf_c f v) n ns = ap (λ x. failf_c x v) (prepend_format-spread n ns f)
  with_prefix-spread (check_err_c e v) n ns = refl
  with_prefix-spread (assert_c b v) n ns = refl
  with_prefix-spread (exit_c code) n ns = refl

  module _ (root : RootDebugger V E) where
    pub call-prefixed :
        (c : Call V E) (d : Debugger) (p : Text)
        → call fmt root c (prefixed_debugger d p) ≡ call fmt root (with_prefix p c) d
    unfolding call log logf debug debugf fail failf check_err assert exit
    call-prefixed (log_c v) d p = refl
    call-prefixed (debug_c v) d p = refl
    call-prefixed (fail_c v) d p = refl
    call-prefixed (logf_c f v) d p = refl
    call-prefixed (debugf_c f v) d p = refl
    call-prefixed (failf_c f v) d p = refl
    call-prefixed (check_err_c e v) d p = refl
    call-prefixed (assert_c b v) d p = refl
    call-prefixed (exit_c code) d p = refl

    call-pushed_from :
        (c : Call V E) (d : Debugger) (ns : List Text)
        → call fmt root c (pushed_from d ns) ≡ call fmt root (spread ns c) d
    call-pushed_from c d [] = ap (λ c'. call fmt root c' d) (sym (spread-nil c))
    call-pushed_from c d (n ∷ ns) =
        call-pushed_from c (debugger_push d n) ns
        ∙ call-prefixed (spread ns c) d (bracketed n)
        ∙ ap (λ c'. call fmt root c' d) (with_prefix-spread c n ns)

    -- What a debugger does after some pushes on the root, the root does on the same call with all
    -- their prefixes in brackets in front: as values of their own, the outermost first, or joined
    -- at the head of a format, with one space behind them unless the format begins with a bracket.
    -- Exiting takes no prefix.
    pub call-pushed :
        (c : Call V E) (ns : List Text)
        → call fmt root c (pushed_from root_debugger ns) ≡ call fmt root (spread ns c) root_debugger
    call-pushed c ns = call-pushed_from c root_debugger ns
