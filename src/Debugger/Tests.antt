-- ===== src/Debugger/Tests.antt =====
-- Debuggers that print texts.
use protoc_gen_star.Base.{Text, text, ◌≡◌, refl, ap, true, false, some, List, [], ◌∷◌, ◌++◌, map}
use protoc_gen_star.Text.{join, has_prefix}
use protoc_gen_star.Debugger.{
  Format, new_console, running, ended, root_debugger, prepend_format, init_debugger,
}
use protoc_gen_star.Debugger.Methods.{
  logf, assert, log_c, fail_c, logf_c, assert_c, Command, push_c, pop_c, call_c, call, issue_all,
}
use protoc_gen_star.Debugger.Prefixes.{pushed_from, concat, call-pushed}
use protoc_gen_star.Debugger.Printed.{newline, PrintsTexts, call-log-fail}
use protoc_gen_star.Debugger.Mock.{ending, mock, Alike, issue_all-Alike}

-- Every value is a text, and a format is printed as it is, with the values behind it.
abbrev texts : Format Text Text
texts = record {
  of_text = λ t. t;
  of_error = λ e. e;
  sprint = concat;
  sprintf = λ f v. f ++ concat v;
  println = λ v. join (text " ") v ++ newline;
  printf = λ f v. f ++ concat v;
}

map_same : (ts : List Text) → map (λ (t : Text). t) ts ≡ ts
map_same [] = refl
map_same (t ∷ ts) = ap (t ∷◌) (map_same ts)

texts-PrintsTexts : PrintsTexts texts
texts-PrintsTexts = record {
  println_texts = λ ts. ap (λ l. join (text " ") l ++ newline) (map_same ts);
  sprint_texts = λ ts. ap concat (map_same ts);
}

-- A format behind two prefixes.
call-pushed_example :
    call texts
      (init_debugger texts true)
      (logf_c (text "n=") (text "3" ∷ []))
      (pushed_from root_debugger (text "a" ∷ text "b" ∷ []))
    ≡ call texts
        (init_debugger texts true)
        (logf_c (text "[a][b] n=") (text "3" ∷ []))
        root_debugger
unfolding has_prefix
call-pushed_example =
    call-pushed texts (init_debugger texts true) (logf_c (text "n=") (text "3" ∷ []))
      (text "a" ∷ text "b" ∷ [])

logged_line :
    call texts
      (init_debugger texts true)
      (logf_c (text "[n]") [])
      (pushed_from root_debugger (text "a" ∷ []))
      new_console
    ≡ running tt (record new_console { output = text "[a][n]" ∷ [] })
unfolding call logf init_debugger prepend_format has_prefix
logged_line = refl

call-log-fail_example :
    let d = pushed_from root_debugger (text "a" ∷ text "b" ∷ []) in
    (call texts (init_debugger texts false) (log_c (text "no" ∷ [])) d new_console
      ≡ running tt (record new_console {
        output = (join (text " ") (text "[a]" ∷ text "[b]" ∷ text "no" ∷ []) ++ newline) ∷ [];
      }))
    × (call texts (init_debugger texts false) (fail_c (text "no" ∷ [])) d new_console
        ≡ ended 1 (record new_console { output = (text "[a][b]no" ++ newline) ∷ [] }))
call-log-fail_example =
    call-log-fail texts texts-PrintsTexts false (text "a" ∷ text "b" ∷ []) (text "no") new_console

-- An assertion that fails, and a pop of the root behind it.
abbrev script : List (Command Text Text)
script =
    push_c (text "a")
    ∷ call_c (assert_c true (text "fine" ∷ []))
    ∷ call_c (assert_c false (text "bad" ∷ []))
    ∷ pop_c
    ∷ pop_c
    ∷ pop_c
    ∷ []

issue_all-Alike_example :
    Alike texts
      (issue_all texts (ending texts) script (some root_debugger) new_console)
      (issue_all texts (mock texts) script (some root_debugger) new_console)
issue_all-Alike_example = issue_all-Alike texts script (some root_debugger) new_console

real_ends :
    issue_all texts (ending texts) script (some root_debugger) new_console
    ≡ ended 1 (record new_console { output = (text "[a]bad" ++ newline) ∷ [] })
unfolding issue_all assert init_debugger join
real_ends = refl
