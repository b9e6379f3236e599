-- ===== src/Debugger/Printed.antt =====
-- What a failure prints, beside what logging the same message prints.
use protoc_gen_star.Base.{Text, text, ◌≡◌, refl, ap, ◌∙◌, Bool, List, [], ◌∷◌, ◌++◌, map}
use protoc_gen_star.Text.{join}
use protoc_gen_star.Debugger.{Format, Console, running, ended, root_debugger, init_debugger}
use protoc_gen_star.Debugger.Methods.{log, fail, log_c, fail_c, call}
use protoc_gen_star.Debugger.Prefixes.{pushed_from, brackets, concat, call-pushed}

abbrev pub newline : Text
newline = 10 ∷ []

-- fmt documents that `Sprintln` puts spaces between all operands and `Sprint` puts none between
-- texts; a logger without a prefix writes what `Sprintln` gives.
pub record PrintsTexts {V E : Type 0} (fmt : Format V E) : Type 0 where
  pub println_texts :
      (ts : List Text) → fmt.println (map fmt.of_text ts) ≡ join (text " ") ts ++ newline
  pub sprint_texts : (ts : List Text) → fmt.sprint (map fmt.of_text ts) ≡ concat ts

map-snoc :
    {B : Type 0} (f : Text → B) (ts : List Text) (t : Text)
    → map f ts ++ f t ∷ [] ≡ map f (ts ++ t ∷ [])
map-snoc f [] t = refl
map-snoc f (u ∷ ts) t = ap (f u ∷◌) (map-snoc f ts t)

module _ {V E : Type 0} (fmt : Format V E) (laws : PrintsTexts fmt) where
  abbrev with_line : Text → Console E → Console E
  with_line line w = record w { output = w.output ++ line ∷ [] }

  -- On a debugger of `initDebugger` with some prefixes, logging a message prints the prefixes and
  -- the message with spaces between them. Failing with it prints them with no space at all, and
  -- ends the process with the code 1.
  pub call-log-fail :
      (debugs : Bool) (ns : List Text) (message : Text) (w : Console E)
      → let d = pushed_from root_debugger ns in
        let root = init_debugger fmt debugs in
        (call fmt root (log_c (fmt.of_text message ∷ [])) d w
          ≡ running tt (with_line (join (text " ") (brackets ns ++ message ∷ []) ++ newline) w))
        × (call fmt root (fail_c (fmt.of_text message ∷ [])) d w
            ≡ ended 1 (with_line (concat (brackets ns ++ message ∷ []) ++ newline) w))
  unfolding init_debugger call log fail join
  call-log-fail debugs ns message w =
      let texts = map-snoc fmt.of_text (brackets ns) message in
      let root = init_debugger fmt debugs in
      (
        ap (λ act. act w) (call-pushed fmt root (log_c (fmt.of_text message ∷ [])) ns)
            ∙ ap (λ v. running tt (with_line (fmt.println v) w)) texts
            ∙ ap (λ l. running tt (with_line l w)) (laws.println_texts _),
        ap (λ act. act w) (call-pushed fmt root (fail_c (fmt.of_text message ∷ [])) ns)
            ∙ ap (λ v. ended 1 (with_line (fmt.println (fmt.of_text (fmt.sprint v) ∷ [])) w)) texts
            ∙ ap (λ t. ended 1 (with_line (fmt.println (fmt.of_text t ∷ [])) w))
                (laws.sprint_texts _)
            ∙ ap (λ l. ended 1 (with_line l w)) (laws.println_texts (_ ∷ [])),
      )
