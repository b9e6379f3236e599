-- ===== src/Comment.antt =====
-- comment.go: comment blocks, broken into lines at a width. A text is the list of its runes, with
-- their lengths in UTF-8; `unicode.IsSpace` is among the Unicode tables. The scanner of bufio calls
-- the split function until the text is used up, here for a text that its first buffer holds; it runs
-- on fuel.
pub mod Width
pub mod Fuel
mod Tests
use protoc_gen_star.Base.{
  leb, if◌then◌else◌, ◌==◌, nat_eq, Text, text_eq, text, length, ℕ, zero, suc, ◌+◌, ◌-◌, ◌&&◌,
  Option, none, some, List, [], ◌∷◌, ◌++◌,
}
use protoc_gen_star.Name.{Unicode, rune_len}

module _ (u : Unicode) (w : ℕ) where
  -- The first loop of the split function: the bytes of the leading spaces, and what follows them.
  unfoldable pub skip_spaces : ℕ → Text → ℕ × Text
  skip_spaces i [] = (i, [])
  skip_spaces i (r ∷ s) =
      let rest = skip_spaces (i + rune_len r) s in if u.is_space r then rest else (i, r ∷ s)

  -- A break: at the last space, which stays in the rest, or here behind a word that is too long.
  abbrev pub break_at : Option (Text × Text) → Text → Text → Text × Text
  break_at none token rest = (token, rest)
  break_at (some last) token rest = last

  -- The second loop at byte `i`, with the text since the start and the last space: the token and
  -- what is left, or nothing where the text ends before.
  unfoldable pub find_break : ℕ → Text → Option (Text × Text) → Text → Option (Text × Text)
  find_break i token last [] = none
  find_break i token last (r ∷ s) =
      let on = find_break (i + rune_len r) (token ++ r ∷ []) last s in
      let at_space = find_break (i + rune_len r) (token ++ r ∷ []) (some (token, r ∷ s)) s in
      if u.is_space r then if leb w i then some (break_at last token s) else at_space else on

  -- `bytes.TrimSpace` of a text that does not start with a space.
  unfoldable pub trim_right : Text → Text
  trim_right [] = []
  trim_right (r ∷ s) =
      let rest = trim_right s in if u.is_space r && rest == [] then [] else r ∷ rest

  -- The tokens of the scanner, on fuel.
  unfoldable pub scan_comment : ℕ → Text → Option (List Text)
  unfolding skip_spaces find_break trim_right
  scan_comment zero s = none
  scan_comment (suc n) s =
      let (i, text_) = skip_spaces 0 s in
      elim (find_break i [] none text_) [
        | none ↦ if text_ == [] then some [] else some (trim_right text_ ∷ [])
        | some p ↦ elim (scan_comment n p.1) [ none ↦ none | some lines ↦ some (p.0 ∷ lines) ]
      ]

-- `fmt.Fprintln(buf, commentPrefix, s.Text())` for each token
abbrev pub print_lines : List Text → Text
print_lines [] = []
print_lines (l ∷ ls) = text "// " ++ l ++ b'\n' ∷ print_lines ls

-- `C` of this text
unfoldable pub comment : Unicode → ℕ → Text → Option Text
unfolding scan_comment
comment u wrap s = elim (scan_comment u (wrap - 3) (suc (length s)) s) [
  | none ↦ none
  | some lines ↦ some (print_lines lines)
]

-- The alias of `C` at eighty columns.
abbrev pub comment_80 : Unicode → Text → Option Text
comment_80 u s = comment u 80 s
