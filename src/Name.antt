-- ===== src/Name.antt =====
-- name.go: the type `Name`, how it is split into parts, and the casings made of them.
-- A name is the list of its runes. `unicode` is the parameter `u`, the tables of Go's package
-- unicode; what the code does with them (`strings.ToUpper`, `strings.Title`) is written out.
pub mod Parts
pub mod CamelCase
pub mod Casing
pub mod Tests
use protoc_gen_star.Base.{
  ltb, leb, if◌then◌else◌, ◌==◌, nat_eq, Text, text_eq, length, is_some, ℕ, ◌+◌, Bool, true, false,
  not, ◌&&◌, ◌||◌, Option, none, some, List, [], ◌∷◌, ◌++◌, map,
}
use protoc_gen_star.Text.{split, join, last_index}

-- The tables of package unicode.
pub record Unicode : Type 0 where
  pub is_upper : ℕ → Bool
  pub is_title : ℕ → Bool
  pub is_digit : ℕ → Bool
  pub is_letter : ℕ → Bool
  pub is_space : ℕ → Bool
  pub to_upper : ℕ → ℕ
  pub to_lower : ℕ → ℕ
  pub to_title : ℕ → ℕ

-- The bytes of a rune in UTF-8.
abbrev pub rune_len : ℕ → ℕ
rune_len r = if ltb r 0x80 then 1 else if ltb r 0x800 then 2 else if ltb r 0x10000 then 3 else 4

-- `len(s)`, the bytes of a text.
abbrev pub byte_len : Text → ℕ
byte_len [] = 0
byte_len (r ∷ s) = rune_len r + byte_len s

-- The locals of the loop that splits camel case.
pub record Camel : Type 0 where
  pub parts : List Text
  pub buf : Text
  pub capt : Bool
  pub lodash : Bool
  pub num : Bool

abbrev pub start : Camel
start = record { parts = []; buf = []; capt = false; lodash = false; num = false }

-- `ss[0] != '_'`, on a text that is not empty.
abbrev pub not_underscore_first : Text → Bool
not_underscore_first [] = true
not_underscore_first (r ∷ _) = not (r == b'_')

-- All but the last rune, and the last rune.
abbrev pub but_last : Text → Text
but_last [] = []
but_last (r ∷ []) = []
but_last (r ∷ s ∷ t) = r ∷ but_last (s ∷ t)

abbrev pub last_only : Text → Text
last_only [] = []
last_only (r ∷ []) = r ∷ []
last_only (r ∷ s ∷ t) = last_only (s ∷ t)

-- `parts = append(parts, buf.String()); buf.Reset()`
abbrev pub flush : Camel → Camel
flush c = record c { parts = c.parts ++ (c.buf ∷ []); buf = [] }

-- The chain of conditions for one rune, on its two classes, before it is written to the buffer.
unfoldable pub cut : Bool → Bool → Camel → Camel
cut uc dg c =
    if uc && (not c.capt && (ltb 0 (byte_len c.buf) && not c.lodash))
    then flush c
    else if dg && (not c.num && (ltb 0 (byte_len c.buf) && not c.lodash))
    then flush c
    else if not uc && (c.capt && ltb 1 (byte_len c.buf))
    then (if ltb 1 (byte_len c.buf) && (not (byte_len c.buf == 2) || not_underscore_first c.buf)
        then record c { parts = c.parts ++ (but_last c.buf ∷ []); buf = last_only c.buf }
        else c)
    else if not dg && (c.num && leb 1 (byte_len c.buf))
    then flush c
    else c

-- `if r == '_' && buf.Len() == 0 && len(parts) == 0 { lodash = true }`
abbrev pub mark_lodash : ℕ → Camel → Camel
mark_lodash r c = record c {
  lodash = if r == b'_' && (byte_len c.buf == 0 && length c.parts == 0) then true else c.lodash;
}

-- `if parts[0] == "" { parts[1] = "_" + parts[1]; return parts[1:] }`
abbrev pub merge_lodash : List Text → List Text
merge_lodash ([] ∷ p ∷ ps) = (b'_' ∷ p) ∷ ps
merge_lodash ps = ps

abbrev pub is_interior : Option ℕ → Bool
is_interior none = false
is_interior (some i) = ltb 0 i

-- The loop of `Name.Transform`.
abbrev pub transform_parts : (Text → Text) → (Text → Text) → List Text → List Text
transform_parts modify first [] = []
transform_parts modify first (p ∷ ps) = first p ∷ map modify ps

abbrev pub identity : Text → Text
identity s = s

module _ (u : Unicode) where
  abbrev pub is_capital : ℕ → Bool
  is_capital r = u.is_upper r || u.is_title r

  -- One round of the loop.
  unfoldable pub step : Camel → ℕ → Camel
  unfolding cut
  step c r =
      let uc = is_capital r in
      let dg = u.is_digit r in
      let c' = cut uc dg (mark_lodash r c) in
      record c' { num = dg; capt = uc; buf = c'.buf ++ (r ∷ []) }

  unfoldable pub loop : Camel → Text → Camel
  unfolding step
  loop c [] = c
  loop c (r ∷ s) = loop (step c r) s

  unfoldable pub split_camel : Text → List Text
  unfolding loop
  split_camel n = let c = loop start n in c.parts ++ (c.buf ∷ [])

  -- `Name.Split`
  unfoldable pub split_name : Text → List Text
  unfolding split_camel split last_index
  split_name n =
      if n == []
      then [] ∷ []
      else if is_some (last_index b'.' n)
      then split b'.' n
      else if is_interior (last_index b'_' n)
      then merge_lodash (split b'_' n)
      else split_camel n

  -- `Name.Transform`
  unfoldable pub transform : (Text → Text) → (Text → Text) → Text → Text → Text
  unfolding split_name join
  transform modify first sep n = join sep (transform_parts modify first (split_name n))

  -- `strings.ToUpper` and `strings.ToLower`
  abbrev pub upper : Text → Text
  upper = map u.to_upper

  abbrev pub lower : Text → Text
  lower = map u.to_lower

  -- `isSeparator` of package strings.
  abbrev pub is_separator : ℕ → Bool
  is_separator r =
      if ltb r 0x80
      then not (
          (leb b'0' r && leb r b'9')
          || ((leb b'a' r && leb r b'z') || ((leb b'A' r && leb r b'Z') || r == b'_')))
      else if u.is_letter r || u.is_digit r
      then false
      else u.is_space r

  -- `strings.Title`: the rune behind a separator goes to title case.
  unfoldable pub title_after : ℕ → Text → Text
  title_after prev [] = []
  title_after prev (r ∷ s) = (if is_separator prev then u.to_title r else r) ∷ title_after r s

  unfoldable pub title : Text → Text
  unfolding title_after
  title = title_after b' '

  unfoldable pub upper_camel_case : Text → Text
  unfolding transform title
  upper_camel_case = transform title title []

  unfoldable pub lower_camel_case : Text → Text
  unfolding transform title
  lower_camel_case = transform title lower []

  unfoldable pub screaming_snake_case : Text → Text
  unfolding transform
  screaming_snake_case = transform upper upper (b'_' ∷ [])

  unfoldable pub lower_snake_case : Text → Text
  unfolding transform
  lower_snake_case = transform lower lower (b'_' ∷ [])

  unfoldable pub upper_snake_case : Text → Text
  unfolding transform title
  upper_snake_case = transform title title (b'_' ∷ [])

  unfoldable pub snake_case : Text → Text
  unfolding transform
  snake_case = transform identity identity (b'_' ∷ [])

  unfoldable pub lower_dot_notation : Text → Text
  unfolding transform
  lower_dot_notation = transform lower lower (b'.' ∷ [])

  unfoldable pub upper_dot_notation : Text → Text
  unfolding transform title
  upper_dot_notation = transform title title (b'.' ∷ [])

-- `Name.SplitOnDot`
unfoldable pub split_on_dot : Text → List Text
unfolding split
split_on_dot = split b'.'

-- `NameTransformer.Chain`
abbrev pub chain : (Text → Text) → (Text → Text) → Text → Text
chain n t s = t (n s)
