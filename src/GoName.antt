-- ===== src/GoName.antt =====
-- lang/go/camel.go: the casing that protoc-gen-go gives to names. The loop reads bytes; a byte of a
-- wider rune is neither a letter nor a digit to it, and stands for itself, as the rune does here.
pub mod Camel
mod Tests
use protoc_gen_star.Base.{
  leb, if◌then◌else◌, ◌==◌, nat_eq, Text, text_eq, ℕ, ◌-◌, Bool, true, false, ◌&&◌, [], ◌∷◌,
}

-- `isASCIILower`
abbrev pub is_ascii_lower : ℕ → Bool
is_ascii_lower c = leb b'a' c && leb c b'z'

-- `isASCIIDigit`
abbrev pub is_ascii_digit : ℕ → Bool
is_ascii_digit c = leb b'0' c && leb c b'9'

-- `if isASCIILower(c) { c ^= ' ' }`: the bit is set in every lower-case letter.
abbrev pub capital : ℕ → ℕ
capital c = if is_ascii_lower c then c - 32 else c

-- `i+1 < len(s) && isASCIILower(s[i+1])`
abbrev pub starts_lower : Text → Bool
starts_lower [] = false
starts_lower (c ∷ s) = is_ascii_lower c

-- One round of the loop at `c`, on whether a lower-case letter follows and on what the rounds behind
-- it give in a word and outside.
abbrev pub emit : Bool → ℕ → Bool → Text → Text → Text
emit in_word c low word rest =
    if in_word && is_ascii_lower c
    then c ∷ word
    else if c == b'_' && low
    then rest
    else if is_ascii_digit c
    then c ∷ rest
    else capital c ∷ word

-- The loop of `camelCase`; in a word, it is the inner loop that accepts a lower-case sequence.
unfoldable pub camel_words : Bool → Text → Text
camel_words in_word [] = []
camel_words in_word (c ∷ s) =
    emit in_word c (starts_lower s) (camel_words true s) (camel_words false s)

-- `camelCase`
unfoldable pub camel_case : Text → Text
unfolding camel_words
camel_case [] = []
camel_case (c ∷ s) = if c == b'_' then b'X' ∷ camel_words false s else camel_words false (c ∷ s)

-- `PGGUpperCamelCase`
abbrev pub pgg_upper_camel_case : Text → Text
pgg_upper_camel_case n = camel_case n
