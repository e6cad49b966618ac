-- ===== src/Text/Chars.antt =====
-- Classes of characters, and tests over the characters of a text.
use Prim.Native.String.{[], ◌∷◌}
use hamara_tunnel.Prelude.{
  ℕ, zero, suc, ◌+◌, Char, code, String, Bool, true, false, ◌&&◌, ◌||◌, Option, none, some, leb,
  eqb, if◌then◌else◌,
}

abbrev pub within : ℕ → ℕ → ℕ → Bool
within lo hi c = leb lo c && leb c hi

abbrev pub is : ℕ → Char → Bool
is b c = eqb (code c) b

-- `unicode.IsSpace`, the White_Space property
unfoldable pub is_space : Char → Bool
is_space c =
    within 9 13 (code c)
    || is 32 c
    || is 0x85 c
    || is 0xa0 c
    || is 0x1680 c
    || within 0x2000 0x200a (code c)
    || is 0x2028 c
    || is 0x2029 c
    || is 0x202f c
    || is 0x205f c
    || is 0x3000 c

unfoldable pub is_digit : Char → Bool
is_digit c = within b'0' b'9' (code c)

unfoldable pub is_lower_hex : Char → Bool
is_lower_hex c = within b'0' b'9' (code c) || within b'a' b'f' (code c)

unfoldable pub is_lower_letter : Char → Bool
is_lower_letter c = within b'a' b'z' (code c)

unfoldable pub is_letter : Char → Bool
is_letter c = within b'a' b'z' (code c) || within b'A' b'Z' (code c)

abbrev pub all_chars : (Char → Bool) → String → Bool
all_chars p [] = true
all_chars p (c ∷ s) = p c && all_chars p s

abbrev pub any_char : (Char → Bool) → String → Bool
any_char p [] = false
any_char p (c ∷ s) = p c || any_char p s

-- The number of characters of a text.
abbrev pub size : String → ℕ
size [] = 0
size (c ∷ s) = suc (size s)

-- The character at an index, as in a table of digits.
unfoldable pub nth_char : String → ℕ → Option Char
nth_char [] i = none
nth_char (c ∷ s) zero = some c
nth_char (c ∷ s) (suc i) = nth_char s i

-- The first index of a character.
unfoldable pub index_of : String → Char → Option ℕ
index_of [] c = none
index_of (d ∷ s) c =
    if eqb (code d) (code c)
    then some 0
    else elim (index_of s c) [ none ↦ none | some i ↦ some (i + 1) ]
