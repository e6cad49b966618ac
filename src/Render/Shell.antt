-- ===== src/Render/Shell.antt =====
-- How a shell reads a word, and that it reads a quoted argument back.
use Prim.Native.String.{[], ◌∷◌}
use text.Mathlib.TextLemmas.{nil-append, cons-append, append_assoc}
use text.Mathlib.TextEquality.{Char-path}
use hamara_tunnel.Prelude.{
  ◌≡◌, Char, code, eqb_iff, String, ◌<>◌, Bool, true, false, ◌||◌, Option, none, some,
  if◌then◌else◌, Bool-cases, inl, inr,
}
use hamara_tunnel.Text.{is, any_char, replace_all}
use hamara_tunnel.Render.Quote.{shell_arg}

-- Inside a word: outside quotes, inside single quotes, or behind a backslash.
pub data Mode : Type 0 where
  plain quoted escaped : Mode

-- A character that ends a word.
abbrev pub is_blank : Char → Bool
is_blank c = is b' ' c || is b'\t' c || is b'\n' c

-- A character that means itself outside quotes: none that the shell expands or that joins commands.
abbrev pub is_special : Char → Bool
is_special c = any_char (λ d. is (code d) c) "$`\"\\;&|<>()*?[]#~!{}="

-- A character in front of the word that is read.
unfoldable pub put : Char → Option (String × String) → Option (String × String)
put c none = none
put c (some (word, rest)) = some (c ∷ word, rest)

-- The word at the front of a command line, without its quotes, and the rest of the line; `none` where
-- a quote stays open, or where the shell would expand something.
unfoldable pub read_word : Mode → String → Option (String × String)
read_word plain [] = some ("", "")
read_word quoted [] = none
read_word escaped [] = none
read_word escaped (c ∷ s) = put c (read_word plain s)
read_word quoted (c ∷ s) =
    let closed = read_word plain s in
    let inside = put c (read_word quoted s) in if is b'\'' c then closed else inside
read_word plain (c ∷ s) =
    let open' = read_word quoted s in
    let behind = read_word escaped s in
    let next = put c (read_word plain s) in
    if is_blank c
    then some ("", c ∷ s)
    else if is b'\'' c
    then open'
    else if is b'\\' c
    then behind
    else if is_special c
    then none
    else next

-- A line that begins with a blank, or is empty: the word in front of it has ended.
abbrev Ends : String → Type 0
Ends rest = read_word plain rest ≡ some ("", rest)

quote-append : (s : String) → ("'\\''" <> s) ≡ "'" ∷ "\\" ∷ "'" ∷ "'" ∷ s
quote-append s = rw (
  cons-append "'" "\\''" s,
  cons-append "\\" "''" s,
  cons-append "'" "'" s,
  cons-append "'" [] s,
  nil-append s,
)

-- The quote sign closes the quotes, stands behind a backslash, and opens them again.
read_quote : (s : String) → read_word quoted ("'\\''" <> s) ≡ put "'" (read_word quoted s)
unfolding read_word
read_quote s = rw quote-append

read_closing : (rest : String) → Ends rest → read_word quoted ("'" <> rest) ≡ some ("", rest)
unfolding read_word
read_closing rest e = rw (cons-append "'" [] rest, nil-append rest) e

read_inside :
    (c : Char) (s : String)
    → is b'\'' c ≡ false
    → read_word quoted (c ∷ s) ≡ put c (read_word quoted s)
unfolding read_word
read_inside c s h = rw h

quote_char : (c : Char) → is b'\'' c ≡ true → c ≡ "'"
quote_char c h = Char-path c "'" ((eqb_iff (code c) b'\'').0 h)

read_replaced :
    (s rest : String)
    → Ends rest
    → read_word quoted (replace_all s b'\'' "'\\''" <> ("'" <> rest)) ≡ some (s, rest)
unfolding replace_all put
read_replaced [] rest e = rw nil-append (read_closing rest e)
read_replaced (c ∷ s) rest e = elim (Bool-cases (is b'\'' c)) [
  | inl q ↦ rw (q, append_assoc, read_quote, read_replaced s rest e, quote_char c q)
  | inr q ↦ rw (q, cons-append, read_inside c _ q, read_replaced s rest e)
]

read_open : (s : String) → read_word plain ("'" <> s) ≡ read_word quoted s
unfolding read_word
read_open s = rw (cons-append "'" [] s, nil-append s)

-- Whatever text is quoted, a shell reads it back as one word, and goes on behind it.
pub read_word-shell_arg :
    (s rest : String)
    → read_word plain rest ≡ some ("", rest)
    → read_word plain (shell_arg s <> rest) ≡ some (s, rest)
unfolding shell_arg
read_word-shell_arg s rest e = rw (append_assoc, read_open, append_assoc) (read_replaced s rest e)
