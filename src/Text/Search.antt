-- ===== src/Text/Search.antt =====
-- `strings.HasPrefix`, `HasSuffix`, `Contains`, `ContainsAny`, `ReplaceAll`, `ToUpper`, `ToLower` and
-- `EqualFold`.
use Prim.Native.String.{[], ◌∷◌}
use hamara_tunnel.Prelude.{
  ℕ, ◌+◌, code, String, ◌<>◌, Bool, true, false, ◌&&◌, ◌||◌, eqb, if◌then◌else◌,
}
use hamara_tunnel.Text.Chars.{within, any_char}

unfoldable pub has_prefix : String → String → Bool
has_prefix s [] = true
has_prefix [] (d ∷ t) = false
has_prefix (c ∷ s) (d ∷ t) = eqb (code c) (code d) && has_prefix s t

-- `strings.Contains`
unfoldable pub contains : String → String → Bool
unfolding has_prefix
contains [] t = has_prefix [] t
contains (c ∷ s) t = has_prefix (c ∷ s) t || contains s t

unfoldable pub same_chars : String → String → Bool
same_chars [] [] = true
same_chars (c ∷ s) (d ∷ t) = eqb (code c) (code d) && same_chars s t
same_chars [] (d ∷ t) = false
same_chars (c ∷ s) [] = false

unfoldable pub has_suffix : String → String → Bool
unfolding same_chars
has_suffix [] t = same_chars [] t
has_suffix (c ∷ s) t = same_chars (c ∷ s) t || has_suffix s t

-- `strings.ContainsAny(s, "\r\n")`
unfoldable pub has_line_break : String → Bool
has_line_break = any_char (λ c. eqb (code c) b'\r' || eqb (code c) b'\n')

-- `strings.ReplaceAll` of one character by a text
unfoldable pub replace_all : String → ℕ → String → String
replace_all [] old new = []
replace_all (c ∷ s) old new =
    let rest = replace_all s old new in if eqb (code c) old then new <> rest else c ∷ rest

-- The lower-case ASCII letter of an upper-case one; other characters are kept.
unfoldable pub fold_code : ℕ → ℕ
fold_code n = if within b'A' b'Z' n then n + 32 else n

-- `strings.EqualFold` against a text of ASCII digits and the letters a to f, which have no other
-- letters in their folding orbits than their upper-case forms
unfoldable pub equal_fold : String → String → Bool
unfolding fold_code
equal_fold [] [] = true
equal_fold (c ∷ s) (d ∷ t) = eqb (fold_code (code c)) (fold_code (code d)) && equal_fold s t
equal_fold [] (d ∷ t) = false
equal_fold (c ∷ s) [] = false
