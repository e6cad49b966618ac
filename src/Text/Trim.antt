-- ===== src/Text/Trim.antt =====
-- `strings.TrimSpace`, and `strings.Trim` with a set of characters.
use Prim.Native.String.{[], ◌∷◌}
use hamara_tunnel.Prelude.{Char, String, Bool, if◌then◌else◌}
use hamara_tunnel.Text.Chars.{is_space}

module _ (p : Char → Bool) where
  -- `strings.TrimLeftFunc`
  unfoldable pub trim_left : String → String
  trim_left [] = []
  trim_left (c ∷ s) = if p c then trim_left s else c ∷ s

  -- A character in front of a text whose right end is trimmed.
  unfoldable pub onto : Char → String → String
  onto c [] = if p c then [] else c ∷ []
  onto c (d ∷ s) = c ∷ d ∷ s

  -- `strings.TrimRightFunc`
  unfoldable pub trim_right : String → String
  unfolding onto
  trim_right [] = []
  trim_right (c ∷ s) = onto c (trim_right s)

  -- `strings.TrimFunc`
  unfoldable pub trim_func : String → String
  unfolding trim_left trim_right
  trim_func s = trim_right (trim_left s)

unfoldable pub trim_space : String → String
unfolding trim_func is_space
trim_space = trim_func is_space
