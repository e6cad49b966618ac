-- ===== src/Encoding/Hex.antt =====
-- `hex.EncodeToString`
use Prim.Native.String.{[], ◌∷◌}
use mathlib.Core.List.{[], ◌∷◌}
use hamara_tunnel.Prelude.{ℕ, ◌/◌, ◌%◌, Char, String, none, some, List}
use hamara_tunnel.Text.{nth_char}

-- The character of a value below 16.
unfoldable pub hex_char : ℕ → Char
unfolding nth_char
hex_char n = elim (nth_char "0123456789abcdef" n) [ none ↦ "0" | some c ↦ c ]

unfoldable pub hex_encode : List ℕ → String
unfolding hex_char
hex_encode [] = []
hex_encode (b ∷ bs) = hex_char (b / 16) ∷ hex_char (b % 16) ∷ hex_encode bs
