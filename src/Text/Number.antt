-- ===== src/Text/Number.antt =====
-- `strconv.Itoa`, `%d` and `strconv.Atoi`.
use Prim.Native.String.{[], ◌∷◌}
use hamara_tunnel.Prelude.{
  ℕ, zero, suc, ◌+◌, ◌-◌, ◌*◌, ◌/◌, ◌%◌, ◌^◌, Char, code, String, ◌<>◌, Option, none, some, eqb,
  leb, if◌then◌else◌,
}
use hamara_tunnel.Prelude.Int.{ℤ, pos, negsuc}
use hamara_tunnel.Text.Chars.{is_digit}

-- The character of a decimal digit.
unfoldable pub digit : ℕ → Char
digit zero = "0"
digit (suc zero) = "1"
digit (suc (suc zero)) = "2"
digit (suc (suc (suc zero))) = "3"
digit (suc (suc (suc (suc zero)))) = "4"
digit (suc (suc (suc (suc (suc zero))))) = "5"
digit (suc (suc (suc (suc (suc (suc zero)))))) = "6"
digit (suc (suc (suc (suc (suc (suc (suc zero))))))) = "7"
digit (suc (suc (suc (suc (suc (suc (suc (suc zero)))))))) = "8"
digit (suc (suc (suc (suc (suc (suc (suc (suc (suc n))))))))) = "9"

-- The digits of a number in front of a text. The fuel is the number itself: each round divides it.
unfoldable pub digits : ℕ → ℕ → String → String
digits zero n out = out
digits (suc f) n out =
    let rest = digits f (n / 10) (digit (n % 10) ∷ out) in if eqb n 0 then out else rest

unfoldable pub show_ℕ : ℕ → String
unfolding digits digit
show_ℕ n = if eqb n 0 then "0" else digits n n ""

unfoldable pub itoa : ℤ → String
unfolding show_ℕ
itoa (pos n) = show_ℕ n
itoa (negsuc n) = "-" <> show_ℕ (n + 1)

-- The value of a text of decimal digits, as far as it stays at most `limit`.
unfoldable pub read_digits : ℕ → ℕ → String → Option ℕ
unfolding is_digit
read_digits limit n [] = some n
read_digits limit n (c ∷ s) =
    let m = n * 10 + (code c - b'0') in
    let rest = read_digits limit m s in
    if is_digit c then (if leb m limit then rest else none) else none

-- A non-empty text of decimal digits.
unfoldable pub read_ℕ : ℕ → String → Option ℕ
unfolding read_digits
read_ℕ limit [] = none
read_ℕ limit (c ∷ s) = read_digits limit 0 (c ∷ s)

unfoldable pub negated : Option ℕ → Option ℤ
negated none = none
negated (some zero) = some (pos 0)
negated (some (suc n)) = some (negsuc n)

unfoldable pub unsigned : Option ℕ → Option ℤ
unsigned none = none
unsigned (some n) = some (pos n)

-- `strconv.Atoi`: a sign may stand in front, and the value fits in 64 bits
unfoldable pub atoi : String → Option ℤ
unfolding read_ℕ negated unsigned
atoi [] = none
atoi (c ∷ s) =
    if eqb (code c) b'-'
    then negated (read_ℕ (2 ^ 63) s)
    else if eqb (code c) b'+'
    then unsigned (read_ℕ (2 ^ 63 - 1) s)
    else unsigned (read_ℕ (2 ^ 63 - 1) (c ∷ s))
