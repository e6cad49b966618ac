-- ===== src/Encoding/Base64.antt =====
-- `base64.StdEncoding` and `base64.RawURLEncoding`. A decoder skips line breaks, and it is not strict:
-- it ignores the spare bits of the last character.
use Prim.Native.String.{[], ◌∷◌}
use mathlib.Core.List.{[], ◌∷◌}
use hamara_tunnel.Prelude.{
  ℕ, ◌+◌, ◌*◌, ◌/◌, ◌%◌, Char, String, ◌||◌, Option, none, some, List, if◌then◌else◌,
}
use hamara_tunnel.Text.{is, nth_char, index_of}

abbrev pub std_alphabet : String
std_alphabet = "ABCDEFGHIJKLMNOPQRSTUVWXYZabcdefghijklmnopqrstuvwxyz0123456789+/"

abbrev pub url_alphabet : String
url_alphabet = "ABCDEFGHIJKLMNOPQRSTUVWXYZabcdefghijklmnopqrstuvwxyz0123456789-_"

-- The character of a value below 64.
unfoldable pub sextet : ℕ → Char
unfolding nth_char
sextet n = elim (nth_char url_alphabet n) [ none ↦ "A" | some c ↦ c ]

-- `base64.RawURLEncoding.EncodeToString`
unfoldable pub base64_encode : List ℕ → String
base64_encode [] = []
base64_encode (a ∷ []) = sextet (a / 4) ∷ sextet (a % 4 * 16) ∷ []
base64_encode (a ∷ b ∷ []) =
    sextet (a / 4) ∷ sextet (a % 4 * 16 + b / 16) ∷ sextet (b % 16 * 4) ∷ []
base64_encode (a ∷ b ∷ c ∷ bs) =
    sextet (a / 4)
    ∷ sextet (a % 4 * 16 + b / 16)
    ∷ sextet (b % 16 * 4 + c / 64)
    ∷ sextet (c % 64)
    ∷ base64_encode bs

-- The text without carriage returns and line feeds.
unfoldable pub drop_breaks : String → String
drop_breaks [] = []
drop_breaks (c ∷ s) =
    let rest = drop_breaks s in if is b'\r' c || is b'\n' c then rest else c ∷ rest

abbrev byte1 : ℕ → ℕ → ℕ
byte1 p q = p * 4 + q / 16

abbrev byte2 : ℕ → ℕ → ℕ
byte2 q r = q % 16 * 16 + r / 4

abbrev byte3 : ℕ → ℕ → ℕ
byte3 r s = r % 4 * 64 + s

abbrev pub consed : ℕ → Option (List ℕ) → Option (List ℕ)
consed b none = none
consed b (some bs) = some (b ∷ bs)

-- The values of the characters, all of which are in the alphabet.
unfoldable pub sextets : String → String → Option (List ℕ)
sextets alphabet [] = some []
sextets alphabet (c ∷ s) = elim (index_of alphabet c) [
  | none ↦ none
  | some n ↦ consed n (sextets alphabet s)
]

-- Bytes from values: groups of four, and at the end two or three.
unfoldable pub join_sextets : List ℕ → Option (List ℕ)
join_sextets [] = some []
join_sextets (p ∷ []) = none
join_sextets (p ∷ q ∷ []) = some (byte1 p q ∷ [])
join_sextets (p ∷ q ∷ r ∷ []) = some (byte1 p q ∷ byte2 q r ∷ [])
join_sextets (p ∷ q ∷ r ∷ s ∷ rest) =
    consed (byte1 p q) (consed (byte2 q r) (consed (byte3 r s) (join_sextets rest)))

-- `base64.RawURLEncoding.DecodeString`
unfoldable pub base64_decode : String → Option (List ℕ)
base64_decode s = elim (sextets url_alphabet (drop_breaks s)) [
  | none ↦ none
  | some vs ↦ join_sextets vs
]

-- A last group of four characters of the padded form, where one or two `=` may stand.
unfoldable pub last_quad : Char → Char → Char → Char → Option (List ℕ)
unfolding sextets join_sextets
last_quad a b c d =
    if is b'=' d
    then (if is b'=' c
        then elim (sextets std_alphabet (a ∷ b ∷ [])) [ none ↦ none | some vs ↦ join_sextets vs ]
        else elim (sextets std_alphabet (a ∷ b ∷ c ∷ [])) [
          | none ↦ none
          | some vs ↦ join_sextets vs
        ])
    else elim (sextets std_alphabet (a ∷ b ∷ c ∷ d ∷ [])) [
      | none ↦ none
      | some vs ↦ join_sextets vs
    ]

abbrev joined : Option (List ℕ) → Option (List ℕ) → Option (List ℕ)
joined none more = none
joined (some bs) none = none
joined (some bs) (some cs) = some (mathlib.Core.List.◌++◌ bs cs)

-- Groups of four characters, all full but the last.
unfoldable pub quads : String → Option (List ℕ)
unfolding last_quad
quads [] = some []
quads (a ∷ []) = none
quads (a ∷ b ∷ []) = none
quads (a ∷ b ∷ c ∷ []) = none
quads (a ∷ b ∷ c ∷ d ∷ []) = last_quad a b c d
quads (a ∷ b ∷ c ∷ d ∷ e ∷ rest) =
    if is b'=' d then none else joined (last_quad a b c d) (quads (e ∷ rest))

-- `base64.StdEncoding.DecodeString`
unfoldable pub base64_std_decode : String → Option (List ℕ)
unfolding drop_breaks quads
base64_std_decode s = quads (drop_breaks s)
