-- ===== src/Net/Address.antt =====
-- `net.ParseIP`. An address is a number below 2 ^ 128; an IPv4 address is its IPv4-mapped form, as in
-- the sixteen bytes of a `net.IP`.
use Prim.Native.String.{[], ◌∷◌}
use mathlib.Core.List.{[], ◌∷◌}
use hamara_tunnel.Prelude.{
  ℕ, zero, suc, ◌+◌, ◌-◌, ◌*◌, ◌/◌, ◌%◌, ◌^◌, Char, code, String, Bool, false, ◌&&◌, List, ◌++◌,
  Option, none, some, eqb, leb, ltb, if◌then◌else◌, length,
}
use hamara_tunnel.Text.{is, any_char, split, read_ℕ, size, within}

-- One part of a dotted address: no leading zero, at most 255.
unfoldable pub octet : String → Option ℕ
unfolding read_ℕ
octet [] = none
octet (c ∷ []) = read_ℕ 255 (c ∷ [])
octet (c ∷ d ∷ s) = if is b'0' c then none else read_ℕ 255 (c ∷ d ∷ s)

-- The number of a dotted address, digit by digit to the base 256.
unfoldable pub octets : ℕ → List String → Option ℕ
unfolding octet
octets n [] = some n
octets n (p ∷ ps) = elim (octet p) [ none ↦ none | some b ↦ octets (n * 256 + b) ps ]

-- `netip.parseIPv4`
unfoldable pub parse_ipv4 : String → Option ℕ
unfolding octets split
parse_ipv4 s = let parts = split s b'.' in if eqb (length parts) 4 then octets 0 parts else none

-- The value of a hexadecimal digit.
unfoldable pub hex_value : Char → Option ℕ
hex_value c =
    let n = code c in
    if within b'0' b'9' n
    then some (n - b'0')
    else if within b'a' b'f' n
    then some (n - 87)
    else if within b'A' b'F' n
    then some (n - 55)
    else none

unfoldable pub hex_digits : ℕ → String → Option ℕ
unfolding hex_value
hex_digits n [] = some n
hex_digits n (c ∷ s) = elim (hex_value c) [ none ↦ none | some d ↦ hex_digits (n * 16 + d) s ]

-- One group of an IPv6 address: one to four digits.
unfoldable pub group : String → Option ℕ
unfolding hex_digits
group [] = none
group (c ∷ s) = if leb (size (c ∷ s)) 4 then hex_digits 0 (c ∷ s) else none

-- Groups that end in the two of an embedded IPv4 address.
unfoldable pub last_group : String → Option (List ℕ)
unfolding group parse_ipv4
last_group s =
    if any_char (is b'.') s
    then elim (parse_ipv4 s) [ none ↦ none | some n ↦ some ((n / 65536) ∷ (n % 65536) ∷ []) ]
    else elim (group s) [ none ↦ none | some g ↦ some (g ∷ []) ]

unfoldable pub groups : List String → Option (List ℕ)
unfolding last_group
groups [] = some []
groups (p ∷ []) = last_group p
groups (p ∷ q ∷ ps) = elim (group p) [
  | none ↦ none
  | some g ↦ elim (groups (q ∷ ps)) [ none ↦ none | some gs ↦ some (g ∷ gs) ]
]

-- Groups in front of `::`, where no IPv4 address may stand.
unfoldable pub plain_groups : List String → Option (List ℕ)
unfolding group
plain_groups [] = some []
plain_groups (p ∷ ps) = elim (group p) [
  | none ↦ none
  | some g ↦ elim (plain_groups ps) [ none ↦ none | some gs ↦ some (g ∷ gs) ]
]

unfoldable pub number : ℕ → List ℕ → ℕ
number n [] = n
number n (g ∷ gs) = number (n * 65536 + g) gs

unfoldable pub zeros : ℕ → List ℕ
zeros zero = []
zeros (suc n) = 0 ∷ zeros n

-- The text before the first `::` and the text behind it.
unfoldable pub cut_ellipsis : String → Option (String × String)
cut_ellipsis [] = none
cut_ellipsis (c ∷ []) = none
cut_ellipsis (c ∷ d ∷ s) =
    let rest : Option (String × String) = elim (cut_ellipsis (d ∷ s)) [
      | none ↦ none
      | some (a, b) ↦ some (c ∷ a, b)
    ] in
    if is b':' c && is b':' d then some ([], s) else rest

-- The parts of a text at colons; the empty text has none.
unfoldable pub colon_parts : String → List String
unfolding split
colon_parts [] = []
colon_parts (c ∷ s) = split (c ∷ s) b':'

-- Both sides of `::`, which stands for one group of zeros or more.
unfoldable pub expand : List ℕ → List ℕ → Option ℕ
unfolding number zeros
expand front back =
    let used = length front + length back in
    if ltb used 8 then some (number 0 (front ++ (zeros (8 - used) ++ back))) else none

unfoldable pub full_groups : List ℕ → Option ℕ
unfolding number
full_groups gs = if eqb (length gs) 8 then some (number 0 gs) else none

-- `netip.parseIPv6`, for an address with no zone
unfoldable pub parse_ipv6 : String → Option ℕ
unfolding cut_ellipsis colon_parts groups plain_groups expand full_groups
parse_ipv6 s = elim (cut_ellipsis s) [
  | none ↦ elim (groups (colon_parts s)) [ none ↦ none | some gs ↦ full_groups gs ]
  | some (a, b) ↦ elim (plain_groups (colon_parts a)) [
    | none ↦ none
    | some front ↦ elim (groups (colon_parts b)) [ none ↦ none | some back ↦ expand front back ]
  ]
]

-- 0xffff in front of the 32 bits of an IPv4 address
abbrev pub mapped_prefix : ℕ
mapped_prefix = 65535

unfoldable pub mapped : Option ℕ → Option ℕ
mapped none = none
mapped (some n) = some (mapped_prefix * 2 ^ 32 + n)

-- The first of the characters `.`, `:` and `%` decides, as in `netip.ParseAddr`.
unfoldable pub parse_addr_from : String → String → Option ℕ
unfolding parse_ipv4 parse_ipv6 mapped
parse_addr_from s [] = none
parse_addr_from s (c ∷ r) =
    let rest = parse_addr_from s r in
    if is b'.' c
    then mapped (parse_ipv4 s)
    else if is b':' c
    then parse_ipv6 s
    else if is b'%' c
    then none
    else rest

-- `net.ParseIP`, which refuses an address with a zone
unfoldable pub parse_ip : String → Option ℕ
unfolding parse_addr_from
parse_ip s = if any_char (is b'%') s then none else parse_addr_from s s

-- `ip.To4() != nil`
unfoldable pub is_ipv4 : ℕ → Bool
is_ipv4 ip = eqb (ip / 2 ^ 32) mapped_prefix

-- `net.ParseIP(s)` is not nil, and its `To4()` is not
unfoldable pub is_ipv4_text : String → Bool
unfolding parse_ip is_ipv4
is_ipv4_text s = elim (parse_ip s) [ none ↦ false | some ip ↦ is_ipv4 ip ]
