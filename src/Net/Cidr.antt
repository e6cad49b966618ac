-- ===== src/Net/Cidr.antt =====
-- `net.ParseCIDR` and `IPNet.Contains`.
use hamara_tunnel.Prelude.{
  ℕ, ◌+◌, ◌-◌, ◌*◌, ◌/◌, ◌^◌, String, Bool, ◌&&◌, Option, none, some, eqb, same, if◌then◌else◌,
}
use hamara_tunnel.Text.{is, any_char, cut, read_ℕ}
use hamara_tunnel.Net.Address.{parse_ip, is_ipv4}

-- An `IPNet`: the masked address, and the length of the mask over all 128 bits.
pub record Network : Type 0 where
  pub ip : ℕ
  pub ones : ℕ

-- The first `ones` bits of an address.
unfoldable pub prefix_of : ℕ → ℕ → ℕ
prefix_of ones ip = ip / 2 ^ (128 - ones)

unfoldable pub masked : ℕ → ℕ → Network
unfolding prefix_of
masked ip ones = record { ip = prefix_of ones ip * 2 ^ (128 - ones); ones = ones }

-- A mask length: an address written with dots alone has 32 bits, and any other has 128.
unfoldable pub mask_length : String → String → Option ℕ
unfolding read_ℕ
mask_length addr mask =
    if any_char (is b':') addr
    then read_ℕ 128 mask
    else elim (read_ℕ 32 mask) [ none ↦ none | some n ↦ some (96 + n) ]

unfoldable pub network : ℕ → Option ℕ → Option (ℕ × Network)
unfolding masked
network ip none = none
network ip (some ones) = some (ip, masked ip ones)

-- The address in front of the slash, and its network.
unfoldable pub parse_cidr : String → Option (ℕ × Network)
unfolding cut parse_ip mask_length network
parse_cidr s = elim (cut s b'/') [
  | none ↦ none
  | some (addr, mask) ↦ elim (parse_ip addr) [
    | none ↦ none
    | some ip ↦ network ip (mask_length addr mask)
  ]
]

-- The same number of bytes after `To4`, and the same bits under the mask.
unfoldable pub contains_ip : Network → ℕ → Bool
contains_ip n ip =
    same (is_ipv4 ip) (is_ipv4 n.ip) && eqb (prefix_of n.ones ip) (prefix_of n.ones n.ip)
