-- ===== src/Model/Host.antt =====
-- `ValidEndpointHost`, `stripPrefix` and the patterns of internal/model/model.go.
use Prim.Native.String.{[], ◌∷◌}
use mathlib.Core.List.{[], ◌∷◌}
use hamara_tunnel.Prelude.{
  Char, String, len, Bool, true, false, ◌&&◌, ◌||◌, not, List, none, some, eqb, leb, ltb, ◌==◌,
}
use hamara_tunnel.Text.{
  is, all_chars, size, is_lower_hex, is_letter, is_lower_letter, is_digit, trim_space, split,
  before, has_prefix, has_suffix,
}
use hamara_tunnel.Net.{parse_ip, is_ipv4}

-- ^[0-9a-f]{16}$
unfoldable pub matches_instance_id : String → Bool
unfolding is_lower_hex
matches_instance_id s = eqb (size s) 16 && all_chars is_lower_hex s

abbrev pub is_host_char : Char → Bool
is_host_char c = is_letter c || is_digit c || is b'.' c || is b'-' c

-- ^[A-Za-z0-9.-]{1,253}$
unfoldable pub matches_hostname : String → Bool
matches_hostname s = leb 1 (size s) && leb (size s) 253 && all_chars is_host_char s

abbrev pub is_user_start : Char → Bool
is_user_start c = is_lower_letter c || is b'_' c

abbrev pub is_user_char : Char → Bool
is_user_char c = is_lower_letter c || is_digit c || is b'_' c || is b'-' c

-- ^[a-z_][a-z0-9_-]{0,31}$
unfoldable pub matches_username : String → Bool
unfolding is_lower_letter is_digit
matches_username [] = false
matches_username (c ∷ s) = is_user_start c && leb (size s) 31 && all_chars is_user_char s

-- ^[0-9a-f]{32,128}$
unfoldable pub matches_hex_path : String → Bool
unfolding is_lower_hex
matches_hex_path s = leb 32 (size s) && leb (size s) 128 && all_chars is_lower_hex s

-- The test of the loop over the labels, negated.
unfoldable pub valid_label : String → Bool
unfolding has_prefix has_suffix
valid_label label =
    not (label == "" || ltb 63 (len label) || has_prefix label "-" || has_suffix label "-")

unfoldable pub valid_labels : List String → Bool
unfolding valid_label
valid_labels [] = true
valid_labels (label ∷ labels) = valid_label label && valid_labels labels

-- The part of `ValidEndpointHost` behind the first line.
unfoldable pub valid_trimmed_host : String → Bool
unfolding parse_ip is_ipv4 matches_hostname valid_labels split has_prefix has_suffix
valid_trimmed_host s = elim (parse_ip s) [
  | some ip ↦ is_ipv4 ip
  | none ↦
      matches_hostname s
      && not (has_prefix s ".")
      && not (has_suffix s ".")
      && valid_labels (split s b'.')
]

unfoldable pub valid_endpoint_host : String → Bool
unfolding trim_space valid_trimmed_host
valid_endpoint_host s = valid_trimmed_host (trim_space s)

unfoldable pub strip_prefix : String → String
unfolding before
strip_prefix s = before s b'/'
