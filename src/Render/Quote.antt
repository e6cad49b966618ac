-- ===== src/Render/Quote.antt =====
-- The small helpers of internal/render/render.go: quoting, hosts and lines.
use Prim.Native.String.{[], ◌∷◌}
use mathlib.Core.List.{[], ◌∷◌}
use hamara_tunnel.Prelude.{String, ◌<>◌, List, none, some, if◌then◌else◌}
use hamara_tunnel.Text.{is, any_char, before, replace_all}
use hamara_tunnel.Net.{parse_ip}

-- Every line with a line feed behind it.
unfoldable pub unlines : List String → String
unlines [] = ""
unlines (l ∷ ls) = l <> ("\n" <> unlines ls)

-- `hostAddress`
unfoldable pub host_address : String → String
host_address s = before s b'/'

-- `formatHost`: an IPv6 address stands in brackets
unfoldable pub format_host : String → String
format_host host = elim (parse_ip host) [
  | none ↦ host
  | some ip ↦ if any_char (is b':') host then "[" <> (host <> "]") else host
]

-- `shellArg`
unfoldable pub shell_arg : String → String
unfolding replace_all
shell_arg s = "'" <> (replace_all s b'\'' "'\\''" <> "'")
