-- ===== src/Render/WireGuard.antt =====
-- `WireGuard` of internal/render/render.go: the configuration of the interface, line by line.
use mathlib.Core.List.{[], ◌∷◌}
use hamara_tunnel.Prelude.{
  String, ◌<>◌, ◌&&◌, List, ◌==◌, ◌!=◌, ◌++◌, if◌then◌else◌, Result, ok, err, message,
}
use hamara_tunnel.Text.{itoa, trim_space}
use hamara_tunnel.Model.{Config, role_iran, role_outside, mode_ara}
use hamara_tunnel.Render.Quote.{host_address, format_host, unlines}

unfoldable pub own_address : Config → String
own_address cfg = if cfg.role == role_iran then cfg.edge_address else cfg.gateway_address

-- The listener of the outside gateway.
unfoldable pub listen_lines : Config → List String
listen_lines cfg =
    if cfg.role == role_outside then ("ListenPort = " <> itoa cfg.wireguard_port) ∷ [] else []

-- The routes of the Iran edge, in a table of their own.
unfoldable pub table_lines : Config → List String
table_lines cfg =
    if cfg.role == role_iran
    then "Table = off"
      ∷ ("PostUp = ip route replace default dev %i metric 10 table " <> itoa cfg.route_table)
      ∷ ("PostDown = ip route del default dev %i table "
          <> (itoa cfg.route_table <> " 2>/dev/null || true"))
      ∷ []
    else []

unfoldable pub interface_lines : Config → String → List String
interface_lines cfg private_key =
    ("# Managed by Hamara Tunnel. Manual changes may be overwritten."
      ∷ "[Interface]"
      ∷ ("Address = " <> own_address cfg)
      ∷ ("PrivateKey = " <> trim_space private_key)
      ∷ ("MTU = " <> itoa cfg.mtu)
      ∷ "SaveConfig = false"
      ∷ [])
    ++ (listen_lines cfg ++ table_lines cfg)

unfoldable pub preshared_lines : String → List String
preshared_lines preshared_key =
    if trim_space preshared_key != ""
    then ("PresharedKey = " <> trim_space preshared_key) ∷ []
    else []

-- Where the edge reaches the gateway: through the local relay of ARA, or directly.
unfoldable pub endpoint_line : Config → String
endpoint_line cfg =
    if cfg.mode == mode_ara
    then "Endpoint = 127.0.0.1:" <> itoa cfg.local_relay_port
    else "Endpoint = " <> (format_host cfg.endpoint_host <> (":" <> itoa cfg.endpoint_port))

unfoldable pub allowed_lines : Config → List String
allowed_lines cfg =
    if cfg.role == role_outside
    then ("AllowedIPs = " <> (host_address cfg.edge_address <> "/32")) ∷ []
    else "AllowedIPs = 0.0.0.0/0" ∷ endpoint_line cfg ∷ "PersistentKeepalive = 25" ∷ []

-- The peer's section; none while the peer's key is not known.
unfoldable pub peer_lines : Config → String → String → List String
peer_lines cfg preshared_key peer_public_key =
    if trim_space peer_public_key == ""
    then []
    else ("" ∷ "[Peer]" ∷ ("PublicKey = " <> trim_space peer_public_key) ∷ [])
      ++ (preshared_lines preshared_key ++ allowed_lines cfg)

unfoldable pub wireguard_lines : Config → String → String → String → List String
wireguard_lines cfg private_key preshared_key peer_public_key =
    interface_lines cfg private_key ++ peer_lines cfg preshared_key peer_public_key

unfoldable pub wireguard : Config → String → String → String → Result String
wireguard cfg private_key preshared_key peer_public_key =
    if cfg.role != role_iran && cfg.role != role_outside
    then err (message ("invalid role \"" <> (cfg.role <> "\"")))
    else ok (unlines (wireguard_lines cfg private_key preshared_key peer_public_key))
