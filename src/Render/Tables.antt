-- ===== src/Render/Tables.antt =====
-- The settings that a WireGuard configuration is to have, by the role of the server, each in its section.
use mathlib.Core.List.{[], ◌∷◌}
use hamara_tunnel.Prelude.{String, ◌<>◌, List, if◌then◌else◌, ◌==◌}
use hamara_tunnel.Text.{trim_space, itoa}
use hamara_tunnel.Model.{Config, role_iran, mode_ara}
use hamara_tunnel.Render.Quote.{host_address, format_host}
use hamara_tunnel.Render.Reader.{Setting, entry}

abbrev pub own : String → String → Setting
own = entry "[Interface]"

abbrev pub peer : String → String → Setting
peer = entry "[Peer]"

-- Where the edge sends its packets: to the relay of ARA on its own host, or to the gateway.
abbrev pub gateway_endpoint : Config → String
gateway_endpoint cfg =
    if cfg.mode == mode_ara
    then "127.0.0.1:" <> itoa cfg.local_relay_port
    else format_host cfg.endpoint_host <> (":" <> itoa cfg.endpoint_port)

-- The settings of the peer, if its key is known: its keys, and then those of the role.
abbrev pub peer_settings : String → String → List Setting → List Setting
peer_settings peer_key preshared_key rest =
    if trim_space peer_key == ""
    then []
    else peer "PublicKey" (trim_space peer_key)
      ∷ (if trim_space preshared_key == ""
          then rest
          else peer "PresharedKey" (trim_space preshared_key) ∷ rest)

-- The edge has the address of the edge, routes in a table of its own, and sends all that is routed to
-- the interface through the gateway, which it keeps awake.
abbrev pub edge_settings : Config → String → String → String → List Setting
edge_settings cfg private_key preshared_key peer_key =
    own "Address" cfg.edge_address
    ∷ own "PrivateKey" (trim_space private_key)
    ∷ own "MTU" (itoa cfg.mtu)
    ∷ own "SaveConfig" "false"
    ∷ own "Table" "off"
    ∷ own "PostUp" ("ip route replace default dev %i metric 10 table " <> itoa cfg.route_table)
    ∷ own "PostDown"
        ("ip route del default dev %i table " <> (itoa cfg.route_table <> " 2>/dev/null || true"))
    ∷ peer_settings peer_key preshared_key (
        peer "AllowedIPs" "0.0.0.0/0"
        ∷ peer "Endpoint" (gateway_endpoint cfg)
        ∷ peer "PersistentKeepalive" "25"
        ∷ [])

-- The gateway has the address of the gateway, listens, and takes nothing from the peer but packets
-- of the edge's address.
abbrev pub gateway_settings : Config → String → String → String → List Setting
gateway_settings cfg private_key preshared_key peer_key =
    own "Address" cfg.gateway_address
    ∷ own "PrivateKey" (trim_space private_key)
    ∷ own "MTU" (itoa cfg.mtu)
    ∷ own "SaveConfig" "false"
    ∷ own "ListenPort" (itoa cfg.wireguard_port)
    ∷ peer_settings peer_key preshared_key
        (peer "AllowedIPs" (host_address cfg.edge_address <> "/32") ∷ [])

-- The settings that the WireGuard configuration of a link has, in order.
abbrev pub link_settings : Config → String → String → String → List Setting
link_settings cfg private_key preshared_key peer_key =
    if cfg.role == role_iran
    then edge_settings cfg private_key preshared_key peer_key
    else gateway_settings cfg private_key preshared_key peer_key
