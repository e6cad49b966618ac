-- ===== src/Render/Xray.antt =====
-- `XrayOutbound`, `XrayRoutingAll`, `XrayRoutingInbound` and `KnownHosts` of internal/render/render.go.
use mathlib.Core.List.{[], ◌∷◌}
use hamara_tunnel.Prelude.{String, ◌<>◌, true, not, List, ◌==◌, if◌then◌else◌, Result, ok}
use hamara_tunnel.Prelude.Int.{ℤ, pos, eqb_ℤ}
use hamara_tunnel.Text.{itoa, trim_space}
use hamara_tunnel.Model.{Config, mode_ssh_socks}
use hamara_tunnel.Render.Quote.{host_address}
use hamara_tunnel.Render.Scripts.{xray_mark}
use hamara_tunnel.Render.Json.{
  Json, str, num, bool, arr, obj, Items, nil, item, end, field, marshal_indent,
}

unfoldable pub socks_server : Config → Json
socks_server cfg = obj (field "address" (str "127.0.0.1") (field "port" (num cfg.socks_port) end))

unfoldable pub socks_outbound : Config → Json
unfolding socks_server
socks_outbound cfg = obj (
    field "protocol" (str "socks") (
      field "settings" (obj (field "servers" (arr (item (socks_server cfg) nil)) end))
        (field "tag" (str "hamara-egress") end)))

unfoldable pub sockopt : Config → Json
sockopt cfg = obj (
    field "domainStrategy" (str "UseIPv4") (
      field "interface" (str cfg.interface)
        (field "mark" (num xray_mark) (field "tcpFastOpen" (bool true) end))))

unfoldable pub freedom_outbound : Config → Json
unfolding sockopt
freedom_outbound cfg = obj (
    field "protocol" (str "freedom") (
      field "sendThrough" (str (host_address cfg.edge_address)) (
        field "settings" (obj end) (
          field "streamSettings" (obj (field "sockopt" (sockopt cfg) end))
            (field "tag" (str "hamara-egress") end)))))

unfoldable pub outbound : Config → Json
unfolding socks_outbound freedom_outbound
outbound cfg = if cfg.mode == mode_ssh_socks then socks_outbound cfg else freedom_outbound cfg

-- The encoder does not fail on these objects.
unfoldable pub xray_outbound : Config → Result String
xray_outbound cfg = ok (marshal_indent (outbound cfg))

unfoldable pub xray_routing_all : String
xray_routing_all = marshal_indent (
    obj (
      field "network" (str "tcp,udp")
        (field "outboundTag" (str "hamara-egress") (field "type" (str "field") end))))

unfoldable pub tag_items : List String → Items
tag_items [] = nil
tag_items (t ∷ ts) = item (str t) (tag_items ts)

-- The rule is made for a list of tags that was given; Go prints a nil slice as null.
unfoldable pub xray_routing_inbound : List String → String
unfolding tag_items
xray_routing_inbound tags = marshal_indent (
    obj (
      field "inboundTag" (arr (tag_items tags))
        (field "outboundTag" (str "hamara-egress") (field "type" (str "field") end))))

-- The name under which a host's key is known: with the port, unless it is 22.
unfoldable pub host_label : String → ℤ → String
host_label host port =
    if not (eqb_ℤ port (pos 22)) then "[" <> (host <> ("]:" <> itoa port)) else host

unfoldable pub known_hosts : String → ℤ → String → String
unfolding host_label
known_hosts host port host_key = host_label host port <> (" " <> (trim_space host_key <> "\n"))
