-- ===== src/Render/Scripts.antt =====
-- The shell scripts of internal/render/render.go, line by line, and the sysctl file.
use mathlib.Core.List.{[], ◌∷◌}
use hamara_tunnel.Prelude.{String, ◌<>◌, List, ◌==◌, ◌++◌, if◌then◌else◌}
use hamara_tunnel.Prelude.Int.{ℤ, pos}
use hamara_tunnel.Text.{itoa}
use hamara_tunnel.Model.{Config, role_iran, mode_ara, mode_wireguard, mode_ipip}
use hamara_tunnel.Render.Quote.{shell_arg, host_address, unlines}

-- The mark that Xray sets on its traffic.
abbrev pub xray_mark : ℤ
xray_mark = pos 72

-- The commands that open the listener, and those that close it again.
unfoldable pub input_up : Config → List String
input_up cfg =
    if cfg.mode == mode_ara
    then ("ipt_check -I INPUT -p tcp --dport " <> (itoa cfg.endpoint_port <> " -j ACCEPT"))
      ∷ "# ARA's inner WireGuard listener is local-only by policy. Block direct WAN UDP."
      ∷ ("ipt_check -I INPUT -i \"$WAN\" -p udp --dport "
          <> (itoa cfg.wireguard_port <> " -j DROP"))
      ∷ []
    else if cfg.mode == mode_wireguard
    then ("ipt_check -I INPUT -p udp --dport " <> (itoa cfg.endpoint_port <> " -j ACCEPT")) ∷ []
    else if cfg.mode == mode_ipip
    then "ipt_check -I INPUT -p 4 -j ACCEPT" ∷ []
    else []

unfoldable pub input_down : Config → List String
input_down cfg =
    if cfg.mode == mode_ara
    then ("ipt_del INPUT -i \"$WAN\" -p udp --dport " <> (itoa cfg.wireguard_port <> " -j DROP"))
      ∷ ("ipt_del INPUT -p tcp --dport " <> (itoa cfg.endpoint_port <> " -j ACCEPT"))
      ∷ []
    else if cfg.mode == mode_wireguard
    then ("ipt_del INPUT -p udp --dport " <> (itoa cfg.endpoint_port <> " -j ACCEPT")) ∷ []
    else if cfg.mode == mode_ipip
    then "ipt_del INPUT -p 4 -j ACCEPT" ∷ []
    else []

-- Lines behind two blanks: only the first one gets them.
unfoldable pub indent_first : List String → List String
indent_first [] = "  " ∷ []
indent_first (x ∷ xs) = ("  " <> x) ∷ xs

unfoldable pub firewall_lines : Config → List String
firewall_lines cfg =
    ("#!/usr/bin/env bash"
      ∷ "set -euo pipefail"
      ∷ "ACTION=\"${1:-up}\""
      ∷ ("WAN=" <> shell_arg cfg.wan_interface)
      ∷ ("IFACE=" <> shell_arg cfg.interface)
      ∷ ("CIDR=" <> shell_arg cfg.tunnel_cidr)
      ∷ ""
      ∷ "ipt_check() {"
      ∷ "  local table=\"filter\""
      ∷ "  if [[ \"$1\" == \"-t\" ]]; then table=\"$2\"; shift 2; fi"
      ∷ "  local op=\"$1\"; shift"
      ∷ "  local check=\"-C\""
      ∷ "  [[ \"$op\" == \"-A\" || \"$op\" == \"-I\" ]] || { echo \"bad iptables op\" >&2; exit 2; }"
      ∷ "  iptables -t \"$table\" \"$check\" \"$@\" 2>/dev/null || iptables -t \"$table\" \"$op\" \"$@\""
      ∷ "}"
      ∷ "ipt_del() {"
      ∷ "  local table=\"filter\""
      ∷ "  if [[ \"$1\" == \"-t\" ]]; then table=\"$2\"; shift 2; fi"
      ∷ "  local chain=\"$1\"; shift"
      ∷ "  while iptables -t \"$table\" -C \"$chain\" \"$@\" 2>/dev/null; do"
      ∷ "    iptables -t \"$table\" -D \"$chain\" \"$@\""
      ∷ "  done"
      ∷ "}"
      ∷ ""
      ∷ "if [[ \"$ACTION\" == \"up\" ]]; then"
      ∷ [])
    ++ (indent_first (input_up cfg)
        ++ (("  ipt_check -I FORWARD -i \"$IFACE\" -j ACCEPT"
              ∷ "  ipt_check -I FORWARD -o \"$IFACE\" -m conntrack --ctstate RELATED,ESTABLISHED -j ACCEPT"
              ∷ "  ipt_check -t nat -A POSTROUTING -s \"$CIDR\" -o \"$WAN\" -j MASQUERADE" ∷ "else"
              ∷ [])
            ++ (indent_first (input_down cfg)
                ++ ("  ipt_del FORWARD -i \"$IFACE\" -j ACCEPT"
                    ∷ "  ipt_del FORWARD -o \"$IFACE\" -m conntrack --ctstate RELATED,ESTABLISHED -j ACCEPT"
                    ∷ "  ipt_del -t nat POSTROUTING -s \"$CIDR\" -o \"$WAN\" -j MASQUERADE" ∷ "fi"
                    ∷ []))))

-- `FirewallScript`
unfoldable pub firewall_script : Config → String
firewall_script cfg = unlines (firewall_lines cfg)

unfoldable pub guard_script_lines : Config → List String
guard_script_lines cfg =
    "#!/usr/bin/env bash"
    ∷ "set -euo pipefail"
    ∷ "ACTION=\"${1:-up}\""
    ∷ ("TABLE=" <> itoa cfg.route_table)
    ∷ ("SOURCE=" <> shell_arg (host_address cfg.edge_address))
    ∷ ("IFACE=" <> shell_arg cfg.interface)
    ∷ ("MARK=" <> itoa xray_mark)
    ∷ ""
    ∷ "ipt_add() {"
    ∷ "  iptables -w 5 -C \"$@\" 2>/dev/null || iptables -w 5 -I \"$@\""
    ∷ "}"
    ∷ "ipt_del() {"
    ∷ "  while iptables -w 5 -C \"$@\" 2>/dev/null; do"
    ∷ "    iptables -w 5 -D \"$@\""
    ∷ "  done"
    ∷ "}"
    ∷ "ip6_add() {"
    ∷ "  command -v ip6tables >/dev/null 2>&1 || return 0"
    ∷ "  ip6tables -w 5 -C \"$@\" 2>/dev/null || ip6tables -w 5 -I \"$@\""
    ∷ "}"
    ∷ "ip6_del() {"
    ∷ "  command -v ip6tables >/dev/null 2>&1 || return 0"
    ∷ "  while ip6tables -w 5 -C \"$@\" 2>/dev/null; do"
    ∷ "    ip6tables -w 5 -D \"$@\""
    ∷ "  done"
    ∷ "}"
    ∷ "del_rules() {"
    ∷ "  while ip rule del fwmark \"$MARK\"/0xffffffff lookup \"$TABLE\" priority 109 2>/dev/null; do :; done"
    ∷ "  while ip rule del from \"$SOURCE\"/32 lookup \"$TABLE\" priority 110 2>/dev/null; do :; done"
    ∷ "}"
    ∷ ""
    ∷ "if [[ \"$ACTION\" == \"up\" ]]; then"
    ∷ "  # The unreachable fallback remains when the tunnel device disappears. This"
    ∷ "  # prevents Linux policy routing from falling through to the normal WAN table."
    ∷ "  ip route replace unreachable default metric 32767 table \"$TABLE\""
    ∷ "  del_rules"
    ∷ "  ip rule add fwmark \"$MARK\"/0xffffffff lookup \"$TABLE\" priority 109"
    ∷ "  ip rule add from \"$SOURCE\"/32 lookup \"$TABLE\" priority 110"
    ∷ "  ipt_add OUTPUT -m mark --mark \"$MARK\"/0xffffffff ! -o \"$IFACE\" -j REJECT --reject-with icmp-net-unreachable"
    ∷ "  ipt_add OUTPUT -s \"$SOURCE\"/32 ! -o \"$IFACE\" -j REJECT --reject-with icmp-net-unreachable"
    ∷ "  # Version 0.2 has no IPv6 tunnel. Any accidentally marked IPv6 flow fails closed."
    ∷ "  ip6_add OUTPUT -m mark --mark \"$MARK\"/0xffffffff -j REJECT --reject-with icmp6-no-route"
    ∷ "else"
    ∷ "  ipt_del OUTPUT -m mark --mark \"$MARK\"/0xffffffff ! -o \"$IFACE\" -j REJECT --reject-with icmp-net-unreachable"
    ∷ "  ipt_del OUTPUT -s \"$SOURCE\"/32 ! -o \"$IFACE\" -j REJECT --reject-with icmp-net-unreachable"
    ∷ "  ip6_del OUTPUT -m mark --mark \"$MARK\"/0xffffffff -j REJECT --reject-with icmp6-no-route"
    ∷ "  del_rules"
    ∷ "  ip route flush table \"$TABLE\" 2>/dev/null || true"
    ∷ "fi"
    ∷ []

-- `GuardScript`
unfoldable pub guard_script : Config → String
guard_script cfg = unlines (guard_script_lines cfg)

-- The four addresses of the tunnel, from this side.
pub record TunnelEnds : Type 0 where
  pub local_address : String
  pub remote_address : String
  pub local_endpoint : String
  pub remote_endpoint : String

unfoldable pub ipip_ends : Config → TunnelEnds
ipip_ends cfg =
    if cfg.role == role_iran
    then record {
      local_address = cfg.edge_address;
      remote_address = cfg.gateway_address;
      local_endpoint = cfg.peer_endpoint;
      remote_endpoint = cfg.endpoint_host;
    }
    else record {
      local_address = cfg.gateway_address;
      remote_address = cfg.edge_address;
      local_endpoint = cfg.endpoint_host;
      remote_endpoint = cfg.peer_endpoint;
    }

unfoldable pub route_up : Config → List String
route_up cfg =
    if cfg.role == role_iran
    then ("  ip route replace default dev \"$IFACE\" metric 10 table " <> itoa cfg.route_table) ∷ []
    else []

unfoldable pub route_down : Config → List String
route_down cfg =
    if cfg.role == role_iran
    then ("  ip route del default dev \"$IFACE\" table "
        <> (itoa cfg.route_table <> " 2>/dev/null || true"))
      ∷ []
    else []

unfoldable pub ipip_script_lines : Config → TunnelEnds → List String
ipip_script_lines cfg ends =
    ("#!/usr/bin/env bash"
      ∷ "set -euo pipefail"
      ∷ "ACTION=\"${1:-up}\""
      ∷ ("IFACE=" <> shell_arg cfg.interface)
      ∷ ("LOCAL_EP=" <> shell_arg ends.local_endpoint)
      ∷ ("REMOTE_EP=" <> shell_arg ends.remote_endpoint)
      ∷ ("LOCAL_ADDR=" <> shell_arg ends.local_address)
      ∷ ("PEER_ADDR=" <> shell_arg (host_address ends.remote_address))
      ∷ ""
      ∷ "if [[ \"$ACTION\" == \"up\" ]]; then"
      ∷ "  ip tunnel del \"$IFACE\" 2>/dev/null || true"
      ∷ "  ip tunnel add \"$IFACE\" mode ipip local \"$LOCAL_EP\" remote \"$REMOTE_EP\" ttl 64"
      ∷ "  ip addr add \"$LOCAL_ADDR\" peer \"$PEER_ADDR\" dev \"$IFACE\""
      ∷ ("  ip link set dev \"$IFACE\" mtu " <> (itoa cfg.mtu <> " up"))
      ∷ [])
    ++ (route_up cfg
        ++ (("else" ∷ [])
            ++ (route_down cfg ++ ("  ip tunnel del \"$IFACE\" 2>/dev/null || true" ∷ "fi" ∷ []))))

-- `IPIPScript`
unfoldable pub ipip_script : Config → String
ipip_script cfg = unlines (ipip_script_lines cfg (ipip_ends cfg))

-- `Sysctl`
unfoldable pub sysctl : String
sysctl = unlines (
    "# Managed by Hamara Tunnel" ∷ "net.ipv4.ip_forward = 1"
    ∷ "# Loose reverse-path filtering tolerates routed point-to-point links while"
    ∷ "# retaining basic source validation." ∷ "net.ipv4.conf.all.rp_filter = 2"
    ∷ "net.ipv4.conf.default.rp_filter = 2" ∷ [])
