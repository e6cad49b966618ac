-- ===== src/Render/Units.antt =====
-- The systemd units of internal/render/render.go, line by line.
use mathlib.Core.List.{[], ◌∷◌}
use hamara_tunnel.Prelude.{String, ◌<>◌, List, ◌==◌, ◌++◌, if◌then◌else◌}
use hamara_tunnel.Text.{itoa}
use hamara_tunnel.Model.{Config, role_iran}
use hamara_tunnel.Render.Quote.{shell_arg, format_host, unlines}

unfoldable pub ara_server_lines : Config → List String
ara_server_lines cfg =
    "[Unit]"
    ∷ "Description=Hamara ARA TLS transport server"
    ∷ "Documentation=https://github.com/dev-penhan/Hamara-tunnel"
    ∷ ("After=network-online.target wg-quick@" <> (cfg.interface <> ".service"))
    ∷ "Wants=network-online.target"
    ∷ ""
    ∷ "[Service]"
    ∷ "Type=simple"
    ∷ "User=root"
    ∷ ("ExecStart=/usr/local/bin/wstunnel server --log-lvl WARN --restrict-to 127.0.0.1:"
        <> (itoa cfg.wireguard_port
            <> (" --restrict-http-upgrade-path-prefix "
                <> (shell_arg cfg.ara_path
                    <> (" --tls-certificate "
                        <> (shell_arg cfg.tls_cert_path
                            <> (" --tls-private-key "
                                <> (shell_arg cfg.tls_key_path
                                    <> (" --tls-client-ca-certs "
                                        <> (shell_arg cfg.mtls_ca_path
                                            <> (" wss://0.0.0.0:"
                                                <> itoa cfg.endpoint_port)))))))))))
    ∷ "Restart=always"
    ∷ "RestartSec=3s"
    ∷ "LimitNOFILE=1048576"
    ∷ "NoNewPrivileges=true"
    ∷ "ProtectHome=true"
    ∷ "PrivateTmp=true"
    ∷ "ProtectSystem=strict"
    ∷ ("ReadOnlyPaths="
        <> (shell_arg cfg.tls_cert_path
            <> (" " <> (shell_arg cfg.tls_key_path <> (" " <> shell_arg cfg.mtls_ca_path)))))
    ∷ ""
    ∷ "[Install]"
    ∷ "WantedBy=multi-user.target"
    ∷ []

-- `ARAServerUnit`
unfoldable pub ara_server_unit : Config → String
ara_server_unit cfg = unlines (ara_server_lines cfg)

-- The option that turns certificate checks on.
unfoldable pub verify_option : Config → String
verify_option cfg = if cfg.tls_verify then " --tls-verify-certificate" else ""

unfoldable pub ara_url : Config → String
ara_url cfg = "wss://" <> (format_host cfg.endpoint_host <> (":" <> itoa cfg.endpoint_port))

unfoldable pub ara_forward : Config → String
ara_forward cfg =
    "udp://127.0.0.1:"
    <> (itoa cfg.local_relay_port
        <> (":127.0.0.1:" <> (itoa cfg.wireguard_port <> "?timeout_sec=0")))

unfoldable pub ara_client_lines : Config → List String
ara_client_lines cfg =
    "[Unit]"
    ∷ "Description=Hamara ARA TLS transport client"
    ∷ "Documentation=https://github.com/dev-penhan/Hamara-tunnel"
    ∷ "After=network-online.target"
    ∷ "Wants=network-online.target"
    ∷ ("Before=wg-quick@" <> (cfg.interface <> ".service"))
    ∷ ""
    ∷ "[Service]"
    ∷ "Type=simple"
    ∷ "User=root"
    ∷ ("ExecStart=/usr/local/bin/wstunnel client --log-lvl WARN --connection-retry-max-backoff 30s --websocket-ping-frequency 20s --dns-resolver-prefer-ipv4 -L "
        <> (shell_arg (ara_forward cfg)
            <> (" -P "
                <> (shell_arg cfg.ara_path
                    <> (" --tls-certificate "
                        <> (shell_arg cfg.mtls_client_cert_path
                            <> (" --tls-private-key "
                                <> (shell_arg cfg.mtls_client_key_path
                                    <> (verify_option cfg
                                        <> (" " <> shell_arg (ara_url cfg)))))))))))
    ∷ "Restart=always"
    ∷ "RestartSec=3s"
    ∷ "LimitNOFILE=1048576"
    ∷ "NoNewPrivileges=true"
    ∷ "ProtectHome=true"
    ∷ "PrivateTmp=true"
    ∷ "ProtectSystem=strict"
    ∷ ("ReadOnlyPaths="
        <> (shell_arg cfg.mtls_client_cert_path <> (" " <> shell_arg cfg.mtls_client_key_path)))
    ∷ ""
    ∷ "[Install]"
    ∷ "WantedBy=multi-user.target"
    ∷ []

-- `ARAClientUnit`
unfoldable pub ara_client_unit : Config → String
ara_client_unit cfg = unlines (ara_client_lines cfg)

-- `FirewallUnit`
unfoldable pub firewall_unit : String
firewall_unit = unlines (
    "[Unit]" ∷ "Description=Hamara Tunnel forwarding and NAT rules"
    ∷ "After=network-online.target ufw.service nftables.service" ∷ "Wants=network-online.target"
    ∷ "" ∷ "[Service]" ∷ "Type=oneshot" ∷ "ExecStart=/usr/local/lib/hamara/firewall up"
    ∷ "ExecStop=/usr/local/lib/hamara/firewall down" ∷ "RemainAfterExit=yes" ∷ "" ∷ "[Install]"
    ∷ "WantedBy=multi-user.target" ∷ [])

-- `GuardUnit`
unfoldable pub guard_unit : String
guard_unit = unlines (
    "[Unit]" ∷ "Description=Hamara strict egress guard and fail-closed policy table"
    ∷ "After=network-online.target" ∷ "Wants=network-online.target"
    ∷ "Before=wg-quick@hamara0.service hamara-ipip.service" ∷ "" ∷ "[Service]" ∷ "Type=oneshot"
    ∷ "ExecStart=/usr/local/lib/hamara/guard up" ∷ "ExecStop=/usr/local/lib/hamara/guard down"
    ∷ "RemainAfterExit=yes" ∷ "" ∷ "[Install]" ∷ "WantedBy=multi-user.target" ∷ [])

-- `WireGuardGuardDropIn`
unfoldable pub wireguard_guard_drop_in : String
wireguard_guard_drop_in =
    unlines ("[Unit]" ∷ "Requires=hamara-guard.service" ∷ "After=hamara-guard.service" ∷ [])

-- The two lines by which the tunnel of the edge asks for the guard.
unfoldable pub guard_lines : String → List String
guard_lines role =
    if role == role_iran
    then "Requires=hamara-guard.service" ∷ "After=hamara-guard.service" ∷ []
    else []

unfoldable pub ipip_unit_lines : String → List String
ipip_unit_lines role =
    ("[Unit]" ∷ "Description=Hamara IPIP routed tunnel" ∷ "After=network-online.target"
      ∷ "Wants=network-online.target" ∷ [])
    ++ (guard_lines role
        ++ ("Before=hamara-firewall.service" ∷ "" ∷ "[Service]" ∷ "Type=oneshot"
            ∷ "ExecStart=/usr/local/lib/hamara/ipip up" ∷ "ExecStop=/usr/local/lib/hamara/ipip down"
            ∷ "RemainAfterExit=yes" ∷ "" ∷ "[Install]" ∷ "WantedBy=multi-user.target" ∷ []))

-- `IPIPUnit`
unfoldable pub ipip_unit : String → String
ipip_unit role = unlines (ipip_unit_lines role)

unfoldable pub ssh_client_lines : Config → List String
ssh_client_lines cfg =
    "[Unit]"
    ∷ "Description=Hamara SSH SOCKS tunnel"
    ∷ "After=network-online.target"
    ∷ "Wants=network-online.target"
    ∷ ""
    ∷ "[Service]"
    ∷ "Type=simple"
    ∷ "User=root"
    ∷ ("ExecStart=/usr/bin/ssh -NT -D 127.0.0.1:"
        <> (itoa cfg.socks_port
            <> (" -p "
                <> (itoa cfg.ssh_port
                    <> (" -i /etc/hamara/secrets/ssh_ed25519 -o BatchMode=yes -o ExitOnForwardFailure=yes -o StrictHostKeyChecking=yes -o UserKnownHostsFile=/etc/hamara/ssh_known_hosts -o ServerAliveInterval=20 -o ServerAliveCountMax=3 -o ConnectTimeout=10 "
                        <> (shell_arg cfg.ssh_user <> ("@" <> shell_arg cfg.endpoint_host)))))))
    ∷ "Restart=always"
    ∷ "RestartSec=3s"
    ∷ "NoNewPrivileges=true"
    ∷ "ProtectHome=true"
    ∷ "PrivateTmp=true"
    ∷ "ProtectSystem=strict"
    ∷ "ReadOnlyPaths=/etc/hamara/secrets/ssh_ed25519 /etc/hamara/ssh_known_hosts"
    ∷ ""
    ∷ "[Install]"
    ∷ "WantedBy=multi-user.target"
    ∷ []

-- `SSHClientUnit`
unfoldable pub ssh_client_unit : Config → String
ssh_client_unit cfg = unlines (ssh_client_lines cfg)
