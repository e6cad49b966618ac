-- ===== src/App/Report.antt =====
-- `Status`, `Doctor` and `ShowPaths`.
use Prim.Native.String.{[], ◌∷◌}
use mathlib.Core.List.{[], ◌∷◌}
use hamara_tunnel.Prelude.{
  ℕ, zero, suc, ◌-◌, String, ◌<>◌, Bool, ◌&&◌, ◌||◌, List, none, some, ◌==◌, ◌!=◌, if◌then◌else◌,
  Result, ok, err, error_text, is_ok, len,
}
use hamara_tunnel.Text.{trim_space, split, contains, has_prefix, itoa}
use hamara_tunnel.Model.{
  Config, role_iran, mode_ara, mode_wireguard, mode_ssh_socks, state_ready, is_routed_mode,
  mode_label,
}
use hamara_tunnel.Token.{to_upper}
use hamara_tunnel.Render.{xray_mark}
use hamara_tunnel.System.{
  Op, combined, stat, now, Reply, Action, attempt, ignore, perform, ask, say, do_if, for_each,
  ◌>>=◌, ◌>>◌,
}
use hamara_tunnel.Platform.{ConfigCodec, runner_output, save_config, load_config}
use hamara_tunnel.App.Names.{service_names}
use hamara_tunnel.App.Inputs.{read_sysctl, host_only, or_empty}
use hamara_tunnel.App.Manage.{service_state}
use hamara_tunnel.App.LeakTest.{curl}

unfoldable pub spaces : ℕ → String
spaces zero = ""
spaces (suc n) = " " <> spaces n

-- `%-ns`
unfoldable pub pad : ℕ → String → String
pad n s = s <> spaces (n - len s)

unfoldable pub say_service : ℕ → String → String → Action (Unit {0})
say_service width colon svc = do
  state ← service_state svc
  say ("  " <> (pad width (svc <> colon) <> (" " <> (state <> "\n"))))

-- The lines of `wg show` that are shown.
unfoldable pub is_shown : String → Bool
is_shown line =
    contains line "latest handshake" || contains line "transfer:" || has_prefix line "interface:"

unfoldable pub say_shown : String → Action (Unit {0})
say_shown line = do_if (is_shown line) (say ("  " <> (trim_space line <> "\n")))

unfoldable pub say_wireguard : Result String → Action (Unit {0})
say_wireguard (ok out) = do say "\nWireGuard:\n"; for_each (split out b'\n') say_shown
say_wireguard (err e) = say "\nWireGuard interface is not available yet.\n"

unfoldable pub show_wireguard : Config → Action (Unit {0})
show_wireguard cfg = do
  r ← attempt (runner_output "wg" ("show" ∷ cfg.interface ∷ []))
  say_wireguard r

unfoldable pub say_status : String → Config → Action (Unit {0})
say_status version cfg = do
  say ("Hamara Tunnel " <> (version <> "\n"))
  say ("  Instance : " <> (cfg.instance_id <> "\n"))
  say ("  Role     : " <> (to_upper cfg.role <> "\n"))
  say ("  Mode     : " <> (mode_label cfg.mode <> "\n"))
  say ("  State    : " <> (cfg.state <> "\n"))
  say ("  Endpoint : " <> (cfg.endpoint_host <> (":" <> (itoa cfg.endpoint_port <> "\n"))))
  for_each (service_names cfg) (say_service 22 "")
  do_if (cfg.mode == mode_ara || cfg.mode == mode_wireguard) (show_wireguard cfg)

unfoldable pub status : ConfigCodec → String → Action (Unit {0})
status codec version = do cfg ← load_config codec; say_status version cfg

-- One line of the diagnostics.
unfoldable pub say_check : String → String → Action (Unit {0})
say_check name value = say ("  " <> (pad 24 (name <> ":") <> (" " <> (value <> "\n"))))

unfoldable pub interface_text : Config → Result String → String
interface_text cfg (ok out) = "OK (" <> (cfg.interface <> ")")
interface_text cfg (err e) = "FAIL (" <> (error_text e <> ")")

unfoldable pub check_interface : Config → Action (Unit {0})
check_interface cfg = do
  r ← attempt (runner_output "ip" ("link" ∷ "show" ∷ "dev" ∷ cfg.interface ∷ []))
  say_check "Tunnel interface" (interface_text cfg r)

unfoldable pub guard_text : Config → String → String → String
guard_text cfg rules routes =
    if contains rules ("lookup " <> itoa cfg.route_table) && contains routes "unreachable default"
    then "OK (mark " <> (itoa xray_mark <> (", table " <> (itoa cfg.route_table <> ")")))
    else "FAIL (policy rule or unreachable fallback missing)"

unfoldable pub check_guard : Config → Action (Unit {0})
check_guard cfg = do
  rules ← attempt (runner_output "ip" ("rule" ∷ "show" ∷ []))
  routes ← attempt (runner_output "ip" ("route" ∷ "show" ∷ "table" ∷ itoa cfg.route_table ∷ []))
  say_check "Strict egress guard" (guard_text cfg (or_empty rules) (or_empty routes))

-- The request of the egress test.
unfoldable pub egress_request : Config → Op
egress_request cfg =
    if cfg.mode == mode_ssh_socks
    then combined "curl" (
        "-4fsS"
        ∷ "--max-time"
        ∷ "12"
        ∷ "--socks5-hostname"
        ∷ ("127.0.0.1:" <> itoa cfg.socks_port)
        ∷ "https://api.ipify.org"
        ∷ [])
    else curl "12" (host_only cfg.edge_address)

module _ (codec : ConfigCodec) where
  -- A link that carries traffic is ready.
  unfoldable pub mark_ready : Config → Action (Unit {0})
  mark_ready cfg = do_if (cfg.state != state_ready) (do
    time ← perform now
    ignore (save_config codec (record cfg { state = state_ready; accepted_at = time.text })))

  unfoldable pub egress_report : Config → Reply → Action (Unit {0})
  egress_report cfg r = elim r.error [
    | some e ↦ do
      say ("  FAIL: " <> (error_text e <> (" (" <> (trim_space r.text <> ")\n"))))
      say "  Inspect: journalctl -u 'hamara-*' -u 'wg-quick@hamara0' --since '-10 min'\n"
    | none ↦ do say ("  OK: outside egress IPv4 is " <> (trim_space r.text <> "\n")); mark_ready cfg
  ]

  unfoldable pub egress_test : Config → Action (Unit {0})
  egress_test cfg = do
    say "\nEgress test (can take up to 12 seconds):\n"
    r ← perform (egress_request cfg)
    egress_report cfg r

  unfoldable pub diagnose : Config → Action (Unit {0})
  diagnose cfg = do
    say "Hamara diagnostics\n"
    forward ← read_sysctl "/proc/sys/net/ipv4/ip_forward" "unknown"
    say_check "Configuration" "OK"
    say_check "IPv4 forwarding" forward
    say_check "WAN interface" cfg.wan_interface
    for_each (service_names cfg) (say_service 24 ":")
    do_if (cfg.mode != mode_ssh_socks) (check_interface cfg)
    do_if (cfg.role == role_iran && is_routed_mode cfg.mode) (check_guard cfg)
    do_if (cfg.role == role_iran) (egress_test cfg)

  unfoldable pub doctor : Action (Unit {0})
  doctor = do cfg ← load_config codec; diagnose cfg

abbrev pub saved_files : List (String × String)
saved_files =
    ("/usr/local/bin/hamara", "Hamara CLI")
    ∷ ("/usr/local/bin/wstunnel", "ARA transport binary (ARA only)")
    ∷ ("/opt/hamara-tunnel", "installed documentation and license")
    ∷ ("/etc/hamara/config.json", "root-only instance configuration")
    ∷ ("/etc/hamara/offer.token", "SECRET outside pairing offer")
    ∷ ("/etc/hamara/response.token", "Iran pairing response")
    ∷ ("/etc/hamara/secrets", "root-only WireGuard/SSH private keys")
    ∷ ("/etc/hamara/mtls", "ARA mutual-TLS CA or client identity")
    ∷ ("/etc/hamara/xray-outbound.json", "generated 3x-ui/Xray outbound")
    ∷ ("/etc/wireguard/hamara0.conf", "WireGuard interface and private key")
    ∷ ("/etc/sysctl.d/90-hamara-tunnel.conf", "IPv4 forwarding/rp_filter settings")
    ∷ ("/usr/local/lib/hamara/guard", "Iran strict egress kill-switch helper")
    ∷ ("/usr/local/lib/hamara/firewall", "outside forwarding/NAT helper")
    ∷ ("/usr/local/lib/hamara/ipip", "IPIP interface helper")
    ∷ ("/etc/systemd/system/hamara-guard.service", "strict egress guard unit")
    ∷ ("/etc/systemd/system/hamara-ara-client.service", "ARA Iran transport unit")
    ∷ ("/etc/systemd/system/hamara-ara-server.service", "ARA outside transport unit")
    ∷ ("/etc/systemd/system/hamara-firewall.service", "outside firewall/NAT unit")
    ∷ ("/etc/systemd/system/hamara-ipip.service", "IPIP unit")
    ∷ ("/etc/systemd/system/hamara-ssh-socks.service", "SSH SOCKS client unit")
    ∷ (
      "/etc/systemd/system/wg-quick@hamara0.service.d/hamara-guard.conf",
      "WireGuard requires strict guard",
    )
    ∷ ("/etc/ssh/sshd_config.d/90-hamara-tunnel.conf", "restricted SSH fallback account policy")
    ∷ ("/var/lib/hamara-ssh/.ssh/authorized_keys", "paired SSH forwarding public key")
    ∷ ("/root/hamara-offer.txt", "SECRET convenience copy of OFFER")
    ∷ ("/root/hamara-response.txt", "convenience copy of RESPONSE")
    ∷ []

unfoldable pub say_path : String × String → Action (Unit {0})
say_path (path, purpose) = do
  r ← attempt (ask (stat path))
  say (
      "  "
      <> (pad 58 path
          <> (" "
              <> (pad 8 (if is_ok r then "present" else "not used")
                  <> (" " <> (purpose <> "\n"))))))

unfoldable pub say_paths : Config → Action (Unit {0})
say_paths cfg = do
  say (
      "Hamara saved files for " <> (to_upper cfg.role <> (" / " <> (mode_label cfg.mode <> ":\n"))))
  for_each saved_files say_path
  say
      "Never share OFFER tokens, private keys, WireGuard configuration, or files under /etc/hamara/secrets and /etc/hamara/mtls.\n"

unfoldable pub show_paths : ConfigCodec → Action (Unit {0})
show_paths codec = do cfg ← load_config codec; say_paths cfg
