-- ===== src/App/Guard.antt =====
-- The strict guard, and the units that are enabled when a link is set up.
use mathlib.Core.List.{[], ◌∷◌}
use hamara_tunnel.Prelude.{String, ◌<>◌, ◌||◌, not, List, ◌++◌, ◌==◌, ◌!=◌, if◌then◌else◌, message}
use hamara_tunnel.Model.{
  Config, role_iran, mode_ara, mode_wireguard, mode_ipip, mode_ssh_socks, is_routed_mode,
}
use hamara_tunnel.Render.{
  guard_script, guard_unit, wireguard_guard_drop_in, firewall_script, firewall_unit,
  ara_server_unit,
}
use hamara_tunnel.System.{Action, lift, attempt, ignore, skip, refuse_if, do_if, ◌>>=◌, ◌>>◌}
use hamara_tunnel.Platform.{runner_run, put_file, lib_dir, explained}
use hamara_tunnel.App.Names.{wg_unit, guard_service}

-- `systemctl enable --now` on units
unfoldable pub enable : List String → Action (Unit {0})
enable units = runner_run "systemctl" ("enable" ∷ "--now" ∷ units)

unfoldable pub write_strict_guard : Config → Action (Unit {0})
write_strict_guard cfg = do
  refuse_if (cfg.role != role_iran || not (is_routed_mode cfg.mode))
      (message "strict egress guard can only be installed for a routed Iran edge")
  put_file (lib_dir <> "/guard") (guard_script cfg) 0o755
  put_file "/etc/systemd/system/hamara-guard.service" guard_unit 0o644
  do_if (cfg.mode == mode_ara || cfg.mode == mode_wireguard) (
      put_file "/etc/systemd/system/wg-quick@hamara0.service.d/hamara-guard.conf"
        wireguard_guard_drop_in 0o644)

unfoldable pub activate_outside_pending : Config → Action (Unit {0})
activate_outside_pending cfg =
    if cfg.mode == mode_ssh_socks || cfg.mode == mode_ipip then skip else do
      put_file (lib_dir <> "/firewall") (firewall_script cfg) 0o755
      put_file "/etc/systemd/system/hamara-firewall.service" firewall_unit 0o644
      do_if (cfg.mode == mode_ara)
          (put_file "/etc/systemd/system/hamara-ara-server.service" (ara_server_unit cfg) 0o644)
      runner_run "systemctl" ("daemon-reload" ∷ [])
      enable (
          (wg_unit ∷ "hamara-firewall.service" ∷ [])
          ++ (if cfg.mode == mode_ara then "hamara-ara-server.service" ∷ [] else []))

-- The guard is enabled, or the tunnel is not started.
unfoldable pub enable_guard : Action (Unit {0})
enable_guard = do
  r ← attempt (enable (guard_service ∷ []))
  lift (explained "strict egress guard failed; refusing to start the tunnel" r)

-- The `switch` of `activateIran`. A failed first SSH connection is expected.
unfoldable pub start_tunnel : String → Action (Unit {0})
start_tunnel mode =
    if mode == mode_ara
    then (do enable ("hamara-ara-client.service" ∷ []); enable (wg_unit ∷ []))
    else if mode == mode_wireguard
    then enable (wg_unit ∷ [])
    else if mode == mode_ipip
    then enable ("hamara-ipip.service" ∷ [])
    else if mode == mode_ssh_socks
    then ignore (enable ("hamara-ssh-socks.service" ∷ []))
    else skip

unfoldable pub activate_iran : Config → Action (Unit {0})
activate_iran cfg = do
  runner_run "systemctl" ("daemon-reload" ∷ [])
  do_if (is_routed_mode cfg.mode) enable_guard
  start_tunnel cfg.mode
