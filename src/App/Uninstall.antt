-- ===== src/App/Uninstall.antt =====
-- `Uninstall`, and the commands whose errors are dropped.
use mathlib.Core.List.{[], ◌∷◌}
use hamara_tunnel.Prelude.{
  String, Bool, ◌&&◌, List, ◌==◌, if◌then◌else◌, Result, ok, err, is_not_exist,
}
use hamara_tunnel.Model.{Config, zero_config, role_outside, mode_ssh_socks, is_routed_mode}
use hamara_tunnel.System.{
  remove_all, Action, lift, attempt, ignore, call, say, do_if, for_each, ◌>>=◌, ◌>>◌,
}
use hamara_tunnel.Platform.{
  ConfigCodec, runner_run, load_config, require_root_ubuntu, config_dir, lib_dir,
}
use hamara_tunnel.App.Names.{ssh_user}
use hamara_tunnel.App.Inputs.{restore_previous_sysctls}
use hamara_tunnel.App.Certificates.{try_remove}

-- `_ = a.Runner.Run(name, args...)`
unfoldable pub try_run : String → List String → Action (Unit {0})
try_run name args = ignore (runner_run name args)

-- A missing configuration is the zero value; another error ends the command.
unfoldable pub config_or_zero : Result Config → Result Config
config_or_zero (ok cfg) = ok cfg
config_or_zero (err e) = if is_not_exist e then ok zero_config else err e

abbrev pub all_services : List String
all_services =
    "hamara-ara-server.service" ∷ "hamara-ara-client.service" ∷ "hamara-ipip.service"
    ∷ "hamara-ssh-socks.service" ∷ "hamara-firewall.service" ∷ "wg-quick@hamara0.service"
    ∷ "hamara-guard.service" ∷ []

abbrev pub removed_files : List String
removed_files =
    "/etc/systemd/system/hamara-ara-server.service"
    ∷ "/etc/systemd/system/hamara-ara-client.service" ∷ "/etc/systemd/system/hamara-ipip.service"
    ∷ "/etc/systemd/system/hamara-ssh-socks.service" ∷ "/etc/systemd/system/hamara-firewall.service"
    ∷ "/etc/systemd/system/hamara-guard.service" ∷ "/etc/sysctl.d/90-hamara-tunnel.conf"
    ∷ "/etc/ssh/sshd_config.d/90-hamara-tunnel.conf" ∷ "/root/hamara-offer.txt"
    ∷ "/root/hamara-response.txt" ∷ []

unfoldable pub disable_service : String → Action (Unit {0})
disable_service svc = try_run "systemctl" ("disable" ∷ "--now" ∷ svc ∷ [])

unfoldable pub remove_ssh_account : Config → Action (Unit {0})
remove_ssh_account cfg = do_if (cfg.mode == mode_ssh_socks && cfg.role == role_outside) (do
  try_run "userdel" ("--remove" ∷ ssh_user ∷ [])
  try_run "systemctl" ("reload" ∷ "ssh.service" ∷ []))

-- All that follows the reading of the configuration; none of it stops at an error.
unfoldable pub remove_all_of : Config → Bool → Action (Unit {0})
remove_all_of cfg purge = do
  for_each all_services disable_service
  do_if (is_routed_mode cfg.mode) (restore_previous_sysctls cfg)
  try_remove "/etc/wireguard/hamara0.conf"
  for_each removed_files try_remove
  try_remove "/etc/systemd/system/wg-quick@hamara0.service.d/hamara-guard.conf"
  try_remove "/etc/systemd/system/wg-quick@hamara0.service.d"
  remove_ssh_account cfg
  ignore (call (remove_all config_dir))
  ignore (call (remove_all lib_dir))
  do_if purge (try_remove "/usr/local/bin/wstunnel")
  try_run "systemctl" ("daemon-reload" ∷ [])
  say "Hamara configuration and services were removed. Ubuntu packages were left installed.\n"

unfoldable pub uninstall : ConfigCodec → Bool → Action (Unit {0})
uninstall codec purge = do
  require_root_ubuntu
  r ← attempt (load_config codec)
  cfg ← lift (config_or_zero r)
  remove_all_of cfg purge
