-- ===== src/App/Manage.antt =====
-- `ManageLink`, `Logs`, `RepairGuards`, `serviceState`, `ShowPairingToken` and `PrintXray`.
use Prim.Native.String.{[], ◌∷◌}
use mathlib.Core.List.{[], ◌∷◌}
use hamara_tunnel.Prelude.{
  String, ◌<>◌, ◌&&◌, List, ◌++◌, ◌==◌, ◌!=◌, if◌then◌else◌, Result, ok, err, message, null,
}
use hamara_tunnel.Model.{Config, role_iran, role_outside, mode_ssh_socks, is_routed_mode}
use hamara_tunnel.Render.{xray_outbound, xray_routing_all, xray_routing_inbound}
use hamara_tunnel.System.{
  Action, pure, fail, lift, attempt, say, skip, refuse_if, do_if, for_each, ◌>>=◌, ◌>>◌,
}
use hamara_tunnel.Platform.{ConfigCodec, runner_run, runner_output, load_config, lib_dir}
use hamara_tunnel.App.Names.{Units, managed_link_units, service_names, guard_service}
use hamara_tunnel.App.Inputs.{read_trim}
use hamara_tunnel.App.Guard.{enable}

-- `Output` gives "" next to an error.
unfoldable pub state_of : Result String → String
state_of (ok out) = out
state_of (err e) = "inactive"

unfoldable pub service_state : String → Action String
service_state name = do
  r ← attempt (runner_output "systemctl" ("is-active" ∷ name ∷ []))
  pure (state_of r)

unfoldable pub stop_unit : String → Action (Unit {0})
stop_unit unit = runner_run "systemctl" ("stop" ∷ unit ∷ [])

unfoldable pub start_unit : String → Action (Unit {0})
start_unit unit = enable (unit ∷ [])

unfoldable pub stop_link : Units → Action (Unit {0})
stop_link units = for_each units.stop stop_unit

unfoldable pub start_link : Units → Action (Unit {0})
start_link units = for_each units.start start_unit

-- The `switch` on the action.
unfoldable pub apply_action : String → Units → Action (Unit {0})
apply_action action units =
    if action == "start"
    then start_link units
    else if action == "stop"
    then stop_link units
    else if action == "restart"
    then stop_link units >> start_link units
    else skip

unfoldable pub manage_text : String → Config → String
manage_text action cfg =
    if action == "stop" && cfg.role == role_iran && is_routed_mode cfg.mode
    then "Tunnel transport stopped. hamara-guard remains active so marked Xray traffic fails closed.\n"
    else "Hamara tunnel services: " <> (action <> " complete.\n")

-- What follows the reading of the configuration.
unfoldable pub manage : Config → String → Action (Unit {0})
manage cfg action = do
  refuse_if (action != "start" && action != "stop" && action != "restart")
      (message ("unsupported service action \"" <> (action <> "\"")))
  refuse_if (cfg.mode == mode_ssh_socks && cfg.role == role_outside) (
      message
        "the outside SSH fallback uses the existing ssh.service; Hamara will not stop or restart your management SSH daemon")
  apply_action action (managed_link_units cfg)
  say (manage_text action cfg)

unfoldable pub manage_link : ConfigCodec → String → Action (Unit {0})
manage_link codec action = do cfg ← load_config codec; manage cfg action

unfoldable pub unit_args : List String → List String
unit_args [] = []
unit_args (s ∷ ss) = "-u" ∷ s ∷ unit_args ss

unfoldable pub logs : ConfigCodec → Action (Unit {0})
logs codec = do
  cfg ← load_config codec
  refuse_if (null (service_names cfg))
      (message "this pending gateway has no dedicated Hamara service logs yet")
  runner_run "journalctl" (("--no-pager" ∷ "-n" ∷ "200" ∷ []) ++ unit_args (service_names cfg))

-- A guard's unit is enabled and its script is run again.
unfoldable pub reapply : String → String → String → Action (Unit {0})
reapply unit script text = do
  enable (unit ∷ [])
  runner_run (lib_dir <> ("/" <> script)) ("up" ∷ [])
  say text

unfoldable pub repair : Config → Action (Unit {0})
repair cfg =
    if cfg.role == role_outside && is_routed_mode cfg.mode
    then reapply "hamara-firewall.service" "firewall"
        "Outside forwarding, NAT, and listener firewall rules were reapplied.\n"
    else if cfg.role == role_iran && is_routed_mode cfg.mode
    then reapply guard_service "guard"
        "Strict marked-traffic kill switch and unreachable fallback were reapplied.\n"
    else fail (message "this mode has no Hamara-managed IP forwarding/firewall guard")

unfoldable pub repair_guards : ConfigCodec → Action (Unit {0})
repair_guards codec = do cfg ← load_config codec; repair cfg

-- The file of the token, and its label.
unfoldable pub token_file : Config → String × String
token_file cfg =
    if cfg.role == role_outside
    then ("/etc/hamara/offer.token", "OFFER")
    else ("/etc/hamara/response.token", "RESPONSE")

unfoldable pub show_pairing_token : ConfigCodec → Action (Unit {0})
show_pairing_token codec = do
  cfg ← load_config codec
  value ← read_trim (token_file cfg).0
  say ((token_file cfg).1 <> (" token (treat it as a secret):\n" <> (value <> "\n")))

unfoldable pub routing_rule : List String → String
routing_rule tags = if null tags then xray_routing_all else xray_routing_inbound tags

unfoldable pub print_xray : ConfigCodec → List String → Action (Unit {0})
print_xray codec tags = do
  cfg ← load_config codec
  refuse_if (cfg.role != role_iran)
      (message "3x-ui/Xray egress configuration belongs on the Iran edge server")
  outbound ← lift (xray_outbound cfg)
  say "Add this object to Xray Settings -> Outbounds:\n"
  say (outbound <> "\n")
  say "\nAdd this rule near the end of Xray Settings -> Routing Rules:\n"
  say (routing_rule tags <> "\n")
  do_if (cfg.mode == mode_ssh_socks)
      (say "\nNote: SSH SOCKS is TCP-only; use ARA or WireGuard for UDP traffic.\n")
