-- ===== src/App/Accept.antt =====
-- `Accept`: the gateway takes the peer's response.
use Prim.Native.String.{[], ◌∷◌}
use mathlib.Core.List.{[], ◌∷◌}
use hamara_tunnel.Prelude.{String, ◌<>◌, ◌||◌, ◌==◌, ◌!=◌, if◌then◌else◌, Result, message, checked}
use hamara_tunnel.Text.{trim_space}
use hamara_tunnel.Model.{
  Config, Response, role_outside, mode_ara, mode_wireguard, mode_ipip, mode_ssh_socks, state_ready,
  validate_response,
}
use hamara_tunnel.Token.{decode}
use hamara_tunnel.Render.{ipip_script, ipip_unit, firewall_script, firewall_unit}
use hamara_tunnel.System.{now, Action, pure, lift, perform, say, refuse_if, ◌>>=◌, ◌>>◌}
use hamara_tunnel.Platform.{
  runner_run, put_file, save_config, load_config, require_root_ubuntu, lib_dir,
}
use hamara_tunnel.App.Names.{Services, wg_unit}
use hamara_tunnel.App.Inputs.{token_input}
use hamara_tunnel.App.Install.{write_wireguard}
use hamara_tunnel.App.Ssh.{authorize_ssh_peer}
use hamara_tunnel.App.Guard.{enable}

unfoldable pub accept_wireguard : Config → Response → Action Config
accept_wireguard cfg response =
    let key = trim_space response.edge_public_key in
    let cfg' : Config = record cfg { peer_public_key = key } in
    do write_wireguard cfg' key; runner_run "systemctl" ("restart" ∷ wg_unit ∷ []); pure cfg'

unfoldable pub accept_ipip : Config → Response → Action Config
accept_ipip cfg response =
    let cfg' : Config = record cfg { peer_endpoint = response.edge_endpoint_ip } in
    do
      put_file (lib_dir <> "/ipip") (ipip_script cfg') 0o755
      put_file (lib_dir <> "/firewall") (firewall_script cfg') 0o755
      put_file "/etc/systemd/system/hamara-ipip.service" (ipip_unit cfg'.role) 0o644
      put_file "/etc/systemd/system/hamara-firewall.service" firewall_unit 0o644
      runner_run "systemctl" ("daemon-reload" ∷ [])
      enable ("hamara-ipip.service" ∷ "hamara-firewall.service" ∷ [])
      pure cfg'

-- The `switch` of `Accept`.
unfoldable pub accept_mode : Config → Response → Action Config
accept_mode cfg response =
    if cfg.mode == mode_ara || cfg.mode == mode_wireguard
    then accept_wireguard cfg response
    else if cfg.mode == mode_ipip
    then accept_ipip cfg response
    else if cfg.mode == mode_ssh_socks
    then authorize_ssh_peer cfg response.ssh_public_key >> pure cfg
    else pure cfg

module _ (services : Services) where
  open services use {configs, responses}

  -- The token's response, if it answers this gateway's offer.
  unfoldable pub read_response : Config → String → Result Response
  read_response cfg value =
      checked (λ r. validate_response r cfg) (decode responses value "response")

  -- The link is set up for the peer, and then stored as ready.
  unfoldable pub complete : Config → Response → Action (Unit {0})
  complete cfg response = do
    cfg' ← accept_mode cfg response
    time ← perform now
    save_config configs (record cfg' { state = state_ready; accepted_at = time.text })
    say "Pairing accepted. The Hamara link is now enabled.\n"
    say "Run `hamara status` on both servers, then configure 3x-ui on the Iran edge.\n"

  unfoldable pub accept : String → String → Action (Unit {0})
  accept raw_token file = do
    require_root_ubuntu
    cfg ← load_config configs
    refuse_if (cfg.role != role_outside) (message "this command must run on the outside gateway")
    value ← token_input raw_token file
    response ← lift (read_response cfg value)
    complete cfg response
