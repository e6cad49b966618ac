-- ===== src/Model/Responses.antt =====
-- `ValidateResponse`.
use hamara_tunnel.Prelude.{
  String, ◌||◌, not, ◌==◌, ◌!=◌, if◌then◌else◌, Result, ok, ◌>>◌, reject_if,
}
use hamara_tunnel.Prelude.Int.{eqb_ℤ}
use hamara_tunnel.Text.{has_prefix}
use hamara_tunnel.Net.{is_ipv4_text}
use hamara_tunnel.Model.Types.{
  Config, Response, schema_version, mode_ara, mode_wireguard, mode_ipip, mode_ssh_socks,
}
use hamara_tunnel.Model.Material.{valid_wg_key}

-- The `switch` over the mode of the link.
unfoldable pub check_response_material : Response → String → Result (Unit {0})
check_response_material r mode =
    if mode == mode_ara || mode == mode_wireguard
    then reject_if (not (valid_wg_key r.edge_public_key))
        "response does not contain a valid edge WireGuard public key"
    else if mode == mode_ipip
    then reject_if (not (is_ipv4_text r.edge_endpoint_ip))
        "response does not contain a valid edge IPv4 address"
    else if mode == mode_ssh_socks
    then reject_if (not (has_prefix r.ssh_public_key "ssh-"))
        "response does not contain a valid SSH public key"
    else ok tt

unfoldable pub validate_response : Response → Config → Result (Unit {0})
unfolding check_response_material
validate_response r cfg = do
  reject_if
      (not (eqb_ℤ r.version schema_version)
        || r.instance_id != cfg.instance_id
        || r.mode != cfg.mode)
      "response does not belong to this Hamara instance"
  check_response_material r cfg.mode
