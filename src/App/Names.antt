-- ===== src/App/Names.antt =====
-- The constants, defaults and tables of internal/app/app.go, and the services that it uses.
use mathlib.Core.List.{[], ◌∷◌}
use hamara_tunnel.Prelude.{String, Bool, ◌&&◌, List, ◌==◌, if◌then◌else◌}
use hamara_tunnel.Prelude.Int.{ℤ, pos}
use hamara_tunnel.Model.{
  Config, Offer, Response, Pki, zero_config, role_iran, role_outside, mode_ara, mode_wireguard,
  mode_ipip, mode_ssh_socks, state_pending,
}
use hamara_tunnel.Token.{Codec}
use hamara_tunnel.Platform.{ConfigCodec}

-- The packages that the program calls: JSON for the three structs, SHA-256, PEM and X.509.
pub record Services : Type 0 where
  pub configs : ConfigCodec
  pub offers : Codec Offer
  pub responses : Codec Response
  pub pki : Pki

abbrev pub wg_private_path : String
wg_private_path = "/etc/hamara/secrets/wg_private.key"

abbrev pub wg_public_path : String
wg_public_path = "/etc/hamara/secrets/wg_public.key"

abbrev pub wg_psk_path : String
wg_psk_path = "/etc/hamara/secrets/wg_preshared.key"

abbrev pub wg_config_path : String
wg_config_path = "/etc/wireguard/hamara0.conf"

abbrev pub mtls_dir : String
mtls_dir = "/etc/hamara/mtls"

abbrev pub mtls_ca_path : String
mtls_ca_path = "/etc/hamara/mtls/client-ca.crt"

abbrev pub mtls_ca_key_path : String
mtls_ca_key_path = "/etc/hamara/mtls/client-ca.key"

abbrev pub mtls_client_cert : String
mtls_client_cert = "/etc/hamara/mtls/client.crt"

abbrev pub mtls_client_key : String
mtls_client_key = "/etc/hamara/mtls/client.key"

abbrev pub wstunnel_ver : String
wstunnel_ver = "10.7.1"

abbrev pub ssh_user : String
ssh_user = "hamara-proxy"

-- `InitOptions`
pub record InitOptions : Type 0 where
  pub mode : String
  pub endpoint_host : String
  pub endpoint_port : ℤ
  pub tls_mode : String
  pub tls_cert_path : String
  pub tls_key_path : String
  pub acme_email : String
  pub force : Bool

unfoldable pub defaults : String → Config
defaults mode =
    let cfg = record zero_config { mode = mode; interface = "hamara0" } in
    if mode == mode_ara
    then record cfg {
      tunnel_cidr = "10.73.0.0/30";
      gateway_address = "10.73.0.1/30";
      edge_address = "10.73.0.2/30";
      wireguard_port = pos 51820;
      local_relay_port = pos 51821;
      mtu = pos 1280;
      route_table = pos 52730;
    }
    else if mode == mode_wireguard
    then record cfg {
      tunnel_cidr = "10.74.0.0/30";
      gateway_address = "10.74.0.1/30";
      edge_address = "10.74.0.2/30";
      wireguard_port = pos 51820;
      mtu = pos 1380;
      route_table = pos 52740;
    }
    else if mode == mode_ipip
    then record cfg {
      tunnel_cidr = "10.75.0.0/30";
      gateway_address = "10.75.0.1/30";
      edge_address = "10.75.0.2/30";
      mtu = pos 1400;
      route_table = pos 52750;
    }
    else if mode == mode_ssh_socks
    then record cfg { socks_port = pos 10808 }
    else cfg

unfoldable pub default_port : String → ℤ
default_port mode =
    if mode == mode_ara
    then pos 443
    else if mode == mode_wireguard
    then pos 51820
    else if mode == mode_ssh_socks
    then pos 22
    else if mode == mode_ipip
    then pos 4
    else pos 0

unfoldable pub service_names : Config → List String
service_names cfg =
    if cfg.mode == mode_ara
    then (if cfg.role == role_outside
        then "wg-quick@hamara0" ∷ "hamara-ara-server" ∷ "hamara-firewall" ∷ []
        else "hamara-guard" ∷ "hamara-ara-client" ∷ "wg-quick@hamara0" ∷ [])
    else if cfg.mode == mode_wireguard
    then (if cfg.role == role_outside
        then "wg-quick@hamara0" ∷ "hamara-firewall" ∷ []
        else "hamara-guard" ∷ "wg-quick@hamara0" ∷ [])
    else if cfg.mode == mode_ipip
    then (if cfg.role == role_outside && cfg.state == state_pending
        then []
        else if cfg.role == role_outside
        then "hamara-ipip" ∷ "hamara-firewall" ∷ []
        else "hamara-guard" ∷ "hamara-ipip" ∷ [])
    else if cfg.mode == mode_ssh_socks
    then (if cfg.role == role_iran then "hamara-ssh-socks" ∷ [] else [])
    else []

abbrev pub wg_unit : String
wg_unit = "wg-quick@hamara0.service"

abbrev pub guard_service : String
guard_service = "hamara-guard.service"

-- The units that are started, and those that are stopped, in order.
pub record Units : Type 0 where
  pub start : List String
  pub stop : List String

unfoldable pub managed_link_units : Config → Units
managed_link_units cfg =
    if cfg.mode == mode_ara
    then (if cfg.role == role_outside
        then record {
          start = wg_unit ∷ "hamara-firewall.service" ∷ "hamara-ara-server.service" ∷ [];
          stop = "hamara-ara-server.service" ∷ wg_unit ∷ [];
        }
        else record {
          start = guard_service ∷ "hamara-ara-client.service" ∷ wg_unit ∷ [];
          stop = wg_unit ∷ "hamara-ara-client.service" ∷ [];
        })
    else if cfg.mode == mode_wireguard
    then (if cfg.role == role_outside
        then record { start = wg_unit ∷ "hamara-firewall.service" ∷ []; stop = wg_unit ∷ [] }
        else record { start = guard_service ∷ wg_unit ∷ []; stop = wg_unit ∷ [] })
    else if cfg.mode == mode_ipip
    then (if cfg.role == role_outside
        then record {
          start = "hamara-ipip.service" ∷ "hamara-firewall.service" ∷ [];
          stop = "hamara-ipip.service" ∷ [];
        }
        else record {
          start = guard_service ∷ "hamara-ipip.service" ∷ [];
          stop = "hamara-ipip.service" ∷ [];
        })
    else if cfg.mode == mode_ssh_socks
    then record { start = "hamara-ssh-socks.service" ∷ []; stop = "hamara-ssh-socks.service" ∷ [] }
    else record { start = []; stop = [] }
