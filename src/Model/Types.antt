-- ===== src/Model/Types.antt =====
-- The constants and structs of internal/model/model.go. A time is its text; the zero time is "".
use hamara_tunnel.Prelude.{String, Bool, false, ◌||◌, ◌==◌, if◌then◌else◌}
use hamara_tunnel.Prelude.Int.{ℤ, pos}

abbrev pub schema_version : ℤ
schema_version = pos 1

abbrev pub role_iran : String
role_iran = "iran"

abbrev pub role_outside : String
role_outside = "outside"

abbrev pub mode_ara : String
mode_ara = "ara"

abbrev pub mode_wireguard : String
mode_wireguard = "wireguard"

abbrev pub mode_ipip : String
mode_ipip = "ipip"

abbrev pub mode_ssh_socks : String
mode_ssh_socks = "ssh-socks"

abbrev pub state_pending : String
state_pending = "pending"

abbrev pub state_ready : String
state_ready = "ready"

pub record Config : Type 0 where
  pub version : ℤ
  pub instance_id : String
  pub role : String
  pub mode : String
  pub state : String
  pub interface : String
  pub wan_interface : String
  pub tunnel_cidr : String
  pub gateway_address : String
  pub edge_address : String
  pub endpoint_host : String
  pub endpoint_port : ℤ
  pub wireguard_port : ℤ
  pub local_relay_port : ℤ
  pub mtu : ℤ
  pub route_table : ℤ
  pub peer_public_key : String
  pub peer_endpoint : String
  pub ara_path : String
  pub tls_mode : String
  pub tls_verify : Bool
  pub tls_cert_path : String
  pub tls_key_path : String
  pub mtls_ca_path : String
  pub mtls_client_cert_path : String
  pub mtls_client_key_path : String
  pub ssh_user : String
  pub ssh_port : ℤ
  pub ssh_host_key : String
  pub socks_port : ℤ
  pub created_at : String
  pub accepted_at : String
  pub previous_ip_forward : String
  pub previous_rp_filter_all : String
  pub previous_rp_filter_default : String

pub record Offer : Type 0 where
  pub version : ℤ
  pub instance_id : String
  pub mode : String
  pub endpoint_host : String
  pub endpoint_port : ℤ
  pub tunnel_cidr : String
  pub gateway_address : String
  pub edge_address : String
  pub mtu : ℤ
  pub route_table : ℤ
  pub gateway_public_key : String
  pub preshared_key : String
  pub wireguard_port : ℤ
  pub local_relay_port : ℤ
  pub ara_path : String
  pub tls_mode : String
  pub tls_verify : Bool
  pub mtls_client_cert : String
  pub mtls_client_key : String
  pub ssh_user : String
  pub ssh_port : ℤ
  pub ssh_host_key : String
  pub socks_port : ℤ
  pub gateway_endpoint_ip : String

pub record Response : Type 0 where
  pub version : ℤ
  pub instance_id : String
  pub mode : String
  pub edge_public_key : String
  pub ssh_public_key : String
  pub edge_endpoint_ip : String

-- The zero values of the structs.
abbrev pub zero_config : Config
zero_config = record {
  version = pos 0;
  instance_id = "";
  role = "";
  mode = "";
  state = "";
  interface = "";
  wan_interface = "";
  tunnel_cidr = "";
  gateway_address = "";
  edge_address = "";
  endpoint_host = "";
  endpoint_port = pos 0;
  wireguard_port = pos 0;
  local_relay_port = pos 0;
  mtu = pos 0;
  route_table = pos 0;
  peer_public_key = "";
  peer_endpoint = "";
  ara_path = "";
  tls_mode = "";
  tls_verify = false;
  tls_cert_path = "";
  tls_key_path = "";
  mtls_ca_path = "";
  mtls_client_cert_path = "";
  mtls_client_key_path = "";
  ssh_user = "";
  ssh_port = pos 0;
  ssh_host_key = "";
  socks_port = pos 0;
  created_at = "";
  accepted_at = "";
  previous_ip_forward = "";
  previous_rp_filter_all = "";
  previous_rp_filter_default = "";
}

abbrev pub zero_offer : Offer
zero_offer = record {
  version = pos 0;
  instance_id = "";
  mode = "";
  endpoint_host = "";
  endpoint_port = pos 0;
  tunnel_cidr = "";
  gateway_address = "";
  edge_address = "";
  mtu = pos 0;
  route_table = pos 0;
  gateway_public_key = "";
  preshared_key = "";
  wireguard_port = pos 0;
  local_relay_port = pos 0;
  ara_path = "";
  tls_mode = "";
  tls_verify = false;
  mtls_client_cert = "";
  mtls_client_key = "";
  ssh_user = "";
  ssh_port = pos 0;
  ssh_host_key = "";
  socks_port = pos 0;
  gateway_endpoint_ip = "";
}

abbrev pub zero_response : Response
zero_response = record {
  version = pos 0;
  instance_id = "";
  mode = "";
  edge_public_key = "";
  ssh_public_key = "";
  edge_endpoint_ip = "";
}

abbrev pub is_mode : String → Bool
is_mode v = v == mode_ara || v == mode_wireguard || v == mode_ipip || v == mode_ssh_socks

abbrev pub mode_label : String → String
mode_label v =
    if v == mode_ara
    then "ARA Routed TLS"
    else if v == mode_wireguard
    then "WireGuard Direct"
    else if v == mode_ipip
    then "IPIP Routed"
    else if v == mode_ssh_socks
    then "SSH SOCKS"
    else v

abbrev pub is_routed_mode : String → Bool
is_routed_mode v = v == mode_ara || v == mode_wireguard || v == mode_ipip
