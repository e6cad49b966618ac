-- ===== src/Model/Offers.antt =====
-- `ValidateOffer`: each block of tests is a function, and the whole runs them in order.
use hamara_tunnel.Prelude.{
  ℕ, String, Bool, ◌&&◌, ◌||◌, not, Option, none, some, eqb, same, ◌==◌, ◌!=◌, ◌<>◌, if◌then◌else◌,
  Result, ok, err, message, ◌>>=◌, ◌>>◌, reject_if,
}
use hamara_tunnel.Prelude.Int.{eqb_ℤ, outside}
use hamara_tunnel.Text.{itoa}
use hamara_tunnel.Net.{Network, parse_ip, is_ipv4, parse_cidr, contains_ip, is_ipv4_text}
use hamara_tunnel.Model.Types.{
  Offer, schema_version, mode_ara, mode_wireguard, mode_ipip, mode_ssh_socks, is_mode,
  is_routed_mode,
}
use hamara_tunnel.Model.Host.{
  valid_endpoint_host, matches_instance_id, matches_hex_path, matches_username, strip_prefix,
}
use hamara_tunnel.Model.Material.{Pki, valid_wg_key, valid_ssh_host_key, valid_mtls_material}

-- The IPv4 network of a tunnel.
unfoldable pub tunnel_network : Option (ℕ × Network) → Result Network
tunnel_network none = err (message "invalid IPv4 tunnel CIDR")
tunnel_network (some (ip, network)) =
    if is_ipv4 ip then ok network else err (message "invalid IPv4 tunnel CIDR")

abbrev bad_addresses : Result (Unit {0})
bad_addresses = err (message "invalid routed tunnel IPv4 addresses")

-- The two addresses are IPv4 addresses of the network, and differ.
unfoldable pub check_members : Network → Option ℕ → Option ℕ → Result (Unit {0})
check_members network none edge = bad_addresses
check_members network (some gateway) none = bad_addresses
check_members network (some gateway) (some edge) = do
  reject_if (not (is_ipv4 gateway) || not (is_ipv4 edge)) "invalid routed tunnel IPv4 addresses"
  reject_if
      (not (contains_ip network gateway) || not (contains_ip network edge) || eqb gateway edge)
      "tunnel addresses must be distinct members of the tunnel CIDR"

unfoldable pub check_routed : Offer → Result (Unit {0})
check_routed o = do
  network ← tunnel_network (parse_cidr o.tunnel_cidr)
  check_members network (parse_ip (strip_prefix o.gateway_address))
      (parse_ip (strip_prefix o.edge_address))
  reject_if (outside 576 1500 o.mtu || outside 1 0x7fffffff o.route_table)
      "invalid routed MTU or policy-routing table"

unfoldable pub check_wireguard : Offer → Result (Unit {0})
check_wireguard o = do
  reject_if (not (valid_wg_key o.gateway_public_key) || not (valid_wg_key o.preshared_key))
      "WireGuard material is missing or malformed"
  reject_if (outside 1 65535 o.wireguard_port) "invalid WireGuard port"

unfoldable pub check_ssh_socks : Offer → Result (Unit {0})
check_ssh_socks o = do
  reject_if (not (matches_username o.ssh_user) || not (valid_ssh_host_key o.ssh_host_key))
      "SSH SOCKS identity settings are incomplete"
  reject_if
      (outside 1 65535 o.ssh_port
        || not (eqb_ℤ o.ssh_port o.endpoint_port)
        || outside 1024 65535 o.socks_port)
      "SSH SOCKS ports are invalid or inconsistent"

-- `net.ParseIP(s)` is not nil, and its `To4()` is not.
unfoldable pub check_ipip : Offer → Result (Unit {0})
check_ipip o =
    reject_if (not (is_ipv4_text o.gateway_endpoint_ip) || o.gateway_endpoint_ip != o.endpoint_host)
      "IPIP requires a consistent public gateway IPv4 address"

unfoldable pub check_identity : Offer → Result (Unit {0})
check_identity o = do
  reject_if (not (eqb_ℤ o.version schema_version)) ("unsupported offer version " <> itoa o.version)
  reject_if (not (matches_instance_id o.instance_id) || not (is_mode o.mode))
      "offer has an invalid instance ID or tunnel mode"
  reject_if (not (valid_endpoint_host o.endpoint_host) || outside 1 65535 o.endpoint_port)
      "offer has an invalid endpoint"

abbrev pub is_tls_mode : String → Bool
is_tls_mode t = t == "acme" || t == "existing" || t == "self-signed"

-- `if b { … }` around a block of tests
abbrev pub when : Bool → Result (Unit {0}) → Result (Unit {0})
when b m = if b then m else ok tt

module _ (pki : Pki) where
  unfoldable pub check_ara : Offer → Result (Unit {0})
  check_ara o = do
    reject_if (not (matches_hex_path o.ara_path) || outside 1 65535 o.local_relay_port)
        "ARA transport settings are incomplete"
    reject_if (not (is_tls_mode o.tls_mode)) "ARA TLS mode is invalid"
    reject_if (same (o.tls_mode == "self-signed") o.tls_verify)
        "ARA certificate-verification policy does not match its TLS mode"
    reject_if (not (valid_mtls_material pki o.mtls_client_cert o.mtls_client_key o.ara_path))
        "ARA mutual-TLS client identity is missing, malformed, or mismatched"

  unfoldable pub validate_offer : Offer → Result (Unit {0})
  validate_offer o = do
    check_identity o
    when (is_routed_mode o.mode) (check_routed o)
    when (o.mode == mode_ara || o.mode == mode_wireguard) (check_wireguard o)
    when (o.mode == mode_ara) (check_ara o)
    reject_if (o.mode == mode_wireguard && not (eqb_ℤ o.wireguard_port o.endpoint_port))
        "direct WireGuard listener and endpoint ports do not match"
    when (o.mode == mode_ssh_socks) (check_ssh_socks o)
    when (o.mode == mode_ipip) (check_ipip o)
