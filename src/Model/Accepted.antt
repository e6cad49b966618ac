-- ===== src/Model/Accepted.antt =====
-- What an offer that is accepted is known to satisfy.
use hamara_tunnel.Prelude.{
  ℕ, ◌≡◌, ◌≢◌, refl, Bool, true, false, ◌&&◌, ◌||◌, not, Option, none, some, ◌==◌, eqb, eqb_iff,
  eq_iff, same, arith, or_false, Result, ok, reject_if-eq-ok, reject_if->>-eq-ok, >>=-eq-ok,
  >>-eq-ok,
}
use hamara_tunnel.Prelude.Int.{pos, InRange, outside-eq-false, eqb_ℤ, eqb_ℤ-eq}
use hamara_tunnel.Net.{Network, parse_ip, parse_cidr, is_ipv4, is_ipv4_text, contains_ip, prefix_of}
use hamara_tunnel.Model.Types.{
  Offer, mode_ara, mode_wireguard, mode_ipip, mode_ssh_socks, is_mode, is_routed_mode,
}
use hamara_tunnel.Model.Host.{
  strip_prefix, valid_endpoint_host, matches_instance_id, matches_hex_path, matches_username,
}
use hamara_tunnel.Model.Material.{Pki, valid_wg_key, valid_ssh_host_key, valid_mtls_material}
use hamara_tunnel.Model.Offers.{
  tunnel_network, check_members, check_identity, check_routed, check_wireguard, check_ara,
  check_ssh_socks, check_ipip, validate_offer, is_tls_mode, when,
}

not-false : (b : Bool) → not b ≡ false → b ≡ true
not-false b h = ground arith

-- Two different IPv4 addresses under one mask.
pub record InOneNetwork (network : Network) (gateway edge : ℕ) : Type 0 where
  pub gateway_ipv4 : is_ipv4 gateway ≡ true
  pub edge_ipv4 : is_ipv4 edge ≡ true
  pub distinct : gateway ≢ edge
  pub gateway_prefix : prefix_of network.ones gateway ≡ prefix_of network.ones network.ip
  pub edge_prefix : prefix_of network.ones edge ≡ prefix_of network.ones network.ip

contains-prefix :
    (network : Network) (ip : ℕ)
    → contains_ip network ip ≡ true
    → prefix_of network.ones ip ≡ prefix_of network.ones network.ip
unfolding contains_ip
contains-prefix network ip h =
    ground (arith, eqb_iff (prefix_of network.ones ip) (prefix_of network.ones network.ip))

tests-InOneNetwork :
    (network : Network) (gateway edge : ℕ)
    → (not (is_ipv4 gateway) || not (is_ipv4 edge)) ≡ false
    → (not (contains_ip network gateway) || not (contains_ip network edge) || eqb gateway edge)
      ≡ false
    → InOneNetwork network gateway edge
tests-InOneNetwork network gateway edge v p = record {
  gateway_ipv4 = ground arith;
  edge_ipv4 = ground arith;
  distinct = ground (arith, eqb_iff gateway edge);
  gateway_prefix = contains-prefix network gateway (ground arith);
  edge_prefix = contains-prefix network edge (ground arith);
}

members-InOneNetwork :
    (network : Network) (gateway edge : Option ℕ)
    → check_members network gateway edge ≡ ok tt
    → (g : ℕ) × (e : ℕ) × (gateway ≡ some g) × (edge ≡ some e) × InOneNetwork network g e
unfolding check_members
members-InOneNetwork network none edge h = cc
members-InOneNetwork network (some g) none h = cc
members-InOneNetwork network (some g) (some e) h =
    let (versions, placed) = reject_if->>-eq-ok _ _ _ h in
    (g, e, refl, refl, tests-InOneNetwork network g e versions (reject_if-eq-ok _ _ placed))

-- The CIDR of the tunnel is an IPv4 address under a mask, its network holds the addresses of both
-- ends, which are IPv4 and differ, and the MTU and the routing table are in range.
pub record RoutedIsSound (o : Offer) : Type 0 where
  pub base : ℕ
  pub network : Network
  pub gateway : ℕ
  pub edge : ℕ
  pub cidr : parse_cidr o.tunnel_cidr ≡ some (base, network)
  pub cidr_ipv4 : is_ipv4 base ≡ true
  pub gateway_text : parse_ip (strip_prefix o.gateway_address) ≡ some gateway
  pub edge_text : parse_ip (strip_prefix o.edge_address) ≡ some edge
  pub members : InOneNetwork network gateway edge
  pub mtu_range : InRange 576 1500 o.mtu
  pub table_range : InRange 1 0x7fffffff o.route_table

network-cidr :
    (r : Option (ℕ × Network)) (n : Network)
    → tunnel_network r ≡ ok n
    → (base : ℕ) × (r ≡ some (base, n)) × (is_ipv4 base ≡ true)
unfolding tunnel_network
network-cidr none n h = cc
network-cidr (some (base, m)) n h = (base, ground arith, ground arith)

check_routed-RoutedIsSound : (o : Offer) → check_routed o ≡ ok tt → RoutedIsSound o
unfolding check_routed
check_routed-RoutedIsSound o h =
    let (n, found, h') = >>=-eq-ok (tunnel_network (parse_cidr o.tunnel_cidr)) _ h in
    let (base, cidr, cidr_ipv4) = network-cidr _ n found in
    let (addresses, sizes) = >>-eq-ok _ _ h' in
    let (g, e, g_text, e_text, members) = members-InOneNetwork n _ _ addresses in
    let (mtu_ok, table_ok) = or_false _ _ (reject_if-eq-ok _ _ sizes) in
    record {
      base = base;
      network = n;
      gateway = g;
      edge = e;
      cidr = cidr;
      cidr_ipv4 = cidr_ipv4;
      gateway_text = g_text;
      edge_text = e_text;
      members = members;
      mtu_range = outside-eq-false 576 1500 o.mtu mtu_ok;
      table_range = outside-eq-false 1 0x7fffffff o.route_table table_ok;
    }

-- What is known of an offer that `ValidateOffer` accepts: its version, names and endpoint, and what
-- its mode asks for.
pub record OfferIsSound (pki : Pki) (o : Offer) : Type 0 where
  pub version : o.version ≡ pos 1
  pub identity : matches_instance_id o.instance_id ≡ true
  pub known_mode : is_mode o.mode ≡ true
  pub host : valid_endpoint_host o.endpoint_host ≡ true
  pub port : InRange 1 65535 o.endpoint_port
  pub routed : is_routed_mode o.mode ≡ true → RoutedIsSound o
  pub wireguard :
      (o.mode == mode_ara || o.mode == mode_wireguard) ≡ true
      → (valid_wg_key o.gateway_public_key ≡ true)
        × (valid_wg_key o.preshared_key ≡ true)
        × InRange 1 65535 o.wireguard_port
  pub direct : o.mode ≡ mode_wireguard → o.wireguard_port ≡ o.endpoint_port
  pub ara :
      o.mode ≡ mode_ara
      → (matches_hex_path o.ara_path ≡ true)
        × InRange 1 65535 o.local_relay_port
        × (is_tls_mode o.tls_mode ≡ true)
        × (o.tls_verify ≡ not (o.tls_mode == "self-signed"))
        × (valid_mtls_material pki o.mtls_client_cert o.mtls_client_key o.ara_path ≡ true)
  pub ssh_socks :
      o.mode ≡ mode_ssh_socks
      → (matches_username o.ssh_user ≡ true)
        × (valid_ssh_host_key o.ssh_host_key ≡ true)
        × InRange 1 65535 o.ssh_port
        × (o.ssh_port ≡ o.endpoint_port)
        × InRange 1024 65535 o.socks_port
  pub ipip :
      o.mode ≡ mode_ipip
      → (is_ipv4_text o.gateway_endpoint_ip ≡ true) × (o.gateway_endpoint_ip ≡ o.endpoint_host)

when-eq-ok : (b : Bool) (m : Result (Unit {0})) → when b m ≡ ok tt → b ≡ true → m ≡ ok tt
when-eq-ok true m h e = h
when-eq-ok false m h e = cc

wireguard_sound :
    (o : Offer)
    → check_wireguard o ≡ ok tt
    → (valid_wg_key o.gateway_public_key ≡ true)
      × (valid_wg_key o.preshared_key ≡ true)
      × InRange 1 65535 o.wireguard_port
unfolding check_wireguard
wireguard_sound o h =
    let (keys, port) = reject_if->>-eq-ok _ _ _ h in
    let (k, k') = or_false _ _ keys in
    (
      not-false _ k,
      not-false _ k',
      outside-eq-false 1 65535 o.wireguard_port (reject_if-eq-ok _ _ port),
    )

verify_policy : (b v : Bool) → same b v ≡ false → v ≡ not b
verify_policy b v h = ground arith

ara_sound :
    (pki : Pki) (o : Offer)
    → check_ara pki o ≡ ok tt
    → (matches_hex_path o.ara_path ≡ true)
      × InRange 1 65535 o.local_relay_port
      × (is_tls_mode o.tls_mode ≡ true)
      × (o.tls_verify ≡ not (o.tls_mode == "self-signed"))
      × (valid_mtls_material pki o.mtls_client_cert o.mtls_client_key o.ara_path ≡ true)
unfolding check_ara
ara_sound pki o h =
    let (transport, h') = reject_if->>-eq-ok _ _ _ h in
    let (path, relay) = or_false _ _ transport in
    let (tls, h'') = reject_if->>-eq-ok _ _ _ h' in
    let (policy, identity) = reject_if->>-eq-ok _ _ _ h'' in
    (
      not-false _ path,
      outside-eq-false 1 65535 o.local_relay_port relay,
      not-false _ tls,
      verify_policy _ _ policy,
      not-false _ (reject_if-eq-ok _ _ identity),
    )

ssh_sound :
    (o : Offer)
    → check_ssh_socks o ≡ ok tt
    → (matches_username o.ssh_user ≡ true)
      × (valid_ssh_host_key o.ssh_host_key ≡ true)
      × InRange 1 65535 o.ssh_port
      × (o.ssh_port ≡ o.endpoint_port)
      × InRange 1024 65535 o.socks_port
unfolding check_ssh_socks
ssh_sound o h =
    let (identity, ports) = reject_if->>-eq-ok _ _ _ h in
    let (user, key) = or_false _ _ identity in
    let (both, socks) = or_false _ _ (reject_if-eq-ok _ _ ports) in
    let (port, equal) = or_false _ _ both in
    (
      not-false _ user,
      not-false _ key,
      outside-eq-false 1 65535 o.ssh_port port,
      eqb_ℤ-eq _ _ (not-false _ equal),
      outside-eq-false 1024 65535 o.socks_port socks,
    )

ipip_sound :
    (o : Offer)
    → check_ipip o ≡ ok tt
    → (is_ipv4_text o.gateway_endpoint_ip ≡ true) × (o.gateway_endpoint_ip ≡ o.endpoint_host)
unfolding check_ipip
ipip_sound o h =
    let (address, host) = or_false _ _ (reject_if-eq-ok _ _ h) in
    (not-false _ address, (eq_iff o.gateway_endpoint_ip o.endpoint_host).0 (not-false _ host))

direct_ports :
    (o : Offer)
    → o.mode ≡ mode_wireguard
    → (o.mode == mode_wireguard && not (eqb_ℤ o.wireguard_port o.endpoint_port)) ≡ false
    → o.wireguard_port ≡ o.endpoint_port
direct_ports o m h =
    eqb_ℤ-eq _ _ (second (o.mode == mode_wireguard) _ h ((eq_iff o.mode mode_wireguard).1 m))
  where
    second : (a b : Bool) → (a && not b) ≡ false → a ≡ true → b ≡ true
    second a b h e = ground arith

-- An offer that `ValidateOffer` accepts is sound.
pub validate_offer-OfferIsSound :
    (pki : Pki) (o : Offer) → validate_offer pki o ≡ ok tt → OfferIsSound pki o
unfolding validate_offer check_identity
validate_offer-OfferIsSound pki o h =
    let (head, h₁) = >>-eq-ok (check_identity o) _ h in
    let (routed, h₂) = >>-eq-ok (when (is_routed_mode o.mode) (check_routed o)) _ h₁ in
    let (wireguard, h₃) =
      >>-eq-ok (when (o.mode == mode_ara || o.mode == mode_wireguard) (check_wireguard o)) _ h₂ in
    let (ara, h₄) = >>-eq-ok (when (o.mode == mode_ara) (check_ara pki o)) _ h₃ in
    let (direct, h₅) = reject_if->>-eq-ok _ _ _ h₄ in
    let (ssh, ipip) = >>-eq-ok (when (o.mode == mode_ssh_socks) (check_ssh_socks o)) _ h₅ in
    let (version, head') = reject_if->>-eq-ok _ _ _ head in
    let (names, endpoint) = reject_if->>-eq-ok _ _ _ head' in
    let (identity, known) = or_false _ _ names in
    let (host, port) = or_false _ _ (reject_if-eq-ok _ _ endpoint) in
    record {
      version = eqb_ℤ-eq _ _ (not-false _ version);
      identity = not-false _ identity;
      known_mode = not-false _ known;
      host = not-false _ host;
      port = outside-eq-false 1 65535 o.endpoint_port port;
      routed = λ m. check_routed-RoutedIsSound o (when-eq-ok _ _ routed m);
      wireguard = λ m. wireguard_sound o (when-eq-ok _ _ wireguard m);
      direct = λ m. direct_ports o m direct;
      ara = λ m. ara_sound pki o (when-eq-ok _ _ ara ((eq_iff o.mode mode_ara).1 m));
      ssh_socks = λ m. ssh_sound o (when-eq-ok _ _ ssh ((eq_iff o.mode mode_ssh_socks).1 m));
      ipip = λ m. ipip_sound o (when-eq-ok _ _ ipip ((eq_iff o.mode mode_ipip).1 m));
    }
