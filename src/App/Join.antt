-- ===== src/App/Join.antt =====
-- `Join`: the edge's side of a link, set up from an offer.
use hamara_tunnel.Prelude.{
  String, ◌<>◌, false, ◌||◌, ◌==◌, if◌then◌else◌, Result, ok, err, message, checked,
}
use hamara_tunnel.Text.{trim_space}
use hamara_tunnel.Model.{
  Config, Offer, Response, zero_config, zero_response, schema_version, role_iran, mode_ara,
  mode_wireguard, mode_ipip, mode_ssh_socks, state_pending, is_routed_mode, mode_label,
  validate_offer,
}
use hamara_tunnel.Token.{encode, decode}
use hamara_tunnel.Render.{ara_client_unit, ipip_script, ipip_unit, xray_outbound}
use hamara_tunnel.System.{
  mkdir_all, now, Action, pure, lift, ignore, perform, call, say, skip, refuse_if, do_if, ◌>>=◌,
  ◌>>◌,
}
use hamara_tunnel.Platform.{
  put_file, save_config, config_exists, ensure_dirs, detect_wan, require_root_ubuntu, lib_dir,
}
use hamara_tunnel.App.Names.{
  Services, wg_public_path, wg_psk_path, mtls_dir, mtls_client_cert, mtls_client_key,
}
use hamara_tunnel.App.Inputs.{read_trim, token_input}
use hamara_tunnel.App.Install.{
  check_iran_conflicts, install_for_mode, generate_wg_keys, write_wireguard, install_wstunnel,
}
use hamara_tunnel.App.Ssh.{setup_ssh_client, ssh_key_path}
use hamara_tunnel.App.Guard.{write_strict_guard, activate_iran}
use hamara_tunnel.App.Init.{capture_if_routed, apply_sysctl}

-- The edge's configuration, with the WAN interface and source, and the time.
unfoldable pub join_config : Offer → String → String → String → Config
join_config o wan local_ip time = record zero_config {
  version = schema_version;
  instance_id = o.instance_id;
  role = role_iran;
  mode = o.mode;
  state = state_pending;
  interface = "hamara0";
  wan_interface = wan;
  tunnel_cidr = o.tunnel_cidr;
  gateway_address = o.gateway_address;
  edge_address = o.edge_address;
  endpoint_host = o.endpoint_host;
  endpoint_port = o.endpoint_port;
  wireguard_port = o.wireguard_port;
  local_relay_port = o.local_relay_port;
  mtu = o.mtu;
  route_table = o.route_table;
  peer_public_key = o.gateway_public_key;
  ara_path = o.ara_path;
  tls_mode = o.tls_mode;
  tls_verify = o.tls_verify;
  ssh_user = o.ssh_user;
  ssh_port = o.ssh_port;
  ssh_host_key = o.ssh_host_key;
  socks_port = o.socks_port;
  created_at = time;
  peer_endpoint = local_ip;
}

unfoldable pub response_of : Offer → Response
response_of o = record zero_response {
  version = schema_version;
  instance_id = o.instance_id;
  mode = o.mode;
}

-- The client's identity and the transport of an ARA edge.
unfoldable pub install_ara_client : Offer → Config → Action Config
install_ara_client o cfg =
    let cfg' : Config = record cfg {
      mtls_client_cert_path = mtls_client_cert;
      mtls_client_key_path = mtls_client_key;
    } in
    do
      call (mkdir_all mtls_dir 0o700)
      put_file mtls_client_cert (trim_space o.mtls_client_cert <> "\n") 0o600
      put_file mtls_client_key (trim_space o.mtls_client_key <> "\n") 0o600
      install_wstunnel
      put_file "/etc/systemd/system/hamara-ara-client.service" (ara_client_unit cfg') 0o644
      pure cfg'

unfoldable pub join_wireguard : Offer → Config → Action (Config × Response)
join_wireguard o cfg = do
  generate_wg_keys false
  put_file wg_psk_path (trim_space o.preshared_key <> "\n") 0o600
  public ← read_trim wg_public_path
  cfg' ← (if o.mode == mode_ara then install_ara_client o cfg else pure cfg)
  write_wireguard cfg' o.gateway_public_key
  let response : Response = response_of o in
      pure (cfg', record response { edge_public_key = public })

unfoldable pub join_ipip : Offer → Config → String → Action (Config × Response)
join_ipip o cfg local_ip =
    let response : Response = response_of o in
    do
      put_file (lib_dir <> "/ipip") (ipip_script cfg) 0o755
      put_file "/etc/systemd/system/hamara-ipip.service" (ipip_unit cfg.role) 0o644
      pure (cfg, record response { edge_endpoint_ip = local_ip })

unfoldable pub join_ssh : Offer → Config → Action (Config × Response)
join_ssh o cfg =
    let response : Response = response_of o in
    do
      setup_ssh_client cfg
      public ← read_trim (ssh_key_path <> ".pub")
      pure (cfg, record response { ssh_public_key = public })

-- The `switch` of `Join`.
unfoldable pub join_mode : Offer → Config → String → Action (Config × Response)
join_mode o cfg local_ip =
    if o.mode == mode_ara || o.mode == mode_wireguard
    then join_wireguard o cfg
    else if o.mode == mode_ipip
    then join_ipip o cfg local_ip
    else if o.mode == mode_ssh_socks
    then join_ssh o cfg
    else pure (cfg, response_of o)

-- The outbound is written where it can be rendered.
unfoldable pub write_outbound : Result String → Action (Unit {0})
write_outbound (ok text) = ignore (put_file "/etc/hamara/xray-outbound.json" (text <> "\n") 0o640)
write_outbound (err e) = skip

module _ (services : Services) where
  open services use {configs, offers, responses, pki}

  -- The token's offer, if it passes the checks.
  unfoldable pub read_offer : String → Result Offer
  read_offer value = checked (validate_offer pki) (decode offers value "offer")

  unfoldable pub publish_response : Response → Config → Action String
  publish_response response cfg = do
    response_token ← lift (encode responses "response" response)
    put_file "/etc/hamara/response.token" (response_token <> "\n") 0o600
    ignore (put_file "/root/hamara-response.txt" (response_token <> "\n") 0o600)
    write_outbound (xray_outbound cfg)
    pure response_token

  -- From the files of the mode to the running link.
  unfoldable pub bring_up : Config → Action (Unit {0})
  bring_up cfg = do
    do_if (is_routed_mode cfg.mode) (write_strict_guard cfg)
    save_config configs cfg
    apply_sysctl cfg
    activate_iran cfg

  unfoldable pub set_up_edge : Offer → Action (Unit {0})
  set_up_edge o = do
    ensure_dirs
    say ("Joining " <> (mode_label o.mode <> (" instance " <> (o.instance_id <> "...\n"))))
    install_for_mode o.mode ""
    (wan, local_ip) ← detect_wan
    check_iran_conflicts o
    time ← perform now
    cfg ← capture_if_routed (join_config o wan local_ip time.text)
    (cfg', response) ← join_mode o cfg local_ip
    bring_up cfg'
    response_token ← publish_response response cfg'
    say "\n=== COPY THIS RESPONSE TOKEN TO THE OUTSIDE SERVER ===\n"
    say (response_token <> "\n")
    say "=== END RESPONSE TOKEN ===\n"
    say
        "\nNext: on the outside gateway run `hamara`, choose Accept a pairing response, and paste the token.\n"

  unfoldable pub join_link : String → String → Action (Unit {0})
  join_link raw_token file = do
    require_root_ubuntu
    exists ← config_exists
    refuse_if exists (message "Hamara is already configured on this server")
    value ← token_input raw_token file
    offer ← lift (read_offer value)
    set_up_edge offer
