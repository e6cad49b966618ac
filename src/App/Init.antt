-- ===== src/App/Init.antt =====
-- `InitOutside` and `makeOffer`: the gateway's side of a link, and the offer for its peer.
use Prim.Native.String.{[], ◌∷◌}
use mathlib.Core.List.{[], ◌∷◌}
use hamara_tunnel.Prelude.{
  String, ◌<>◌, Bool, true, false, ◌&&◌, ◌||◌, not, ◌==◌, ◌!=◌, if◌then◌else◌, Result, ok, err,
  message,
}
use hamara_tunnel.Prelude.Int.{ℤ, pos, eqb_ℤ, outside}
use hamara_tunnel.Text.{trim_space, itoa}
use hamara_tunnel.Net.{is_ipv4_text}
use hamara_tunnel.Model.{
  Config, Offer, zero_offer, schema_version, role_outside, mode_ara, mode_wireguard, mode_ipip,
  mode_ssh_socks, state_pending, is_mode, is_routed_mode, valid_endpoint_host, validate_offer,
}
use hamara_tunnel.Token.{encode}
use hamara_tunnel.Render.{sysctl}
use hamara_tunnel.System.{
  now, Action, pure, lift, attempt, ignore, perform, say, refuse_if, do_if, ◌>>=◌, ◌>>◌,
}
use hamara_tunnel.Platform.{
  runner_run, put_file, save_config, config_exists, ensure_dirs, detect_wan, is_port_listening,
  require_root_ubuntu, explained,
}
use hamara_tunnel.App.Names.{
  Services, InitOptions, defaults, default_port, ssh_user, wg_public_path, wg_psk_path,
  mtls_ca_key_path, mtls_client_cert, mtls_client_key,
}
use hamara_tunnel.App.Inputs.{read_trim, random_hex, capture_previous_sysctls}
use hamara_tunnel.App.Install.{
  check_outside_conflicts, install_for_mode, generate_wg_keys, write_wireguard, install_wstunnel,
}
use hamara_tunnel.App.Certificates.{prepare_tls, prepare_mtls, try_remove}
use hamara_tunnel.App.Ssh.{setup_ssh_gateway}
use hamara_tunnel.App.Guard.{activate_outside_pending}
use hamara_tunnel.App.Uninstall.{uninstall}

-- The part of the offer that is the configuration's.
unfoldable pub offer_of : Config → Offer
offer_of cfg = record zero_offer {
  version = schema_version;
  instance_id = cfg.instance_id;
  mode = cfg.mode;
  endpoint_host = cfg.endpoint_host;
  endpoint_port = cfg.endpoint_port;
  tunnel_cidr = cfg.tunnel_cidr;
  gateway_address = cfg.gateway_address;
  edge_address = cfg.edge_address;
  mtu = cfg.mtu;
  route_table = cfg.route_table;
  wireguard_port = cfg.wireguard_port;
  local_relay_port = cfg.local_relay_port;
  ara_path = cfg.ara_path;
  tls_mode = cfg.tls_mode;
  tls_verify = cfg.tls_verify;
  ssh_user = cfg.ssh_user;
  ssh_port = cfg.ssh_port;
  ssh_host_key = cfg.ssh_host_key;
  socks_port = cfg.socks_port;
}

unfoldable pub add_mtls : Offer → Action Offer
add_mtls o = do
  cert ← read_trim mtls_client_cert
  key ← read_trim mtls_client_key
  pure (record o { mtls_client_cert = cert; mtls_client_key = key })

unfoldable pub add_keys : Offer → Action Offer
add_keys o = do
  public ← read_trim wg_public_path
  psk ← read_trim wg_psk_path
  let o' : Offer = record o { gateway_public_key = public; preshared_key = psk } in
      if o.mode == mode_ara then add_mtls o' else pure o'

unfoldable pub make_offer : Config → Action Offer
make_offer cfg =
    let o = offer_of cfg in
    if cfg.mode == mode_ara || cfg.mode == mode_wireguard
    then add_keys o
    else if cfg.mode == mode_ipip
    then pure (record o { gateway_endpoint_ip = cfg.endpoint_host })
    else pure o

-- `if opts.EndpointPort == 0 { … }`
unfoldable pub port_of : InitOptions → ℤ
port_of opts =
    if eqb_ℤ opts.endpoint_port (pos 0) then default_port opts.mode else opts.endpoint_port

unfoldable pub tls_mode_of : InitOptions → String
tls_mode_of opts =
    if opts.mode == mode_ara && opts.tls_mode == "" then "self-signed" else opts.tls_mode

-- The options with the host without white space, and the defaults for a port and a TLS mode.
unfoldable pub filled : InitOptions → InitOptions
filled opts = record opts {
  endpoint_host = trim_space opts.endpoint_host;
  endpoint_port = port_of opts;
  tls_mode = tls_mode_of opts;
}

-- The tests on the endpoint, after its defaults are filled in.
unfoldable pub check_endpoint : InitOptions → Result (Unit {0})
check_endpoint opts =
    if not (valid_endpoint_host opts.endpoint_host)
    then err (message "--endpoint must be a valid IPv4 address or DNS hostname")
    else if outside 1 65535 opts.endpoint_port
    then err (message "endpoint port must be between 1 and 65535")
    else if opts.mode == mode_ipip && not (is_ipv4_text opts.endpoint_host)
    then err (message "IPIP requires the gateway's public IPv4 address, not a domain")
    else ok tt

-- The configuration of a new gateway.
unfoldable pub gateway_config : InitOptions → String → String → String → Config
gateway_config opts id wan time =
    let cfg : Config = defaults opts.mode in
    record cfg {
      version = schema_version;
      instance_id = id;
      role = role_outside;
      state = state_pending;
      endpoint_host = trim_space opts.endpoint_host;
      endpoint_port = opts.endpoint_port;
      wireguard_port =
          if opts.mode == mode_wireguard then opts.endpoint_port else cfg.wireguard_port;
      wan_interface = wan;
      created_at = time;
      peer_endpoint = "";
    }

unfoldable pub capture_if_routed : Config → Action Config
capture_if_routed cfg = if is_routed_mode cfg.mode then capture_previous_sysctls cfg else pure cfg

unfoldable pub prepare_ara : Config → InitOptions → Action Config
prepare_ara cfg opts = do
  path ← random_hex 24
  with_tls ←
      prepare_tls
        (record cfg {
          tls_mode = opts.tls_mode;
          tls_verify = opts.tls_mode == "acme" || opts.tls_mode == "existing";
          ara_path = path;
        })
        opts
  with_mtls ← prepare_mtls with_tls
  install_wstunnel
  pure with_mtls

unfoldable pub prepare_wireguard : Config → InitOptions → Action Config
prepare_wireguard cfg opts = do
  generate_wg_keys true
  cfg' ← (if opts.mode == mode_ara then prepare_ara cfg opts else pure cfg)
  write_wireguard cfg' ""
  pure cfg'

unfoldable pub prepare_ssh : Config → InitOptions → Action Config
prepare_ssh cfg opts = do
  cfg' ← setup_ssh_gateway (record cfg { ssh_port = opts.endpoint_port; ssh_user = ssh_user })
  listening ← is_port_listening "tcp" cfg'.ssh_port
  refuse_if (not listening) (
      message (
        "sshd is not listening on TCP port "
        <> (itoa cfg'.ssh_port <> "; choose the server's existing SSH port")))
  pure cfg'

-- The `switch` of `InitOutside`.
unfoldable pub prepare_gateway : Config → InitOptions → String → Action Config
prepare_gateway cfg opts local_ip =
    if opts.mode == mode_ara || opts.mode == mode_wireguard
    then prepare_wireguard cfg opts
    else if opts.mode == mode_ipip
    then (do
      refuse_if (cfg.endpoint_host != local_ip) (
          message (
            "IPIP endpoint "
            <> (cfg.endpoint_host
                <> (" is not assigned to the detected WAN interface (source "
                    <> (local_ip <> "); 1:1 NAT is not supported")))))
      pure cfg)
    else if opts.mode == mode_ssh_socks
    then prepare_ssh cfg opts
    else pure cfg

-- The kernel settings of a routed link.
unfoldable pub apply_sysctl : Config → Action (Unit {0})
apply_sysctl cfg = do_if (is_routed_mode cfg.mode) (do
  put_file "/etc/sysctl.d/90-hamara-tunnel.conf" sysctl 0o644
  runner_run "sysctl" ("--system" ∷ []))

-- The client's identity leaves the gateway with the offer.
unfoldable pub forget_identity : Config → Action (Unit {0})
forget_identity cfg =
    do_if (cfg.mode == mode_ara)
      (do try_remove mtls_ca_key_path; try_remove mtls_client_cert; try_remove mtls_client_key)

module _ (services : Services) where
  open services use {configs, offers, pki}

  unfoldable pub replace_existing : Bool → Action (Unit {0})
  replace_existing force = do
    refuse_if (not force)
        (message "Hamara is already configured; uninstall it first or use --force")
    r ← attempt (uninstall configs false)
    lift (explained "replace existing configuration" r)

  -- An offer that the peer would refuse is not written.
  unfoldable pub publish_offer : Config → Action String
  publish_offer cfg = do
    offer ← make_offer cfg
    lift (explained "generated pairing offer failed validation" (validate_offer pki offer))
    offer_token ← lift (encode offers "offer" offer)
    put_file "/etc/hamara/offer.token" (offer_token <> "\n") 0o600
    ignore (put_file "/root/hamara-offer.txt" (offer_token <> "\n") 0o600)
    forget_identity cfg
    pure offer_token

  -- The steps 1 to 6, with the options filled in.
  unfoldable pub set_up_gateway : InitOptions → Action (Unit {0})
  set_up_gateway opts = do
    ensure_dirs
    say "[1/6] Installing required Ubuntu packages...\n"
    install_for_mode opts.mode opts.tls_mode
    (wan, local_ip) ← detect_wan
    check_outside_conflicts opts.mode opts.endpoint_port
    id ← random_hex 8
    time ← perform now
    cfg ← capture_if_routed (gateway_config opts id wan time.text)
    say "[2/6] Generating link credentials...\n"
    cfg' ← prepare_gateway cfg opts local_ip
    say "[3/6] Writing persistent system configuration...\n"
    save_config configs cfg'
    apply_sysctl cfg'
    say "[4/6] Enabling systemd services...\n"
    activate_outside_pending cfg'
    say "[5/6] Building the pairing offer...\n"
    offer_token ← publish_offer cfg'
    say "[6/6] Outside gateway is waiting for its peer.\n"
    say "\n=== COPY THIS SECRET OFFER TOKEN TO THE IRAN SERVER ===\n"
    say (offer_token <> "\n")
    say "=== END OFFER TOKEN ===\n"
    say "\nNext: run `hamara`, choose Iran edge, and paste the token.\n"

  unfoldable pub init_outside : InitOptions → Action (Unit {0})
  init_outside opts = do
    require_root_ubuntu
    refuse_if (not (is_mode opts.mode)) (message ("unsupported mode \"" <> (opts.mode <> "\"")))
    exists ← config_exists
    do_if exists (replace_existing opts.force)
    lift (check_endpoint (filled opts))
    set_up_gateway (filled opts)
