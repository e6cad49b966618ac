-- ===== src/App/Quiet.antt =====
-- What a join does before it starts services leaves the services alone.
use hamara_tunnel.Prelude.{String, Bool, Result, ok, err}
use hamara_tunnel.Prelude.Int.{ℤ}
use hamara_tunnel.Model.{Config, Offer, Response}
use hamara_tunnel.System.{Trace}
use hamara_tunnel.System.Keeps.{Keeps}
use hamara_tunnel.System.Quiet.{IsQuiet}
use hamara_tunnel.Platform.Quiet.{quiet_rules}
use hamara_tunnel.App.{
  Services, read_trim, read_raw, token_input, capture_previous_sysctls, refuse_interface,
  refuse_port, check_iran_conflicts, install_for_mode, generate_wg_keys, generate_psk,
  write_wireguard, download_wstunnel, install_wstunnel, setup_ssh_client, try_remove,
  write_strict_guard, capture_if_routed, apply_sysctl, install_ara_client, join_wireguard,
  join_ipip, join_ssh, join_mode, write_outbound, publish_response,
}

module _ {P : Trace → Type 0} (q : IsQuiet P) where
  pub Keeps-read_trim : (path : String) → Keeps P (read_trim path)
  unfolding read_trim
  Keeps-read_trim path = search (quiet_rules)

  pub Keeps-token_input : (value path : String) → Keeps P (token_input value path)
  unfolding token_input
  Keeps-token_input value path = search (quiet_rules, Keeps-read_trim)

  Keeps-read_raw : (path : String) → Keeps P (read_raw path)
  unfolding read_raw
  Keeps-read_raw path = search (quiet_rules, Keeps-read_trim)

  pub Keeps-capture_if_routed : (cfg : Config) → Keeps P (capture_if_routed cfg)
  unfolding capture_if_routed capture_previous_sysctls
  Keeps-capture_if_routed cfg = search (quiet_rules, Keeps-read_raw)

  Keeps-refuse_interface : Keeps P refuse_interface
  unfolding refuse_interface
  Keeps-refuse_interface = search (quiet_rules)

  Keeps-refuse_port :
      (proto : String) (port : ℤ) (text : String) → Keeps P (refuse_port proto port text)
  unfolding refuse_port
  Keeps-refuse_port proto port text = search (quiet_rules)

  pub Keeps-check_iran_conflicts : (o : Offer) → Keeps P (check_iran_conflicts o)
  unfolding check_iran_conflicts
  Keeps-check_iran_conflicts o = search (quiet_rules, Keeps-refuse_interface, Keeps-refuse_port)

  pub Keeps-install_for_mode : (mode tls_mode : String) → Keeps P (install_for_mode mode tls_mode)
  unfolding install_for_mode
  Keeps-install_for_mode mode tls_mode = search (quiet_rules)

  Keeps-generate_psk : Keeps P generate_psk
  unfolding generate_psk
  Keeps-generate_psk = search (quiet_rules)

  pub Keeps-generate_wg_keys : (with_psk : Bool) → Keeps P (generate_wg_keys with_psk)
  unfolding generate_wg_keys
  Keeps-generate_wg_keys with_psk = search (quiet_rules, Keeps-generate_psk) depth 12

  pub Keeps-write_wireguard : (cfg : Config) (key : String) → Keeps P (write_wireguard cfg key)
  unfolding write_wireguard
  Keeps-write_wireguard cfg key = search (quiet_rules, Keeps-read_trim) depth 12

  Keeps-download_wstunnel : Keeps P download_wstunnel
  unfolding download_wstunnel
  Keeps-download_wstunnel = search (quiet_rules)

  pub Keeps-install_wstunnel : Keeps P install_wstunnel
  unfolding install_wstunnel
  Keeps-install_wstunnel = search (quiet_rules, Keeps-download_wstunnel)

  Keeps-try_remove : (path : String) → Keeps P (try_remove path)
  unfolding try_remove
  Keeps-try_remove path = search (quiet_rules)

  pub Keeps-setup_ssh_client : (cfg : Config) → Keeps P (setup_ssh_client cfg)
  unfolding setup_ssh_client
  Keeps-setup_ssh_client cfg = search (quiet_rules, Keeps-try_remove) depth 12

  pub Keeps-write_strict_guard : (cfg : Config) → Keeps P (write_strict_guard cfg)
  unfolding write_strict_guard
  Keeps-write_strict_guard cfg = search (quiet_rules) depth 12

  pub Keeps-apply_sysctl : (cfg : Config) → Keeps P (apply_sysctl cfg)
  unfolding apply_sysctl
  Keeps-apply_sysctl cfg = search (quiet_rules)

  Keeps-install_ara_client : (o : Offer) (cfg : Config) → Keeps P (install_ara_client o cfg)
  unfolding install_ara_client
  Keeps-install_ara_client o cfg = search (quiet_rules, Keeps-install_wstunnel) depth 14

  Keeps-join_wireguard : (o : Offer) (cfg : Config) → Keeps P (join_wireguard o cfg)
  unfolding join_wireguard
  Keeps-join_wireguard o cfg =
      search
        (
          quiet_rules, Keeps-generate_wg_keys, Keeps-read_trim, Keeps-install_ara_client,
          Keeps-write_wireguard,
        )
        depth 14

  Keeps-join_ipip : (o : Offer) (cfg : Config) (ip : String) → Keeps P (join_ipip o cfg ip)
  unfolding join_ipip
  Keeps-join_ipip o cfg ip = search (quiet_rules) depth 8

  Keeps-join_ssh : (o : Offer) (cfg : Config) → Keeps P (join_ssh o cfg)
  unfolding join_ssh
  Keeps-join_ssh o cfg = search (quiet_rules, Keeps-setup_ssh_client, Keeps-read_trim) depth 8

  pub Keeps-join_mode : (o : Offer) (cfg : Config) (ip : String) → Keeps P (join_mode o cfg ip)
  unfolding join_mode
  Keeps-join_mode o cfg ip =
      search (quiet_rules, Keeps-join_wireguard, Keeps-join_ipip, Keeps-join_ssh) depth 8

  Keeps-write_outbound : (r : Result String) → Keeps P (write_outbound r)
  unfolding write_outbound
  Keeps-write_outbound (ok text) = search (quiet_rules)
  Keeps-write_outbound (err e) = search (quiet_rules)

  pub Keeps-publish_response :
      (services : Services) (r : Response) (cfg : Config)
      → Keeps P (publish_response services r cfg)
  unfolding publish_response
  Keeps-publish_response services r cfg = search (quiet_rules, Keeps-write_outbound) depth 10
