-- ===== src/Samples/Direct.antt =====
-- A direct WireGuard link at concrete values.
use hamara_tunnel.Net.{parse_cidr, contains_ip}
use hamara_tunnel.Prelude.{◌≡◌, refl, String, ◌<>◌, ok, some}
use hamara_tunnel.Prelude.Int.{pos}
use hamara_tunnel.Text.{trim_space, itoa, index_of}
use hamara_tunnel.Model.{
  Config, Offer, mode_wireguard, validate_offer, check_identity, matches_instance_id,
  valid_endpoint_host, check_routed, tunnel_network, check_members, strip_prefix, check_wireguard,
  valid_wg_key,
}
use hamara_tunnel.Render.{unlines, wireguard, wireguard_lines, format_host, host_address}
use hamara_tunnel.Render.Reader.{read_settings}
use hamara_tunnel.App.{offer_of, join_config}
use hamara_tunnel.App.Direct.{setting_of, read_settings-join_config}
use hamara_tunnel.Samples.{gateway, pki}

abbrev direct_gateway : Config
direct_gateway = record gateway {
  mode = mode_wireguard;
  endpoint_port = pos 51820;
  wireguard_port = pos 51820;
}

-- Thirty-two bytes in Base64.
abbrev key : String
key = "AAAAAAAAAAAAAAAAAAAAAAAAAAAAAAAAAAAAAAAAAAA="

abbrev direct_offer : Offer
direct_offer = record (offer_of direct_gateway) { gateway_public_key = key; preshared_key = key }

abbrev direct_edge : Config
direct_edge = join_config direct_offer "eth0" "198.51.100.7" "2026-01-02T03:04:05Z"

direct_offer-valid : validate_offer pki direct_offer ≡ ok tt
unfolding validate_offer check_identity offer_of matches_instance_id valid_endpoint_host
    check_routed tunnel_network parse_cidr check_members strip_prefix contains_ip check_wireguard
    valid_wg_key index_of
direct_offer-valid = refl

direct_example :
    (setting_of "[Interface]" "ListenPort"
        (read_settings (unlines (wireguard_lines direct_gateway key key key)))
      ≡ some (trim_space (itoa (pos 51820))))
    × (setting_of "[Peer]" "AllowedIPs"
          (read_settings (unlines (wireguard_lines direct_gateway key key key)))
        ≡ some (trim_space (host_address "10.75.0.2/30" <> "/32")))
    × (setting_of "[Interface]" "Address"
          (read_settings (unlines (wireguard_lines direct_edge key key key)))
        ≡ some (trim_space "10.75.0.2/30"))
    × (setting_of "[Peer]" "Endpoint"
          (read_settings (unlines (wireguard_lines direct_edge key key key)))
        ≡ some (trim_space (format_host "203.0.113.10" <> (":" <> itoa (pos 51820)))))
direct_example =
    read_settings-join_config pki direct_gateway direct_offer "eth0" "198.51.100.7"
      "2026-01-02T03:04:05Z" key key key key key
      (unlines (wireguard_lines direct_gateway key key key))
      (unlines (wireguard_lines direct_edge key key key)) refl refl refl direct_offer-valid
      (record {
        gateway = refl;
        edge = refl;
        host = refl;
        private_line = unfold trim_space in refl;
        preshared_line = unfold trim_space in refl;
        peer_line = unfold trim_space in refl;
      })
      (record {
        gateway = unfold join_config offer_of in refl;
        edge = unfold join_config offer_of in refl;
        host = unfold join_config offer_of in refl;
        private_line = unfold trim_space in refl;
        preshared_line = unfold trim_space in refl;
        peer_line = unfold trim_space in refl;
      })
      (unfold trim_space in refl) (unfold trim_space in refl) (unfold wireguard in refl)
      (unfold wireguard join_config in refl)
