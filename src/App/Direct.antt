-- ===== src/App/Direct.antt =====
-- The two WireGuard files of a direct link: `Join` of internal/app/app.go and `WireGuard` of
-- internal/render/render.go.
use mathlib.Core.List.{[], ◌∷◌}
use hamara_tunnel.Prelude.{
  ◌≡◌, refl, String, ◌<>◌, false, ◌&&◌, List, Option, none, some, ◌==◌, if◌then◌else◌, ok,
  Bool-cases, inl, inr,
}
use hamara_tunnel.Text.{trim_space, itoa}
use hamara_tunnel.Model.{
  Config, Offer, role_outside, role_iran, mode_wireguard, validate_offer, Pki,
}
use hamara_tunnel.Model.Accepted.{validate_offer-OfferIsSound}
use hamara_tunnel.Render.{wireguard, format_host, host_address}
use hamara_tunnel.Render.Reader.{Setting, read_settings}
use hamara_tunnel.Render.Interface.{IsPlain}
use hamara_tunnel.Render.Settings.{read_settings-wireguard}
use hamara_tunnel.Render.Tables.{link_settings}
use hamara_tunnel.App.{offer_of, join_config}

-- The first value of a key in a section.
abbrev pub setting_of : String → String → List Setting → Option String
setting_of section key [] = none
setting_of section key (s ∷ ss) =
    let rest = setting_of section key ss in
    if s.section == section && s.key == key then some s.value else rest

gateway_listens :
    (g : Config) (private_key preshared_key peer_key : String)
    → g.role ≡ role_outside
    → setting_of "[Interface]" "ListenPort" (link_settings g private_key preshared_key peer_key)
      ≡ some (trim_space (itoa g.wireguard_port))
gateway_listens g private_key preshared_key peer_key role = rw role refl

gateway_allows :
    (g : Config) (private_key preshared_key peer_key : String)
    → g.role ≡ role_outside
    → (trim_space peer_key == "") ≡ false
    → setting_of "[Peer]" "AllowedIPs" (link_settings g private_key preshared_key peer_key)
      ≡ some (trim_space (host_address g.edge_address <> "/32"))
gateway_allows g private_key preshared_key peer_key role known =
    elim (Bool-cases (trim_space preshared_key == "")) [
      | inl e ↦ rw (role, known, e) refl
      | inr e ↦ rw (role, known, e) refl
    ]

edge_sends :
    (c : Config) (private_key preshared_key peer_key : String)
    → c.role ≡ role_iran
    → c.mode ≡ mode_wireguard
    → (trim_space peer_key == "") ≡ false
    → setting_of "[Peer]" "Endpoint" (link_settings c private_key preshared_key peer_key)
      ≡ some (trim_space (format_host c.endpoint_host <> (":" <> itoa c.endpoint_port)))
edge_sends c private_key preshared_key peer_key role mode known =
    elim (Bool-cases (trim_space preshared_key == "")) [
      | inl e ↦ rw (role, mode, known, e) refl
      | inr e ↦ rw (role, mode, known, e) refl
    ]

-- The two ends of a direct link meet: for a gateway in direct WireGuard mode, an offer that it makes
-- with a key and a preshared key and that passes the checks, and the edge that joins with it, take the
-- WireGuard files of both, in which no value holds a line feed and the peer's key is known. Read back,
-- the gateway listens on its WireGuard port and takes packets of the edge's address alone, and the edge
-- has the edge's address and sends to the gateway's host, on the port on which the gateway listens.
pub read_settings-join_config :
    (pki : Pki) (g : Config) (o : Offer)
    (wan local_ip time key preshared_key gateway_key edge_key peer_key : String)
    (gateway_text edge_text : String)
    → g.role ≡ role_outside
    → g.mode ≡ mode_wireguard
    → o ≡ record (offer_of g) { gateway_public_key = key; preshared_key = preshared_key }
    → validate_offer pki o ≡ ok tt
    → IsPlain g gateway_key preshared_key peer_key
    → IsPlain (join_config o wan local_ip time) edge_key preshared_key key
    → (trim_space peer_key == "") ≡ false
    → (trim_space key == "") ≡ false
    → wireguard g gateway_key preshared_key peer_key ≡ ok gateway_text
    → wireguard (join_config o wan local_ip time) edge_key preshared_key key ≡ ok edge_text
    → (setting_of "[Interface]" "ListenPort" (read_settings gateway_text)
        ≡ some (trim_space (itoa g.wireguard_port)))
      × (setting_of "[Peer]" "AllowedIPs" (read_settings gateway_text)
          ≡ some (trim_space (host_address g.edge_address <> "/32")))
      × (setting_of "[Interface]" "Address" (read_settings edge_text)
          ≡ some (trim_space g.edge_address))
      × (setting_of "[Peer]" "Endpoint" (read_settings edge_text)
          ≡ some (trim_space (format_host g.endpoint_host <> (":" <> itoa g.wireguard_port))))
unfolding offer_of join_config
read_settings-join_config pki g o wan local_ip time key preshared_key gateway_key edge_key peer_key
      gateway_text edge_text role mode made valid plain plain' known known' written written' =
    let c = join_config o wan local_ip time in
    let o_mode : o.mode ≡ mode_wireguard = rw made mode in
    let ports = (validate_offer-OfferIsSound pki o valid).direct o_mode in
    let at_gateway =
      read_settings-wireguard g gateway_key preshared_key peer_key gateway_text written plain in
    let at_edge = read_settings-wireguard c edge_key preshared_key key edge_text written' plain' in
    (
      rw at_gateway (gateway_listens g gateway_key preshared_key peer_key role),
      rw at_gateway (gateway_allows g gateway_key preshared_key peer_key role known),
      rw at_edge (rw made refl),
      rw (at_edge, edge_sends c edge_key preshared_key key refl o_mode known', ← ports)
          (rw made refl),
    )
