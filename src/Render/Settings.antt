-- ===== src/Render/Settings.antt =====
-- What the WireGuard configuration sets, read back setting by setting.
use mathlib.Core.List.{[], ◌∷◌}
use hamara_tunnel.Prelude.{
  ◌≡◌, refl, String, ◌<>◌, Bool, true, false, List, ◌++◌, ◌==◌, ok, Bool-cases, inl, inr, eq_iff,
  not, ◌&&◌, arith,
}
use hamara_tunnel.Text.{trim_space, itoa, cut}
use hamara_tunnel.Model.{Config, role_iran, role_outside, mode_ara}
use hamara_tunnel.Render.Quote.{host_address}
use hamara_tunnel.Render.WireGuard.{
  own_address, listen_lines, table_lines, interface_lines, preshared_lines, endpoint_line,
  allowed_lines, peer_lines, wireguard_lines, wireguard,
}
use hamara_tunnel.Render.Reader.{
  Setting, begins_setting, read_line, read_settings, Reads, Reads-begins, Reads-entry, Reads-line,
  Reads-nothing, Reads-header, Reads-end, read_settings-eq,
}
use hamara_tunnel.Render.Tables.{
  own, peer, gateway_endpoint, peer_settings, edge_settings, gateway_settings, link_settings,
}
use hamara_tunnel.Render.Interface.{IsPlain, split-wireguard}

module _ {ls : List String} {es : List Setting} where
  Reads-address :
      (v : String)
      → Reads "[Interface]" ls es
      → Reads "[Interface]" (("Address = " <> v) ∷ ls) (own "Address" v ∷ es)
  Reads-address v =
      Reads-entry "Address = " "Address" v (unfold begins_setting cut trim_space in refl)

  Reads-key :
      (v : String)
      → Reads "[Interface]" ls es
      → Reads "[Interface]" (("PrivateKey = " <> v) ∷ ls) (own "PrivateKey" v ∷ es)
  Reads-key v =
      Reads-entry "PrivateKey = " "PrivateKey" v (unfold begins_setting cut trim_space in refl)

  Reads-endpoint :
      (cfg : Config)
      → Reads "[Peer]" ls es
      → Reads "[Peer]" (endpoint_line cfg ∷ ls) (peer "Endpoint" (gateway_endpoint cfg) ∷ es)
  unfolding endpoint_line
  Reads-endpoint cfg r = elim (Bool-cases (cfg.mode == mode_ara)) [
    | inl e ↦ rw e (
        Reads-begins "Endpoint = 127.0.0.1:" "Endpoint" "127.0.0.1:" (itoa cfg.local_relay_port)
          (unfold begins_setting cut trim_space in refl) r)
    | inr e ↦
        rw e
          (Reads-entry "Endpoint = " "Endpoint" _ (unfold begins_setting cut trim_space in refl) r)
  ]

-- The section of the peer, whatever the role's own lines set.
Reads-peer_lines :
    (cfg : Config) (preshared_key peer_key : String) (rest : List Setting)
    → Reads "[Peer]" (allowed_lines cfg ++ ("" ∷ [])) rest
    → Reads "[Interface]"
        (peer_lines cfg preshared_key peer_key ++ ("" ∷ []))
        (peer_settings peer_key preshared_key rest)
unfolding peer_lines preshared_lines
Reads-peer_lines cfg preshared_key peer_key rest r = elim (Bool-cases (trim_space peer_key == "")) [
  | inl e ↦ rw e (Reads-end "[Interface]")
  | inr e ↦ rw e (
      Reads-nothing "" (unfold read_line cut in refl) (
        Reads-header "[Peer]" "[Peer]" (unfold read_line cut trim_space in refl) (
          Reads-entry "PublicKey = " "PublicKey" _ (unfold begins_setting cut trim_space in refl)
            (elim (Bool-cases (trim_space preshared_key == "")) [
              | inl f ↦ rw f r
              | inr f ↦ rw f (
                  Reads-entry "PresharedKey = " "PresharedKey" _
                    (unfold begins_setting cut trim_space in refl) r)
            ]))))
]

iran_role : (role : String) → role ≡ role_iran → (role == role_outside) ≡ false
iran_role role e = rw e refl

outside_role : (role : String) → role ≡ role_outside → (role == role_iran) ≡ false
outside_role role e = rw e refl

Reads-edge_allowed :
    (cfg : Config)
    → cfg.role ≡ role_iran
    → Reads "[Peer]" (allowed_lines cfg ++ ("" ∷ [])) (
        peer "AllowedIPs" "0.0.0.0/0"
        ∷ peer "Endpoint" (gateway_endpoint cfg)
        ∷ peer "PersistentKeepalive" "25"
        ∷ [])
unfolding allowed_lines
Reads-edge_allowed cfg role = rw (iran_role cfg.role role) (
    Reads-line "AllowedIPs = 0.0.0.0/0" "AllowedIPs" "0.0.0.0/0"
      (unfold read_line cut trim_space in refl)
      (Reads-endpoint cfg (
        Reads-line "PersistentKeepalive = 25" "PersistentKeepalive" "25"
          (unfold read_line cut trim_space in refl) (Reads-end "[Peer]"))))

Reads-gateway_allowed :
    (cfg : Config)
    → cfg.role ≡ role_outside
    → Reads "[Peer]"
        (allowed_lines cfg ++ ("" ∷ []))
        (peer "AllowedIPs" (host_address cfg.edge_address <> "/32") ∷ [])
unfolding allowed_lines
Reads-gateway_allowed cfg role = rw ((eq_iff cfg.role role_outside).1 role) (
    Reads-entry "AllowedIPs = " "AllowedIPs" _ (unfold begins_setting cut trim_space in refl)
      (Reads-end "[Peer]"))

module _ (cfg : Config) (private_key preshared_key peer_key : String) where
  abbrev Holds : List Setting → Type 0
  Holds = Reads "" (wireguard_lines cfg private_key preshared_key peer_key ++ ("" ∷ []))

  Reads-own :
      {ls : List String} {es : List Setting} (address : String)
      → Reads "[Interface]" ls es
      → Reads ""
          ("# Managed by Hamara Tunnel. Manual changes may be overwritten."
            ∷ "[Interface]"
            ∷ ("Address = " <> address)
            ∷ ("PrivateKey = " <> trim_space private_key)
            ∷ ("MTU = " <> itoa cfg.mtu)
            ∷ "SaveConfig = false"
            ∷ ls)
          (own "Address" address
            ∷ own "PrivateKey" (trim_space private_key)
            ∷ own "MTU" (itoa cfg.mtu)
            ∷ own "SaveConfig" "false"
            ∷ es)
  Reads-own address r = Reads-nothing _ (unfold read_line cut in refl) (
      Reads-header "[Interface]" "[Interface]" (unfold read_line cut trim_space in refl) (
        Reads-address address (
          Reads-key _ (
            Reads-entry "MTU = " "MTU" _ (unfold begins_setting cut trim_space in refl) (
              Reads-line "SaveConfig = false" "SaveConfig" "false"
                (unfold read_line cut trim_space in refl) r)))))

  Holds-edge : cfg.role ≡ role_iran → Holds (edge_settings cfg private_key preshared_key peer_key)
  unfolding wireguard_lines interface_lines listen_lines table_lines own_address
  Holds-edge role =
      let rest = Reads-peer_lines cfg preshared_key peer_key _ (Reads-edge_allowed cfg role) in
      rw ((eq_iff cfg.role role_iran).1 role, iran_role cfg.role role)
        (Reads-own cfg.edge_address (
          Reads-line "Table = off" "Table" "off" (unfold read_line cut trim_space in refl) (
            Reads-begins "PostUp = ip route replace default dev %i metric 10 table " "PostUp"
              "ip route replace default dev %i metric 10 table " (itoa cfg.route_table)
              (unfold begins_setting cut trim_space in refl)
              (Reads-begins "PostDown = ip route del default dev %i table " "PostDown"
                "ip route del default dev %i table "
                (itoa cfg.route_table <> " 2>/dev/null || true")
                (unfold begins_setting cut trim_space in refl) rest))))

  Holds-gateway :
      cfg.role ≡ role_outside → Holds (gateway_settings cfg private_key preshared_key peer_key)
  unfolding wireguard_lines interface_lines listen_lines table_lines own_address
  Holds-gateway role =
      let rest = Reads-peer_lines cfg preshared_key peer_key _ (Reads-gateway_allowed cfg role) in
      rw ((eq_iff cfg.role role_outside).1 role, outside_role cfg.role role)
        (Reads-own cfg.gateway_address (
          Reads-entry "ListenPort = " "ListenPort" _ (unfold begins_setting cut trim_space in refl)
            rest))

valid_role : (a b : Bool) → (not a && not b) ≡ false → a ≡ false → b ≡ true
valid_role a b h e = ground arith

-- The WireGuard configuration says what its role needs: for every configuration and keys that it is
-- made for, if no value that is put into it holds a line feed, reading the file section by section
-- gives exactly the settings of the edge or of the gateway, in order: its address, its keys, its
-- listener or its routes, the addresses that the peer may use, and the edge's endpoint. Where the
-- peer's key is not known there is no section for the peer. Values are compared without the white
-- space around them.
pub read_settings-wireguard :
    (cfg : Config) (private_key preshared_key peer_key text : String)
    → wireguard cfg private_key preshared_key peer_key ≡ ok text
    → IsPlain cfg private_key preshared_key peer_key
    → read_settings text ≡ link_settings cfg private_key preshared_key peer_key
unfolding wireguard
read_settings-wireguard cfg private_key preshared_key peer_key text h p =
    let lines = split-wireguard cfg private_key preshared_key peer_key text h p in
    elim (Bool-cases (cfg.role == role_iran)) [
      | inl e ↦ rw e (
          read_settings-eq text _ (
            rw lines (
              Holds-edge cfg private_key preshared_key peer_key ((eq_iff cfg.role role_iran).0 e))))
      | inr e ↦
          let outside : (cfg.role == role_outside) ≡ true = ground arith in
          rw e (
            read_settings-eq text _ (
              rw lines (
                Holds-gateway cfg private_key preshared_key peer_key
                  ((eq_iff cfg.role role_outside).0 outside))))
    ]
