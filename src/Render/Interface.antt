-- ===== src/Render/Interface.antt =====
-- The lines of the WireGuard configuration, as they are read back.
use Prim.Native.String.{[], ◌∷◌}
use mathlib.Core.List.{[], ◌∷◌}
use text.Mathlib.TextLemmas.{append_assoc}
use hamara_tunnel.Prelude.{
  ◌≡◌, refl, String, ◌<>◌, Bool, true, false, List, ◌++◌, All, All-append, if◌then◌else◌, some,
  ◌==◌, ◌!=◌, ok, arith, get_elem?,
}
use hamara_tunnel.Prelude.Int.{ℤ}
use hamara_tunnel.Text.{trim_space, itoa, split}
use hamara_tunnel.Model.{Config, role_iran, role_outside, mode_ara}
use hamara_tunnel.Render.Quote.{unlines, host_address, format_host}
use hamara_tunnel.Render.WireGuard.{
  own_address, listen_lines, table_lines, interface_lines, preshared_lines, endpoint_line,
  allowed_lines, peer_lines, wireguard_lines, wireguard,
}
use hamara_tunnel.Render.Lines.{
  NoBreak, NoBreak-append, split_line, split-unlines, itoa-NoBreak, host_address-NoBreak,
  format_host-NoBreak,
}

-- No value that the configuration is made from holds a line feed.
pub record IsPlain (cfg : Config) (private_key preshared_key peer_public_key : String)
    : Type 0 where
  pub gateway : NoBreak cfg.gateway_address
  pub edge : NoBreak cfg.edge_address
  pub host : NoBreak cfg.endpoint_host
  pub private_line : NoBreak (trim_space private_key)
  pub preshared_line : NoBreak (trim_space preshared_key)
  pub peer_line : NoBreak (trim_space peer_public_key)

All-if :
    (b : Bool) (xs ys : List String)
    → All NoBreak xs
    → All NoBreak ys
    → All NoBreak (if b then xs else ys)
All-if true xs ys hx hy = hx
All-if false xs ys hx hy = hy

NoBreak-if : (b : Bool) (s t : String) → NoBreak s → NoBreak t → NoBreak (if b then s else t)
NoBreak-if true s t hs ht = hs
NoBreak-if false s t hs ht = ht

-- A line that begins with a given text and goes on with a number.
numbered : (s : String) (z : ℤ) → NoBreak s → NoBreak (s <> itoa z)
numbered s z h = NoBreak-append s (itoa z) h (itoa-NoBreak z)

module _ (cfg : Config) (private_key preshared_key peer_public_key : String) where
  abbrev Plain : Type 0
  Plain = IsPlain cfg private_key preshared_key peer_public_key

  own_address-NoBreak : Plain → NoBreak (own_address cfg)
  unfolding own_address
  own_address-NoBreak p = NoBreak-if (cfg.role == role_iran) _ _ p.edge p.gateway

  listen-NoBreak : All NoBreak (listen_lines cfg)
  unfolding listen_lines
  listen-NoBreak =
      All-if (cfg.role == role_outside) _ [] (numbered "ListenPort = " cfg.wireguard_port refl, tt)
        tt

  table-NoBreak : All NoBreak (table_lines cfg)
  unfolding table_lines
  table-NoBreak =
      All-if (cfg.role == role_iran) _ []
        (
          refl,
          (
            numbered "PostUp = ip route replace default dev %i metric 10 table " cfg.route_table
                refl,
            (
              NoBreak-append "PostDown = ip route del default dev %i table "
                  (itoa cfg.route_table <> " 2>/dev/null || true") refl
                  (NoBreak-append (itoa cfg.route_table) " 2>/dev/null || true"
                    (itoa-NoBreak cfg.route_table) refl),
              tt,
            ),
          ),
        )
        tt

  interface-NoBreak : Plain → All NoBreak (interface_lines cfg private_key)
  unfolding interface_lines
  interface-NoBreak p = (
    refl,
    (
      refl,
      (
        NoBreak-append "Address = " (own_address cfg) refl (own_address-NoBreak p),
        (
          NoBreak-append "PrivateKey = " (trim_space private_key) refl p.private_line,
          (
            numbered "MTU = " cfg.mtu refl,
            (
              refl,
              All-append NoBreak (listen_lines cfg) (table_lines cfg) listen-NoBreak table-NoBreak,
            ),
          ),
        ),
      ),
    ),
  )

  endpoint-NoBreak : Plain → NoBreak (endpoint_line cfg)
  unfolding endpoint_line
  endpoint-NoBreak p =
      NoBreak-if (cfg.mode == mode_ara) _ _
        (numbered "Endpoint = 127.0.0.1:" cfg.local_relay_port refl)
        (NoBreak-append "Endpoint = "
          (format_host cfg.endpoint_host <> (":" <> itoa cfg.endpoint_port)) refl
          (NoBreak-append (format_host cfg.endpoint_host) (":" <> itoa cfg.endpoint_port)
            (format_host-NoBreak cfg.endpoint_host p.host) (numbered ":" cfg.endpoint_port refl)))

  allowed-NoBreak : Plain → All NoBreak (allowed_lines cfg)
  unfolding allowed_lines
  allowed-NoBreak p =
      All-if (cfg.role == role_outside) _ _
        (
          NoBreak-append "AllowedIPs = " (host_address cfg.edge_address <> "/32") refl (
              NoBreak-append (host_address cfg.edge_address) "/32"
                (host_address-NoBreak cfg.edge_address p.edge) refl),
          tt,
        )
        (refl, (endpoint-NoBreak p, (refl, tt)))

  preshared-NoBreak : Plain → All NoBreak (preshared_lines preshared_key)
  unfolding preshared_lines
  preshared-NoBreak p =
      All-if (trim_space preshared_key != "") _ []
        (NoBreak-append "PresharedKey = " (trim_space preshared_key) refl p.preshared_line, tt) tt

  peer-NoBreak : Plain → All NoBreak (peer_lines cfg preshared_key peer_public_key)
  unfolding peer_lines
  peer-NoBreak p = All-if (trim_space peer_public_key == "") [] _ tt (
    refl,
    (
      refl,
      (
        NoBreak-append "PublicKey = " (trim_space peer_public_key) refl p.peer_line,
        All-append NoBreak (preshared_lines preshared_key) (allowed_lines cfg) (preshared-NoBreak p)
            (allowed-NoBreak p),
      ),
    ),
  )

  unlines-eq :
      (text : String)
      → wireguard cfg private_key preshared_key peer_public_key ≡ ok text
      → unlines (wireguard_lines cfg private_key preshared_key peer_public_key) ≡ text
  unfolding wireguard
  unlines-eq text h = ground arith

  -- Where no value holds a line feed, splitting the file gives the lines that it was made from.
  pub split-wireguard :
      (text : String)
      → wireguard cfg private_key preshared_key peer_public_key ≡ ok text
      → IsPlain cfg private_key preshared_key peer_public_key
      → split text b'\n'
        ≡ wireguard_lines cfg private_key preshared_key peer_public_key ++ ("" ∷ [])
  unfolding wireguard_lines
  split-wireguard text h p = rw (← unlines-eq text h) (
      split-unlines _ (
        All-append NoBreak (interface_lines cfg private_key) _ (interface-NoBreak p)
          (peer-NoBreak p)))

split-injected :
    (l m a t : String) (ls : List String)
    → NoBreak l
    → NoBreak m
    → NoBreak a
    → NoBreak t
    → split (unlines (l ∷ m ∷ (a <> ("\n" <> t)) ∷ ls)) b'\n'
      ≡ l ∷ m ∷ a ∷ t ∷ split (unlines ls) b'\n'
unfolding unlines
split-injected l m a t ls hl hm ha ht = rw (
  split_line l _ hl,
  split_line m _ hm,
  append_assoc,
  append_assoc,
  split_line a _ ha,
  split_line t _ ht,
)

-- The third line of the file of an edge ends at a line feed of its address, and what stands behind it
-- is a line of its own.
pub split-wireguard-edge :
    (cfg : Config) (private_key preshared_key peer_public_key text address setting : String)
    → wireguard cfg private_key preshared_key peer_public_key ≡ ok text
    → cfg.role ≡ role_iran
    → cfg.edge_address ≡ (address <> ("\n" <> setting))
    → NoBreak address
    → NoBreak setting
    → (get_elem? (split text b'\n') 2 ≡ some ("Address = " <> address))
      × (get_elem? (split text b'\n') 3 ≡ some setting)
unfolding wireguard_lines interface_lines own_address
split-wireguard-edge cfg private_key preshared_key peer_public_key text address setting h role e
      Plain Plain' =
    rw
      (
        ← unlines-eq cfg private_key preshared_key peer_public_key text h,
        role,
        e,
        ← append_assoc "Address = " address ("\n" <> setting),
        split-injected _ _ ("Address = " <> address) setting _ refl refl
            (NoBreak-append "Address = " address refl Plain) Plain',
      )
      (refl, refl)
