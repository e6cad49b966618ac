-- ===== src/App/Menu.antt =====
-- `Interactive`: the menus. Fuel bounds the number of times that a question is asked again; where it
-- runs out the model ends with an error of its own.
use mathlib.Core.List.{[], ◌∷◌}
use hamara_tunnel.Prelude.{
  ℕ, String, ◌<>◌, false, List, Option, none, some, ◌==◌, ◌!=◌, if◌then◌else◌, eqb, Result, ok, err,
  message, get_elem?,
}
use hamara_tunnel.Prelude.Int.{pos}
use hamara_tunnel.Model.{
  Config, role_outside, mode_ara, mode_wireguard, mode_ipip, mode_ssh_socks, mode_label,
}
use hamara_tunnel.Token.{to_upper}
use hamara_tunnel.System.{Action, pure, fail, attempt, say, skip, refuse_if, ◌>>=◌, ◌>>◌}
use hamara_tunnel.Platform.{config_exists, load_config, detect_wan}
use hamara_tunnel.App.Names.{Services, InitOptions}
use hamara_tunnel.App.Inputs.{prompt, prompt_int, choose}
use hamara_tunnel.App.Uninstall.{uninstall}
use hamara_tunnel.App.Manage.{manage_link, logs, repair_guards, show_pairing_token, print_xray}
use hamara_tunnel.App.LeakTest.{leak_test}
use hamara_tunnel.App.Report.{status, doctor, show_paths}
use hamara_tunnel.App.Init.{init_outside}
use hamara_tunnel.App.Join.{join_link}
use hamara_tunnel.App.Accept.{accept}

-- An answer, if it came before the fuel ran out.
unfoldable pub answered : Option ℕ → Action ℕ
answered (some n) = pure n
answered none = fail (message "no answer")

unfoldable pub pick : ℕ → String → List String → Action ℕ
pick fuel question choices = do r ← choose fuel question choices; answered r

unfoldable pub ask_number : ℕ → String → ℕ → Action ℕ
ask_number fuel question default = do r ← prompt_int fuel question default 1 65535; answered r

abbrev pub menu_items : List String
menu_items =
    "Show status" ∷ "Start tunnel services" ∷ "Stop tunnel services (strict guard stays active)"
    ∷ "Restart tunnel services" ∷ "Run diagnostics" ∷ "Run strict IP-leak fail-closed test"
    ∷ "Print 3x-ui/Xray configuration" ∷ "View recent service logs"
    ∷ "Repair/reapply firewall and egress guard" ∷ "Accept a pairing response"
    ∷ "Show pairing token" ∷ "Show saved files and paths" ∷ "Exit" ∷ "Uninstall" ∷ []

abbrev pub mode_items : List String
mode_items =
    "ARA Routed TLS — kernel IP forwarding over WireGuard-over-WSS/TLS"
    ∷ "WireGuard Direct — fastest encrypted routed link"
    ∷ "IPIP Routed — low overhead, IPv4 only, NOT encrypted"
    ∷ "SSH SOCKS — TCP-only fallback for restrictive networks" ∷ []

abbrev pub tls_items : List String
tls_items =
    "Let's Encrypt (domain required; port 80 must be reachable)"
    ∷ "Use existing PEM certificate and key"
    ∷ "Self-signed fallback (outer TLS is not verified; inner WireGuard remains authenticated)" ∷ []

abbrev pub no_options : String → String → InitOptions
no_options mode host = record {
  mode = mode;
  endpoint_host = host;
  endpoint_port = pos 0;
  tls_mode = "";
  tls_cert_path = "";
  tls_key_path = "";
  acme_email = "";
  force = false;
}

-- The `switch` on the TLS mode.
unfoldable pub tls_options : ℕ → InitOptions → Action InitOptions
tls_options choice opts =
    if eqb choice 0
    then (do
      email ← prompt "ACME email (blank is allowed)" ""
      pure (record opts { tls_mode = "acme"; acme_email = email }))
    else if eqb choice 1
    then (do
      cert ← prompt "Full-chain certificate path" "/etc/letsencrypt/live/DOMAIN/fullchain.pem"
      key ← prompt "Private-key path" "/etc/letsencrypt/live/DOMAIN/privkey.pem"
      pure (record opts { tls_mode = "existing"; tls_cert_path = cert; tls_key_path = key }))
    else pure (record opts { tls_mode = "self-signed" })

unfoldable pub ara_options : ℕ → InitOptions → Action InitOptions
ara_options fuel opts = do
  port ← ask_number fuel "Public ARA TLS port" 443
  choice ← pick fuel "TLS certificate mode" tls_items
  tls_options choice (record opts { endpoint_port = pos port })

unfoldable pub port_options : ℕ → String → ℕ → InitOptions → Action InitOptions
port_options fuel question default opts = do
  port ← ask_number fuel question default
  pure (record opts { endpoint_port = pos port })

-- The `switch` on the mode.
unfoldable pub mode_options : ℕ → InitOptions → Action InitOptions
mode_options fuel opts =
    if opts.mode == mode_ara
    then ara_options fuel opts
    else if opts.mode == mode_wireguard
    then port_options fuel "WireGuard UDP port" 51820 opts
    else if opts.mode == mode_ipip
    then pure (record opts { endpoint_port = pos 4 })
    else if opts.mode == mode_ssh_socks
    then port_options fuel "SSH port" 22 opts
    else pure opts

-- The address that is found, or "".
unfoldable pub local_address_of : Result (String × String) → String
local_address_of (ok (dev, src)) = src
local_address_of (err e) = ""

unfoldable pub mode_at : ℕ → String
mode_at choice =
    elim (get_elem? (mode_ara ∷ mode_wireguard ∷ mode_ipip ∷ mode_ssh_socks ∷ []) choice) [
      | some mode ↦ mode
      | none ↦ ""
    ]

unfoldable pub banner : String → String
banner version =
    "\n  _   _                             \n | | | | __ _ _ __ ___   __ _ _ __ __ _ \n | |_| |/ _` | '_ ` _ \\ / _` | '__/ _` |\n |  _  | (_| | | | | | | (_| | | | (_| |\n |_| |_|\\__,_|_| |_| |_|\\__,_|_|  \\__,_|\n\n Hamara Tunnel "
    <> (version <> "\n Secure two-server routing for Ubuntu\n\n")

module _ (services : Services) (version : String) (fuel : ℕ) where
  open services use {configs}

  unfoldable pub accept_prompt : Config → Action (Unit {0})
  accept_prompt cfg = do
    refuse_if (cfg.role != role_outside)
        (message "only the outside gateway accepts a response token")
    value ← prompt "Paste the RESPONSE token" ""
    accept services value ""

  unfoldable pub uninstall_prompt : Action (Unit {0})
  uninstall_prompt = do
    confirm ← prompt "Type REMOVE to uninstall Hamara" ""
    refuse_if (confirm != "REMOVE") (message "uninstall cancelled")
    uninstall configs false

  -- The commands of the menu, in the order of its items.
  unfoldable pub menu_actions : Config → List (Action (Unit {0}))
  menu_actions cfg =
      status configs version
      ∷ manage_link configs "start"
      ∷ manage_link configs "stop"
      ∷ manage_link configs "restart"
      ∷ doctor configs
      ∷ leak_test configs
      ∷ print_xray configs []
      ∷ logs configs
      ∷ repair_guards configs
      ∷ accept_prompt cfg
      ∷ show_pairing_token configs
      ∷ show_paths configs
      ∷ skip
      ∷ uninstall_prompt
      ∷ []

  unfoldable pub chosen : Option (Action (Unit {0})) → Action (Unit {0})
  chosen (some m) = m
  chosen none = skip

  unfoldable pub menu : Action (Unit {0})
  menu = do
    cfg ← load_config configs
    say (
        "Installed link: "
        <> (mode_label cfg.mode
            <> (" / " <> (to_upper cfg.role <> (" / " <> (cfg.state <> "\n\n"))))))
    choice ← pick fuel "What do you want to do?" menu_items
    chosen (get_elem? (menu_actions cfg) choice)

  unfoldable pub join_prompt : Action (Unit {0})
  join_prompt = do
    value ← prompt "Paste the OFFER token from the outside gateway" ""
    join_link services value ""

  unfoldable pub gateway_prompt : Action (Unit {0})
  gateway_prompt = do
    choice ← pick fuel "Choose a tunnel mode" mode_items
    found ← attempt detect_wan
    host ←
        prompt "Public endpoint domain or IPv4 address"
          (if mode_at choice == mode_ara then "" else local_address_of found)
    opts ← mode_options fuel (no_options (mode_at choice) host)
    init_outside services opts

  unfoldable pub set_up : Action (Unit {0})
  set_up = do
    choice ← pick fuel "Which server is this?" ("Iran edge server" ∷ "Outside gateway server" ∷ [])
    if eqb choice 0 then join_prompt else gateway_prompt

  unfoldable pub interactive : Action (Unit {0})
  interactive = do say (banner version); exists ← config_exists; if exists then menu else set_up
