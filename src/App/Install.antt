-- ===== src/App/Install.antt =====
-- What must be there before a link is set up: no conflicts, the packages, wstunnel and the keys.
use mathlib.Core.List.{[], ◌∷◌}
use hamara_tunnel.Prelude.{
  String, ◌<>◌, Bool, false, List, ◌++◌, ◌==◌, if◌then◌else◌, Result, ok, err, message, is_ok,
}
use hamara_tunnel.Prelude.Int.{ℤ, pos}
use hamara_tunnel.Text.{itoa, contains}
use hamara_tunnel.Model.{Config, Offer, mode_ara, mode_wireguard, mode_ssh_socks, is_routed_mode}
use hamara_tunnel.Render.{wireguard}
use hamara_tunnel.System.{
  mkdir_all, chmod, Action, lift, attempt, call, skip, refuse_if, do_if, ◌>>=◌, ◌>>◌,
}
use hamara_tunnel.Platform.{
  runner_output, runner_bash, put_file, install_packages, is_port_listening,
}
use hamara_tunnel.App.Names.{
  wg_private_path, wg_public_path, wg_psk_path, wg_config_path, wstunnel_ver,
}
use hamara_tunnel.App.Inputs.{read_trim}

-- `if the interface exists { return an error }`
unfoldable pub refuse_interface : Action (Unit {0})
refuse_interface = do
  r ← attempt (runner_output "ip" ("link" ∷ "show" ∷ "dev" ∷ "hamara0" ∷ []))
  refuse_if (is_ok r)
      (message "network interface hamara0 already exists; remove the conflicting interface first")

-- `if the port is in use { return an error }`
unfoldable pub refuse_port : String → ℤ → String → Action (Unit {0})
refuse_port proto port text = do used ← is_port_listening proto port; refuse_if used (message text)

unfoldable pub check_iran_conflicts : Offer → Action (Unit {0})
check_iran_conflicts o = do
  do_if (is_routed_mode o.mode) refuse_interface
  do_if (o.mode == mode_ara) (
      refuse_port "udp" o.local_relay_port
        ("local UDP relay port " <> (itoa o.local_relay_port <> " is already in use")))
  do_if (o.mode == mode_ssh_socks) (
      refuse_port "tcp" o.socks_port
        ("local SOCKS port " <> (itoa o.socks_port <> " is already in use")))

unfoldable pub check_outside_ports : String → ℤ → Action (Unit {0})
check_outside_ports mode port =
    if mode == mode_ara
    then (do
      refuse_port "tcp" port
          ("TCP port " <> (itoa port <> " is already in use on the outside server"))
      refuse_port "udp" (pos 51820)
          "UDP port 51820 is already in use; ARA reserves it for the loopback WireGuard listener")
    else if mode == mode_wireguard
    then refuse_port "udp" port
        ("UDP port " <> (itoa port <> " is already in use on the outside server"))
    else skip

unfoldable pub check_outside_conflicts : String → ℤ → Action (Unit {0})
check_outside_conflicts mode port = do
  check_outside_ports mode port
  do_if (is_routed_mode mode) refuse_interface

-- The packages that a mode adds.
unfoldable pub mode_packages : String → String → List String
mode_packages mode tls_mode =
    if mode == mode_ara
    then ("wireguard-tools" ∷ "openssl" ∷ "tar" ∷ [])
      ++ (if tls_mode == "acme" then "certbot" ∷ [] else [])
    else if mode == mode_wireguard
    then "wireguard-tools" ∷ []
    else if mode == mode_ssh_socks
    then "openssh-client" ∷ "openssh-server" ∷ []
    else []

unfoldable pub install_for_mode : String → String → Action (Unit {0})
install_for_mode mode tls_mode =
    install_packages
      (("ca-certificates" ∷ "curl" ∷ "iproute2" ∷ "iptables" ∷ []) ++ mode_packages mode tls_mode)

unfoldable pub generate_psk : Action (Unit {0})
generate_psk = do psk ← runner_output "wg" ("genpsk" ∷ []); put_file wg_psk_path (psk <> "\n") 0o600

unfoldable pub generate_wg_keys : Bool → Action (Unit {0})
generate_wg_keys with_psk = do
  private ← runner_output "wg" ("genkey" ∷ [])
  put_file wg_private_path (private <> "\n") 0o600
  public ← runner_output "/bin/bash" ("-c" ∷ ("wg pubkey < " <> wg_private_path) ∷ [])
  put_file wg_public_path (public <> "\n") 0o600
  do_if with_psk generate_psk

unfoldable pub write_wireguard : Config → String → Action (Unit {0})
write_wireguard cfg peer_public = do
  call (mkdir_all "/etc/wireguard" 0o700)
  call (chmod "/etc/wireguard" 0o700)
  private ← read_trim wg_private_path
  psk ← read_trim wg_psk_path
  text ← lift (wireguard cfg private psk peer_public)
  put_file wg_config_path text 0o600

-- The name of an asset's architecture, and the checksum of the asset.
unfoldable pub asset : String → Result (String × String)
asset arch =
    if arch == "amd64"
    then ok ("amd64", "fa842ed53fbb14b1c69cd98829f9895d7f8a6b0d562c57c1175851a52cea9ea2")
    else if arch == "arm64"
    then ok ("arm64", "99f9506d01d1b4073254609600ec5056dab8dc58aec75c32f6eb0508335a8fd2")
    else err (message ("ARA supports amd64 and arm64; detected " <> arch))

-- `%q` of a text that has nothing to escape
abbrev quote : String → String
quote s = "\"" <> (s <> "\"")

unfoldable pub wstunnel_script : String × String → String
wstunnel_script (arch, checksum) =
    "set -euo pipefail\nwork=$(mktemp -d)\ntrap 'rm -rf \"$work\"' EXIT\ncurl -fL --retry 3 "
    <> (quote (
          "https://github.com/erebe/wstunnel/releases/download/v"
          <> (wstunnel_ver
              <> ("/wstunnel_" <> (wstunnel_ver <> ("_linux_" <> (arch <> ".tar.gz"))))))
        <> (" -o \"$work/wstunnel.tar.gz\"\nprintf '%s  %s\\n' "
            <> (quote checksum
                <> " \"$work/wstunnel.tar.gz\" | sha256sum -c -\ntar -xzf \"$work/wstunnel.tar.gz\" -C \"$work\" wstunnel\ninstall -m 0755 \"$work/wstunnel\" /usr/local/bin/wstunnel\n")))

-- The version that is installed is the one that is wanted.
unfoldable pub has_version : Result String → Bool
has_version (ok out) = contains out wstunnel_ver
has_version (err e) = false

unfoldable pub download_wstunnel : Action (Unit {0})
download_wstunnel = do
  arch ← runner_output "dpkg" ("--print-architecture" ∷ [])
  found ← lift (asset arch)
  runner_bash (wstunnel_script found)

unfoldable pub install_wstunnel : Action (Unit {0})
install_wstunnel = do
  r ← attempt (runner_output "/usr/local/bin/wstunnel" ("--version" ∷ []))
  if has_version r then skip else download_wstunnel
