-- ===== src/App/Ssh.antt =====
-- The restricted SSH account of the gateway, and the SSH client of the edge.
use Prim.Native.String.{[], ◌∷◌}
use mathlib.Core.List.{[], ◌∷◌}
use hamara_tunnel.Prelude.{
  String, ◌<>◌, ◌&&◌, not, List, ◌++◌, ◌==◌, ◌!=◌, if◌then◌else◌, Result, ok, err, message, is_ok,
}
use hamara_tunnel.Text.{trim_space, fields, split, join, contains}
use hamara_tunnel.Model.{Config}
use hamara_tunnel.Render.{known_hosts, ssh_client_unit, unlines}
use hamara_tunnel.System.{read_file, Action, pure, lift, attempt, ask, refuse_if, ◌>>=◌, ◌>>◌}
use hamara_tunnel.Platform.{
  runner_run, runner_output, runner_bash, put_file, read_first, command_exists,
}
use hamara_tunnel.App.Names.{ssh_user}
use hamara_tunnel.App.Inputs.{or_empty}
use hamara_tunnel.App.Certificates.{try_remove}

unfoldable pub account_script : String
account_script = unlines (
    "set -e"
    ∷ ("if ! id -u " <> (ssh_user <> " >/dev/null 2>&1; then"))
    ∷ ("  useradd --system --create-home --home-dir /var/lib/hamara-ssh --shell /bin/bash "
        <> ssh_user)
    ∷ "fi"
    ∷ ("install -d -m 0700 -o "
        <> (ssh_user <> (" -g " <> (ssh_user <> " /var/lib/hamara-ssh/.ssh"))))
    ∷ "touch /var/lib/hamara-ssh/.ssh/authorized_keys"
    ∷ ("chown " <> (ssh_user <> (":" <> (ssh_user <> " /var/lib/hamara-ssh/.ssh/authorized_keys"))))
    ∷ "chmod 0600 /var/lib/hamara-ssh/.ssh/authorized_keys"
    ∷ [])

unfoldable pub sshd_config : String
sshd_config = unlines (
    "# Managed by Hamara Tunnel"
    ∷ ("Match User " <> ssh_user)
    ∷ "    PasswordAuthentication no"
    ∷ "    KbdInteractiveAuthentication no"
    ∷ "    PubkeyAuthentication yes"
    ∷ "    AllowTcpForwarding local"
    ∷ "    GatewayPorts no"
    ∷ "    X11Forwarding no"
    ∷ "    AllowAgentForwarding no"
    ∷ "    PermitTTY no"
    ∷ "    ForceCommand /bin/false"
    ∷ [])

-- The first two words of a key file.
unfoldable pub host_key : List String → Result String
host_key (kind ∷ key ∷ rest) = ok (kind <> (" " <> key))
host_key _ = err (message "could not parse SSH host public key")

unfoldable pub test_sshd : Action (Unit {0})
test_sshd = do
  r ← attempt (runner_run "sshd" ("-t" ∷ []))
  refuse_if (not (is_ok r)) (message "generated sshd configuration failed validation")

unfoldable pub setup_ssh_gateway : Config → Action Config
setup_ssh_gateway cfg = do
  found ← command_exists "sshd"
  refuse_if (not found) (message "OpenSSH server is not installed")
  runner_bash account_script
  put_file "/etc/ssh/sshd_config.d/90-hamara-tunnel.conf" sshd_config 0o644
  test_sshd
  (key, path) ←
      read_first ("/etc/ssh/ssh_host_ed25519_key.pub" ∷ "/etc/ssh/ssh_host_rsa_key.pub" ∷ [])
  two_words ← lift (host_key (fields key))
  runner_run "systemctl" ("reload" ∷ "ssh.service" ∷ [])
  pure (record cfg { ssh_host_key = two_words })

abbrev pub ssh_key_path : String
ssh_key_path = "/etc/hamara/secrets/ssh_ed25519"

unfoldable pub setup_ssh_client : Config → Action (Unit {0})
setup_ssh_client cfg = do
  try_remove ssh_key_path
  try_remove (ssh_key_path <> ".pub")
  runner_run "ssh-keygen" (
      "-q"
      ∷ "-t"
      ∷ "ed25519"
      ∷ "-N"
      ∷ ""
      ∷ "-C"
      ∷ ("hamara-" <> cfg.instance_id)
      ∷ "-f"
      ∷ ssh_key_path
      ∷ [])
  put_file "/etc/hamara/ssh_known_hosts"
      (known_hosts cfg.endpoint_host cfg.ssh_port cfg.ssh_host_key) 0o600
  put_file "/etc/systemd/system/hamara-ssh-socks.service" (ssh_client_unit cfg) 0o644

-- The Ed25519 key of the peer: its first two words.
unfoldable pub peer_key : List String → Result String
peer_key (kind ∷ key ∷ rest) =
    if kind == "ssh-ed25519"
    then ok (kind <> (" " <> key))
    else err (message "only a single Ed25519 public key generated by Hamara is accepted")
peer_key _ = err (message "only a single Ed25519 public key generated by Hamara is accepted")

-- The lines that stay: those of other instances.
unfoldable pub other_keys : String → List String → List String
other_keys marker [] = []
other_keys marker (line ∷ lines) =
    let rest = other_keys marker lines in
    if not (contains line marker) && trim_space line != "" then line ∷ rest else rest

unfoldable pub key_entry : String → String → String
key_entry key marker =
    "no-agent-forwarding,no-X11-forwarding,no-pty,no-user-rc " <> (key <> (" " <> marker))

-- The new content of the file of keys.
unfoldable pub authorized_keys : String → String → String → String
authorized_keys content key marker =
    join (other_keys marker (split content b'\n') ++ (key_entry key marker ∷ [])) "\n" <> "\n"

abbrev pub authorized_keys_path : String
authorized_keys_path = "/var/lib/hamara-ssh/.ssh/authorized_keys"

-- `ssh-keygen -lf` accepts the key; the file that it reads is removed in any case.
unfoldable pub test_peer_key : String → Action (Unit {0})
test_peer_key key =
    let tmp : String = "/etc/hamara/peer_authorized_key.tmp" in
    do
      put_file tmp (key <> "\n") 0o600
      r ← attempt (runner_output "ssh-keygen" ("-lf" ∷ tmp ∷ []))
      try_remove tmp
      refuse_if (not (is_ok r)) (message "SSH response key failed validation")

unfoldable pub authorize_ssh_peer : Config → String → Action (Unit {0})
authorize_ssh_peer cfg pub' = do
  key ← lift (peer_key (fields (trim_space pub')))
  test_peer_key key
  content ← attempt (ask (read_file authorized_keys_path))
  put_file authorized_keys_path
      (authorized_keys (or_empty content) key ("hamara-" <> cfg.instance_id)) 0o600
  runner_run "chown" ((ssh_user <> (":" <> ssh_user)) ∷ authorized_keys_path ∷ [])
