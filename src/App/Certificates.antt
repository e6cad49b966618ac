-- ===== src/App/Certificates.antt =====
-- `prepareTLS` and `prepareMTLS`.
use Prim.Native.String.{[], ◌∷◌}
use mathlib.Core.List.{[], ◌∷◌}
use hamara_tunnel.Prelude.{
  String, ◌<>◌, Bool, false, ◌||◌, not, List, ◌++◌, ◌==◌, if◌then◌else◌, message,
}
use hamara_tunnel.Prelude.Int.{pos}
use hamara_tunnel.Text.{trim_space, has_prefix, has_line_break}
use hamara_tunnel.Model.{Config}
use hamara_tunnel.System.{
  mkdir_all, chmod, remove, stat, Action, pure, fail, lift, attempt, ignore, call, ask, refuse_if,
  for_each, ◌>>=◌, ◌>>◌,
}
use hamara_tunnel.Platform.{runner_run, put_file, is_port_listening, is_address, explained}
use hamara_tunnel.App.Names.{
  InitOptions, mtls_dir, mtls_ca_path, mtls_ca_key_path, mtls_client_cert, mtls_client_key,
}

-- `_ = os.Remove(path)`
unfoldable pub try_remove : String → Action (Unit {0})
try_remove path = ignore (ask (remove path))

-- `filepath.IsAbs`
abbrev is_abs : String → Bool
is_abs path = has_prefix path "/"

-- A file that must be there, with a text in front of the error.
unfoldable pub require_file : String → String → Action (Unit {0})
require_file what path = do r ← attempt (call (stat path)); lift (explained what r)

unfoldable pub existing_tls : Config → InitOptions → Action Config
existing_tls cfg opts = do
  refuse_if
      (not (is_abs opts.tls_cert_path)
        || not (is_abs opts.tls_key_path)
        || has_line_break (opts.tls_cert_path <> opts.tls_key_path))
      (message "existing TLS mode requires absolute, single-line --cert and --key paths")
  require_file "certificate" opts.tls_cert_path
  require_file "private key" opts.tls_key_path
  pure (record cfg { tls_cert_path = opts.tls_cert_path; tls_key_path = opts.tls_key_path })

unfoldable pub email_args : String → List String
email_args email =
    if trim_space email == ""
    then "--register-unsafely-without-email" ∷ []
    else "--email" ∷ trim_space email ∷ []

-- `filepath.Join` of a directory, a host without dots alone in a part, and a file
unfoldable pub live_path : String → String → String
live_path host file = "/etc/letsencrypt/live/" <> (host <> ("/" <> file))

unfoldable pub acme_tls : Config → InitOptions → Action Config
acme_tls cfg opts = do
  refuse_if (is_address cfg.endpoint_host)
      (message "Let's Encrypt mode requires a DNS name, not an IP address")
  used ← is_port_listening "tcp" (pos 80)
  refuse_if used (
      message
        "TCP port 80 is already in use; stop that service for ACME or use an existing certificate")
  runner_run "certbot" (
      ("certonly" ∷ "--standalone" ∷ "--non-interactive" ∷ "--agree-tos" ∷ "-d" ∷ cfg.endpoint_host
        ∷ [])
      ++ email_args opts.acme_email)
  pure (record cfg {
    tls_cert_path = live_path cfg.endpoint_host "fullchain.pem";
    tls_key_path = live_path cfg.endpoint_host "privkey.pem";
  })

abbrev self_signed_cert : String
self_signed_cert = "/etc/hamara/tls/fullchain.pem"

abbrev self_signed_key : String
self_signed_key = "/etc/hamara/tls/privkey.pem"

unfoldable pub subject_alt_name : String → String
subject_alt_name host = if is_address host then "IP:" <> host else "DNS:" <> host

unfoldable pub self_signed_tls : Config → Action Config
self_signed_tls cfg = do
  call (mkdir_all "/etc/hamara/tls" 0o700)
  runner_run "openssl" (
      "req"
      ∷ "-x509"
      ∷ "-nodes"
      ∷ "-newkey"
      ∷ "rsa:2048"
      ∷ "-sha256"
      ∷ "-days"
      ∷ "825"
      ∷ "-subj"
      ∷ ("/CN=" <> cfg.endpoint_host)
      ∷ "-addext"
      ∷ ("subjectAltName=" <> subject_alt_name cfg.endpoint_host)
      ∷ "-keyout"
      ∷ self_signed_key
      ∷ "-out"
      ∷ self_signed_cert
      ∷ [])
  ignore (call (chmod self_signed_key 0o600))
  ignore (call (chmod self_signed_cert 0o644))
  pure (record cfg {
    tls_cert_path = self_signed_cert;
    tls_key_path = self_signed_key;
    tls_verify = false;
  })

unfoldable pub prepare_tls : Config → InitOptions → Action Config
prepare_tls cfg opts =
    if opts.tls_mode == "existing"
    then existing_tls cfg opts
    else if opts.tls_mode == "acme"
    then acme_tls cfg opts
    else if opts.tls_mode == "self-signed"
    then self_signed_tls cfg
    else fail (
        message (
          "unsupported TLS mode \""
          <> (opts.tls_mode <> "\" (use acme, existing, or self-signed)")))

abbrev client_csr : String
client_csr = "/etc/hamara/mtls/client.csr"

abbrev ext_file : String
ext_file = "/etc/hamara/mtls/client-ext.cnf"

abbrev serial_file : String
serial_file = "/etc/hamara/mtls/client-ca.srl"

unfoldable pub mtls_commands : Config → List (List String)
mtls_commands cfg =
    ("ecparam" ∷ "-name" ∷ "prime256v1" ∷ "-genkey" ∷ "-noout" ∷ "-out" ∷ mtls_ca_key_path ∷ [])
    ∷ ("req"
        ∷ "-new"
        ∷ "-x509"
        ∷ "-sha256"
        ∷ "-days"
        ∷ "3650"
        ∷ "-key"
        ∷ mtls_ca_key_path
        ∷ "-subj"
        ∷ ("/CN=Hamara-ARA-Client-CA-" <> cfg.instance_id)
        ∷ "-out"
        ∷ mtls_ca_path
        ∷ [])
    ∷ ("ecparam" ∷ "-name" ∷ "prime256v1" ∷ "-genkey" ∷ "-noout" ∷ "-out" ∷ mtls_client_key ∷ [])
    ∷ ("req"
        ∷ "-new"
        ∷ "-sha256"
        ∷ "-key"
        ∷ mtls_client_key
        ∷ "-subj"
        ∷ ("/CN=" <> cfg.ara_path)
        ∷ "-out"
        ∷ client_csr
        ∷ [])
    ∷ ("x509" ∷ "-req" ∷ "-sha256" ∷ "-days" ∷ "825" ∷ "-in" ∷ client_csr ∷ "-CA" ∷ mtls_ca_path
        ∷ "-CAkey" ∷ mtls_ca_key_path ∷ "-CAcreateserial" ∷ "-extfile" ∷ ext_file ∷ "-out"
        ∷ mtls_client_cert ∷ [])
    ∷ []

unfoldable pub run_openssl : List String → Action (Unit {0})
run_openssl args = do
  r ← attempt (runner_run "openssl" args)
  lift (explained "create ARA mutual-TLS identity" r)

unfoldable pub prepare_mtls : Config → Action Config
prepare_mtls cfg = do
  call (mkdir_all mtls_dir 0o700)
  call (chmod mtls_dir 0o700)
  for_each
      (mtls_ca_path ∷ mtls_ca_key_path ∷ mtls_client_cert ∷ mtls_client_key ∷ client_csr
        ∷ serial_file ∷ [])
      try_remove
  put_file ext_file
      "basicConstraints=critical,CA:FALSE\nkeyUsage=critical,digitalSignature\nextendedKeyUsage=clientAuth\n"
      0o600
  for_each (mtls_commands cfg) run_openssl
  for_each (mtls_ca_key_path ∷ mtls_client_key ∷ []) (λ path. call (chmod path 0o600))
  call (chmod mtls_ca_path 0o644)
  call (chmod mtls_client_cert 0o600)
  try_remove client_csr
  try_remove ext_file
  try_remove serial_file
  pure (record cfg { mtls_ca_path = mtls_ca_path })
