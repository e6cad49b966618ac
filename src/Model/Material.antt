-- ===== src/Model/Material.antt =====
-- The checks on keys and certificates of internal/model/model.go. `encoding/pem`, `crypto/x509` and
-- the clock are parameters.
use mathlib.Core.List.{[], ◌∷◌}
use hamara_tunnel.Prelude.{
  ℕ, String, len, Bool, false, ◌&&◌, ◌||◌, not, List, Option, none, some, eqb, leb, ltb, ◌==◌, ◌!=◌,
  if◌then◌else◌, length, any,
}
use hamara_tunnel.Text.{trim_space, fields, has_line_break}
use hamara_tunnel.Encoding.{base64_std_decode}

unfoldable pub decodes_to : (ℕ → Bool) → String → Bool
unfolding base64_std_decode
decodes_to fits s = elim (base64_std_decode s) [ none ↦ false | some data' ↦ fits (length data') ]

unfoldable pub valid_wg_key : String → Bool
unfolding decodes_to trim_space has_line_break
valid_wg_key s = decodes_to (λ n. eqb n 32) (trim_space s) && not (has_line_break s)

-- The two words of a host key.
unfoldable pub valid_key_fields : List String → Bool
unfolding decodes_to
valid_key_fields (kind ∷ key ∷ []) =
    (kind == "ssh-ed25519" || kind == "ssh-rsa") && decodes_to (λ n. leb 32 n) key
valid_key_fields _ = false

unfoldable pub valid_ssh_host_key : String → Bool
unfolding valid_key_fields trim_space fields has_line_break
valid_ssh_host_key s = valid_key_fields (fields (trim_space s)) && not (has_line_break s)

-- A `pem.Block`: its type and its bytes.
pub record PemBlock : Type 0 where
  pub type : String
  pub bytes : List ℕ

-- A key's point, where a `nil` coordinate is `none`.
pub record Point : Type 0 where
  pub x : Option ℕ
  pub y : Option ℕ

-- `x509.Certificate`, as far as it is read; `public_key` is `none` unless it is an ECDSA key, and
-- `client_auth` has an entry for each extended key usage, true for ClientAuth and Any.
pub record Certificate : Type 0 where
  pub common_name : String
  pub is_ca : Bool
  pub not_before : ℕ
  pub not_after : ℕ
  pub public_key : Option Point
  pub client_auth : List Bool

pub record Pki : Type 0 where
  pub pem_decode : String → Option (PemBlock × String)
  pub parse_certificate : List ℕ → Option Certificate
  pub parse_ec_private_key : List ℕ → Option Point
  pub now : ℕ

-- `a.Cmp(b) == 0`
abbrev equal_nats : Option ℕ → Option ℕ → Bool
equal_nats (some a) (some b) = eqb a b
equal_nats _ _ = false

-- Both points are complete and equal.
unfoldable pub same_point : Point → Point → Bool
same_point p q = equal_nats p.x q.x && equal_nats p.y q.y

unfoldable pub valid_block : String → Option (PemBlock × String) → Option (List ℕ)
unfolding trim_space
valid_block type none = none
valid_block type (some (block, rest)) =
    if block.type == type && eqb (len (trim_space rest)) 0 then some block.bytes else none

unfoldable pub valid_size : String → Bool
valid_size pem = not (eqb (len pem) 0 || ltb 16384 (len pem))

unfoldable pub any_client_auth : List Bool → Bool
any_client_auth = any (λ b. b)

module _ (pki : Pki) where
  open pki use {pem_decode, parse_certificate, parse_ec_private_key, now}

  -- The certificate's own fields.
  unfoldable pub valid_identity : Certificate → String → Bool
  valid_identity cert expected = not (
      cert.common_name != expected
      || cert.is_ca
      || ltb now cert.not_before
      || ltb cert.not_after now)

  unfoldable pub matches_key : Certificate → Option Point → Bool
  unfolding same_point any_client_auth
  matches_key cert none = false
  matches_key cert (some key) = elim cert.public_key [
    | none ↦ false
    | some public ↦ same_point public key && any_client_auth cert.client_auth
  ]

  unfoldable pub valid_pair : Option (List ℕ) → Option (List ℕ) → String → Bool
  unfolding valid_identity matches_key
  valid_pair (some cert_bytes) (some key_bytes) expected = elim (parse_certificate cert_bytes) [
    | none ↦ false
    | some cert ↦ valid_identity cert expected && matches_key cert (parse_ec_private_key key_bytes)
  ]
  valid_pair _ _ expected = false

  unfoldable pub valid_mtls_material : String → String → String → Bool
  unfolding valid_size valid_block valid_pair
  valid_mtls_material cert_pem key_pem expected =
      valid_size cert_pem
      && valid_size key_pem
      && valid_pair (valid_block "CERTIFICATE" (pem_decode cert_pem))
          (valid_block "EC PRIVATE KEY" (pem_decode key_pem)) expected
