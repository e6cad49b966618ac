-- ===== src/Samples.antt =====
-- A gateway, an edge, a host and packages at concrete values.
mod Pairing
mod Commands
mod Files
mod Direct
use Prim.Native.String.{[], ◌∷◌}
use mathlib.Core.Path.{subst}
use mathlib.Core.List.{[], ◌∷◌}
use hamara_tunnel.Prelude.{
  ◌≡◌, ◌≢◌, refl, ℕ, ◌<◌, String, ◌<>◌, Bool, true, false, List, ◌++◌, Option, none, some, ◌==◌,
  if◌then◌else◌, Result, ok, err, Error, message, is_ok, get_elem?, arith,
}
use hamara_tunnel.Prelude.Int.{pos}
use hamara_tunnel.Text.{trim_space, split, equal_fold, index_of}
use hamara_tunnel.Net.{Network, parse_cidr, contains_ip, is_ipv4_text}
use hamara_tunnel.Encoding.{
  IsBytes, base64_encode, sextet, hex_encode, base64_decode, sextets, drop_breaks, join_sextets,
}
use hamara_tunnel.Model.{
  Config, Offer, Response, Pki, zero_config, zero_offer, zero_response, role_iran, role_outside,
  mode_ipip, schema_version, valid_endpoint_host, validate_offer, check_identity,
  matches_instance_id, check_routed, tunnel_network, check_members, strip_prefix, check_ipip,
  validate_response,
}
use hamara_tunnel.Token.{
  Codec, IsLawful, encode, decode, to_upper, assemble, checksum, decode_parts, decode_payload,
  unmarshal_payload,
}
use hamara_tunnel.System.{
  Op, run, output, combined, read_file, write_file, rename, mkdir_all, chmod, remove, remove_all,
  stat, look_path, print, print_error, read_line, random, now, sleep, operating_system,
  effective_uid, Reply, Env,
}
use hamara_tunnel.Platform.{ConfigCodec}
use hamara_tunnel.App.{
  join_link, read_offer, read_response, Services, offer_of, join_config, response_of,
}

-- The gateway's configuration, before and after pairing.
abbrev pub gateway : Config
gateway = record zero_config {
  version = pos 1;
  instance_id = "00112233445566ff";
  role = role_outside;
  mode = mode_ipip;
  state = "pending";
  interface = "hamara0";
  tunnel_cidr = "10.75.0.0/30";
  gateway_address = "10.75.0.1/30";
  edge_address = "10.75.0.2/30";
  endpoint_host = "203.0.113.10";
  endpoint_port = pos 4;
  mtu = pos 1400;
  route_table = pos 52750;
}

abbrev pub offer : Offer
offer = record zero_offer {
  version = pos 1;
  instance_id = "00112233445566ff";
  mode = mode_ipip;
  endpoint_host = "203.0.113.10";
  endpoint_port = pos 4;
  tunnel_cidr = "10.75.0.0/30";
  gateway_address = "10.75.0.1/30";
  edge_address = "10.75.0.2/30";
  mtu = pos 1400;
  route_table = pos 52750;
  gateway_endpoint_ip = "203.0.113.10";
}

abbrev pub response : Response
response = record zero_response {
  version = pos 1;
  instance_id = "00112233445566ff";
  mode = mode_ipip;
  edge_endpoint_ip = "198.51.100.7";
}

-- Packages that know one value each.
abbrev pub constant_codec : {A : Type 0} → A → Codec A
constant_codec a = record {
  marshal = λ x. ok (7 ∷ []);
  unmarshal = λ bs. ok a;
  sha256 = λ s. 1 ∷ 2 ∷ 3 ∷ 4 ∷ 5 ∷ 6 ∷ 7 ∷ 8 ∷ [];
}

abbrev pub pki : Pki
pki = record {
  pem_decode = λ s. none;
  parse_certificate = λ bs. none;
  parse_ec_private_key = λ bs. none;
  now = 0;
}

abbrev pub services : Services
services = record {
  configs = record { format = λ cfg. ok "{}"; parse = λ s. ok gateway };
  offers = constant_codec offer;
  responses = constant_codec response;
  pki = pki;
}

pub offer-valid : validate_offer pki offer ≡ ok tt
unfolding validate_offer check_identity matches_instance_id valid_endpoint_host check_routed
    tunnel_network parse_cidr check_members strip_prefix contains_ip check_ipip is_ipv4_text
offer-valid = refl

-- The token of the offer, and that of the response.
abbrev pub offer_token : String
offer_token = "HAMARA1.OFFER.Bw.0102030405060708"

abbrev pub response_token : String
response_token = "HAMARA1.RESPONSE.Bw.0102030405060708"

seven : (bs : List ℕ) → ok (7 ∷ []) ≡ ok bs → IsBytes bs
seven bs h = let e : 7 ∷ [] ≡ bs = cc in subst IsBytes e (omega arith, tt)

eight : IsBytes (1 ∷ 2 ∷ 3 ∷ 4 ∷ 5 ∷ 6 ∷ 7 ∷ 8 ∷ [])
eight = (
  omega arith,
  (
    omega arith,
    (omega arith, (omega arith, (omega arith, (omega arith, (omega arith, (omega arith, tt)))))),
  ),
)

pub constant-IsLawful : {A : Type 0} (a : A) → IsLawful (constant_codec a) a
constant-IsLawful a = record { digest = λ s. eight; encoded = seven; decoded = λ bs h. refl }

pub offer-made : encode (constant_codec offer) "offer" offer ≡ ok offer_token
unfolding encode to_upper trim_space assemble base64_encode sextet checksum hex_encode
offer-made = refl

pub response-made : encode (constant_codec response) "response" response ≡ ok response_token
unfolding encode to_upper trim_space assemble base64_encode sextet checksum hex_encode
response-made = refl

pub offer-decoded : decode (constant_codec offer) offer_token "offer" ≡ ok offer
unfolding decode decode_parts split trim_space to_upper equal_fold checksum hex_encode
    decode_payload base64_decode sextets drop_breaks index_of join_sextets unmarshal_payload
offer-decoded = refl

pub response-valid : validate_response response gateway ≡ ok tt
unfolding validate_response is_ipv4_text
response-valid = refl

-- A host that is an Ubuntu server with no configuration, where each command succeeds but those that
-- look for the interface, and each unit is active.
abbrev pub reply : String → Reply
reply s = record { text = s; error_output = ""; numbers = 0 ∷ []; error = none }

abbrev pub failure : Reply
failure = record { text = ""; error_output = ""; numbers = []; error = some (message "failed") }

abbrev pub is_link : List String → Bool
is_link [] = false
is_link (a ∷ args) = a == "link"

abbrev pub answer : Op → Reply
answer operating_system = reply "linux"
answer (read_file path) = reply "ID=ubuntu\nVERSION_ID=24.04\n"
answer (stat path) = failure
answer (output name args) =
    if name == "systemctl"
    then reply "active"
    else if is_link args
    then failure
    else reply "1.1.1.1 via 198.51.100.1 dev eth0 src 198.51.100.7"
answer op = reply ""

abbrev pub env : Env
env t op = answer op

-- The edge's configuration.
abbrev pub edge : Config
edge = record gateway { role = role_iran; peer_endpoint = "198.51.100.7" }

-- A host on which the edge is set up.
abbrev pub edge_services : Services
edge_services = record services {
  configs = record { format = λ cfg. ok "{}"; parse = λ s. ok edge };
}
