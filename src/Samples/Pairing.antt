-- ===== src/Samples/Pairing.antt =====
-- Offers, responses and tokens at the concrete values.
use hamara_tunnel.Prelude.{◌≡◌, refl, ◌<◌, ◌<>◌, ok, err, message}
use hamara_tunnel.Text.{trim_space, split, is_space}
use hamara_tunnel.Net.{parse_cidr}
use hamara_tunnel.Model.{
  valid_endpoint_host, validate_offer, validate_response, check_response_material,
}
use hamara_tunnel.Model.Accepted.{OfferIsSound, validate_offer-OfferIsSound}
use hamara_tunnel.Model.Padding.{
  valid_endpoint_host-append, validate_offer-edge_address, validate_offer-mask,
}
use hamara_tunnel.Token.{decode, to_upper}
use hamara_tunnel.Token.RoundTrip.{decode-encode, decode-encode_ne}
use hamara_tunnel.Token.Accepted.{IsToken, decode-IsToken}
use hamara_tunnel.Render.{ipip_ends}
use hamara_tunnel.App.{response_of, offer_of, join_config, read_offer, read_response}
use hamara_tunnel.App.Agreement.{
  mirror, ipip_ends-join_config, validate_response-response_of, read_offer-encode,
  read_response-encode,
}
use hamara_tunnel.Samples.{
  gateway, offer, response, pki, constant_codec, constant-IsLawful, services, offer_token,
  response_token, offer-valid, offer-made, offer-decoded, response-made, response-valid,
}

offer_sound_example : OfferIsSound pki offer
offer_sound_example = validate_offer-OfferIsSound pki offer offer-valid

offer_token_example : decode (constant_codec offer) offer_token "offer" ≡ ok offer
offer_token_example =
    decode-encode (constant_codec offer) offer (constant-IsLawful offer) "offer" "offer" offer_token
      offer-made (unfold to_upper trim_space in refl)

wrong_kind_example :
    decode (constant_codec offer) offer_token "response"
    ≡ err (
        message (
          "expected a "
          <> (to_upper "response" <> (" token, got " <> to_upper (trim_space "offer")))))
wrong_kind_example =
    decode-encode_ne (constant_codec offer) offer (constant-IsLawful offer) "offer" "response"
      offer_token offer-made (unfold to_upper trim_space in λ h. cc)

IsToken-shape_example :
    IsToken (constant_codec offer) (split (trim_space offer_token) b'.') (to_upper "offer") offer
IsToken-shape_example =
    decode-IsToken (constant_codec offer) offer_token "offer" offer offer-decoded

read_offer_example : read_offer services offer_token ≡ ok offer
read_offer_example =
    read_offer-encode services offer offer_token (constant-IsLawful offer) offer-made offer-valid

read_response_example : read_response services gateway response_token ≡ ok response
read_response_example =
    read_response-encode services gateway response response_token (constant-IsLawful response)
      response-made response-valid

mirrored_example :
    ipip_ends (join_config (offer_of gateway) "eth0" "198.51.100.7" "2026-01-02T03:04:05Z")
    ≡ mirror (ipip_ends (record gateway { peer_endpoint = "198.51.100.7" }))
mirrored_example = ipip_ends-join_config gateway "eth0" "198.51.100.7" "2026-01-02T03:04:05Z" refl

response_example : validate_response response gateway ≡ check_response_material response "ipip"
response_example =
    validate_response-response_of gateway "" "" "198.51.100.7" response
      (unfold response_of offer_of in refl)

host_example : valid_endpoint_host ("gw.example.com" <> "\n") ≡ valid_endpoint_host "gw.example.com"
host_example = valid_endpoint_host-append "gw.example.com" "\n" (unfold is_space in refl)

edge_address_example :
    validate_offer pki (record offer { edge_address = "10.75.0.2/30" <> "\nPostUp = id" })
    ≡ validate_offer pki offer
edge_address_example = validate_offer-edge_address pki offer "\nPostUp = id" refl

mask_example : 126 < 128
mask_example =
    validate_offer-mask pki offer offer-valid refl 281470854430720
      (record { ip = 281470854430720; ones = 126 }) (unfold parse_cidr in refl)
