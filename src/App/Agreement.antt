-- ===== src/App/Agreement.antt =====
-- Pairing: what one side makes is what the other side takes.
use hamara_tunnel.Prelude.{◌≡◌, refl, String, true, ◌==◌, eq_iff, ok, checked-eq-ok}
use hamara_tunnel.Text.{trim_space}
use hamara_tunnel.Model.{
  Config, Offer, Response, role_outside, validate_offer, validate_response, check_response_material,
}
use hamara_tunnel.Token.{IsLawful, encode, to_upper}
use hamara_tunnel.Token.RoundTrip.{decode-encode}
use hamara_tunnel.Render.{TunnelEnds, ipip_ends}
use hamara_tunnel.App.{Services, offer_of, join_config, response_of, read_offer, read_response}

-- The same tunnel, from the other side.
abbrev pub mirror : TunnelEnds → TunnelEnds
mirror e = record {
  local_address = e.remote_address;
  remote_address = e.local_address;
  local_endpoint = e.remote_endpoint;
  remote_endpoint = e.local_endpoint;
}

eq_refl : (s : String) → (s == s) ≡ true
eq_refl s = (eq_iff s s).1 refl

-- Both sides of an IPIP link set up the same tunnel: for a gateway's configuration, the edge that
-- joins with its offer has the gateway's two ends swapped, once the gateway has taken the address from
-- which the edge answers as its peer.
pub ipip_ends-join_config :
    (g : Config) (wan local_ip time : String)
    → g.role ≡ role_outside
    → ipip_ends (join_config (offer_of g) wan local_ip time)
      ≡ mirror (ipip_ends (record g { peer_endpoint = local_ip }))
unfolding ipip_ends join_config offer_of
ipip_ends-join_config g wan local_ip time h = rw h refl

-- The response of an edge that joined with a gateway's offer always belongs to that gateway: the
-- gateway accepts it if and only if the keys or the address in it pass the check for the mode, and
-- the outcome of the check is then the same.
pub validate_response-response_of :
    (g : Config) (edge_public_key ssh_public_key edge_endpoint_ip : String) (r : Response)
    → r ≡ record (response_of (offer_of g)) {
      edge_public_key = edge_public_key;
      ssh_public_key = ssh_public_key;
      edge_endpoint_ip = edge_endpoint_ip;
    }
    → validate_response r g ≡ check_response_material r g.mode
unfolding validate_response response_of offer_of
validate_response-response_of g edge_public_key ssh_public_key edge_endpoint_ip r e =
    rw (e, eq_refl g.instance_id, eq_refl g.mode) refl

module _ (services : Services) where
  -- An offer gets through: the token of an offer that passes the gateway's own checks is read by the
  -- edge as that offer, where the packages keep to their documentation.
  pub read_offer-encode :
      (o : Offer) (token : String)
      → IsLawful services.offers o
      → encode services.offers "offer" o ≡ ok token
      → validate_offer services.pki o ≡ ok tt
      → read_offer services token ≡ ok o
  unfolding read_offer
  read_offer-encode o token lawful made valid =
      checked-eq-ok _ _ o
        (decode-encode services.offers o lawful "offer" "offer" token made
          (unfold to_upper trim_space in refl))
        valid

  -- A response gets through: the token of a response that answers a gateway's configuration is read
  -- by the gateway as that response, where the packages keep to their documentation.
  pub read_response-encode :
      (cfg : Config) (r : Response) (token : String)
      → IsLawful services.responses r
      → encode services.responses "response" r ≡ ok token
      → validate_response r cfg ≡ ok tt
      → read_response services cfg token ≡ ok r
  unfolding read_response
  read_response-encode cfg r token lawful made valid =
      checked-eq-ok _ _ r
        (decode-encode services.responses r lawful "response" "response" token made
          (unfold to_upper trim_space in refl))
        valid
