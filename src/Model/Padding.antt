-- ===== src/Model/Padding.antt =====
-- What the checks of an offer do not see: white space behind the host, and whatever stands behind the
-- slash of a tunnel address.
use hamara_tunnel.Prelude.{ℕ, ◌≡◌, ◌<◌, String, ◌<>◌, true, ok, arith, some, ◌-◌, sym, ◌∙◌}
use native.Mathlib.Decide.{dec_lt}
use hamara_tunnel.Text.{is, is_space, all_chars, any_char, trim_space-append, before-append}
use hamara_tunnel.Net.{Network, parse_cidr, prefix_of}
use hamara_tunnel.Model.Types.{Offer, is_routed_mode}
use hamara_tunnel.Model.Host.{valid_endpoint_host, strip_prefix}
use hamara_tunnel.Model.Material.{Pki}
use hamara_tunnel.Model.Offers.{
  check_identity, check_routed, check_wireguard, check_ara, check_ssh_socks, check_ipip,
  validate_offer,
}
use hamara_tunnel.Model.Accepted.{InOneNetwork, validate_offer-OfferIsSound}

-- White space behind a host, line breaks too, does not change whether it is accepted.
pub valid_endpoint_host-append :
    (host blanks : String)
    → all_chars is_space blanks ≡ true
    → valid_endpoint_host (host <> blanks) ≡ valid_endpoint_host host
unfolding valid_endpoint_host
valid_endpoint_host-append host blanks h = rw (trim_space-append host blanks h)

strip_prefix-append :
    (s t : String) → any_char (is b'/') s ≡ true → strip_prefix (s <> t) ≡ strip_prefix s
unfolding strip_prefix
strip_prefix-append s t h = before-append s t b'/' h

-- Whatever is appended to an edge address that has a slash, the offer is judged as before.
pub validate_offer-edge_address :
    (pki : Pki) (o : Offer) (t : String)
    → any_char (is b'/') o.edge_address ≡ true
    → validate_offer pki (record o { edge_address = o.edge_address <> t }) ≡ validate_offer pki o
unfolding validate_offer check_routed check_identity check_wireguard check_ara check_ssh_socks
    check_ipip
validate_offer-edge_address pki o t h = rw (strip_prefix-append o.edge_address t h)

full_mask : (n ip : ℕ) → ¬ (n < 128) → prefix_of n ip ≡ ip
unfolding prefix_of
full_mask n ip h = let e : 128 - n ≡ 0 = omega arith in rw e (omega arith)

not_full :
    (network : Network) (gateway edge : ℕ)
    → InOneNetwork network gateway edge
    → ¬ (¬ (network.ones < 128))
not_full network gateway edge m h = m.distinct (
    sym (full_mask network.ones gateway h)
    ∙ (m.gateway_prefix ∙ sym m.edge_prefix)
    ∙ full_mask network.ones edge h)

-- The network of an accepted routed offer has room for two hosts: its mask is shorter than the whole
-- address.
pub validate_offer-mask :
    (pki : Pki) (o : Offer)
    → validate_offer pki o ≡ ok tt
    → is_routed_mode o.mode ≡ true
    → (base : ℕ) (network : Network) → parse_cidr o.tunnel_cidr ≡ some (base, network)
    → network.ones < 128
validate_offer-mask pki o h routed base network e =
    let sound = (validate_offer-OfferIsSound pki o h).routed routed in
    let same : sound.network ≡ network = cc (sound.cidr) in
    elim (dec_lt network.ones 128) [
      | yes p ↦ p
      | no p ↦ absurd (not_full network sound.gateway sound.edge (rw same at sound.members) p)
    ]
