-- ===== src/Net/Samples.antt =====
-- Addresses at concrete texts.
use hamara_tunnel.Prelude.{◌≡◌, refl, none, some}
use hamara_tunnel.Net.Address.{parse_ip}

v4_test : parse_ip "10.73.0.1" ≡ some 281470854299649
unfolding parse_ip
v4_test = refl

v4_zero_test : parse_ip "10.073.0.1" ≡ none
unfolding parse_ip
v4_zero_test = refl

v6_test : parse_ip "::1" ≡ some 1
unfolding parse_ip
v6_test = refl

v6_full_test : parse_ip "2001:db8::1" ≡ some 42540766411282592856903984951653826561
unfolding parse_ip
v6_full_test = refl

v6_mapped_test : parse_ip "::ffff:10.73.0.1" ≡ parse_ip "10.73.0.1"
unfolding parse_ip
v6_mapped_test = refl

v6_bad_test : parse_ip "1::2::3" ≡ none
unfolding parse_ip
v6_bad_test = refl
