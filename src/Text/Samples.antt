-- ===== src/Text/Samples.antt =====
-- The text functions at concrete texts.
use hamara_tunnel.Prelude.{◌≡◌, refl, [], ◌∷◌, some, true}
use hamara_tunnel.Prelude.Int.{pos, negsuc}
use hamara_tunnel.Text.Trim.{trim_space}
use hamara_tunnel.Text.Split.{split, fields, join}
use hamara_tunnel.Text.Search.{has_suffix}
use hamara_tunnel.Text.Number.{itoa, atoi}

trim_test : trim_space "  a b\n" ≡ "a b"
unfolding trim_space
trim_test = refl

split_test : split "a..b" b'.' ≡ "a" ∷ "" ∷ "b" ∷ []
unfolding split
split_test = refl

fields_test : fields "  dev  eth0 src 1.2.3.4 \n" ≡ "dev" ∷ "eth0" ∷ "src" ∷ "1.2.3.4" ∷ []
unfolding fields
fields_test = refl

join_test : join ("a" ∷ "b" ∷ []) ", " ≡ "a, b"
unfolding join
join_test = refl

itoa_test : itoa (pos 65535) ≡ "65535"
unfolding itoa
itoa_test = refl

atoi_test : atoi "-12" ≡ some (negsuc 11)
unfolding atoi
atoi_test = refl

suffix_test : has_suffix "127.0.0.1:443" ":443" ≡ true
unfolding has_suffix
suffix_test = refl
