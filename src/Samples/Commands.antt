-- ===== src/Samples/Commands.antt =====
-- The commands of the program on the concrete host.
use Prim.Native.String.{[], ◌∷◌}
use mathlib.Core.List.{[], ◌∷◌}
use hamara_tunnel.Encoding.{hex_encode, base64_decode, sextets, drop_breaks, join_sextets}
use hamara_tunnel.Token.{
  decode, decode_parts, to_upper, checksum, decode_payload, unmarshal_payload,
}
use hamara_tunnel.Prelude.{
  ok, some, ◌<◌, ◌≡◌, refl, true, false, is_ok, ◌==◌, String, if◌then◌else◌, checked,
}
use hamara_tunnel.Text.{trim_space, split, equal_fold, atoi, index_of}
use hamara_tunnel.Model.{Config, validate_response}
use hamara_tunnel.Platform.{load_config, explained}
use hamara_tunnel.System.{
  Op, Reply, Env, read_file, ask, text_of, continue, run, Trace, done, ◌>>=◌, say, ignore, pure,
  perform, lift,
}
use hamara_tunnel.App.{
  Services, token_input, read_trim, choose, join_link, accept, manage_link, leak_test, leak_test_of,
  tunnel_unit, read_offer, read_response, print_choices, choose_loop, prompt, line_of, number_in,
  or_default,
}
use hamara_tunnel.App.GuardFirst.{guard_first, guard_up, join_link-guard_first}
use hamara_tunnel.App.GuardStays.{manage_link-guard_up, leak_test-guard_up}
use hamara_tunnel.App.Restored.{is_down, leak_test_of-restarts}
use hamara_tunnel.App.Choices.{choose-bound}
use hamara_tunnel.App.Checked.{untouched, IsToken, IsStored, join_link-untouched, accept-untouched}
use hamara_tunnel.Samples.{
  services, edge_services, offer_token, response_token, env, edge, gateway, response, reply, answer,
  constant_codec,
}

-- The guard was raised.
abbrev raised : Trace
raised =
    record {
      op = run "systemctl" ("enable" ∷ "--now" ∷ "hamara-guard.service" ∷ []);
      reply = reply "";
    }
    ∷ []

guard_first_example : guard_first (join_link services offer_token "" env []).1 ≡ true
guard_first_example = join_link-guard_first services offer_token "" env [] refl

stop_example : guard_up (manage_link edge_services.configs "stop" env raised).1 ≡ true
unfolding done
stop_example = manage_link-guard_up edge_services.configs "stop" env raised refl

leak_test_guard_example : guard_up (leak_test edge_services.configs env raised).1 ≡ true
unfolding done
leak_test_guard_example = leak_test-guard_up edge_services.configs env raised refl

leak_test_example : is_down (tunnel_unit edge) (leak_test_of edge env []).1 ≡ false
leak_test_example = leak_test_of-restarts edge env [] refl

-- A host with a token, in a file, whose checksum does not fit.
abbrev broken_answer : Op → Reply
broken_answer (read_file path) =
    if path == "/root/offer.token" then reply "HAMARA1.OFFER.Bw.00\n" else answer (read_file path)
broken_answer op = answer op

abbrev broken_env : Env
broken_env t op = broken_answer op

refused_offer :
    (value : String)
    → IsToken "" "/root/offer.token" broken_env value
    → is_ok (read_offer services value) ≡ false
unfolding read_offer checked decode decode_parts split trim_space to_upper equal_fold checksum
    hex_encode token_input read_trim ask perform lift text_of ◌>>=◌ continue pure
refused_offer value (t, p, e) = let e' : "HAMARA1.OFFER.Bw.00" ≡ value = cc in rw (← e') refl

refused_offer_example :
    (untouched (join_link services "" "/root/offer.token" broken_env []).1 ≡ true)
    × (is_ok (join_link services "" "/root/offer.token" broken_env []).0 ≡ false)
refused_offer_example =
    join_link-untouched services "" "/root/offer.token" broken_env refused_offer [] refl

-- The gateway is given a response of another instance.
abbrev other_services : Services
other_services = record services {
  responses = constant_codec (record response { instance_id = "ffeeddccbbaa9988" });
}

stored : (cfg : Config) → IsStored other_services env cfg → gateway ≡ cfg
unfolding load_config ask perform lift text_of ◌>>=◌ continue explained
stored cfg (t, p, e) = cc

given : (value : String) → IsToken response_token "" env value → response_token ≡ value
unfolding token_input pure trim_space
given value (t, p, e) = cc

other_instance : is_ok (read_response other_services gateway response_token) ≡ false
unfolding read_response checked decode decode_parts split trim_space to_upper equal_fold checksum
    hex_encode decode_payload base64_decode sextets drop_breaks index_of join_sextets
    unmarshal_payload validate_response
other_instance = refl

refused_response :
    (cfg : Config) (value : String)
    → IsStored other_services env cfg
    → IsToken response_token "" env value
    → is_ok (read_response other_services cfg value) ≡ false
refused_response cfg value s g = rw (← stored cfg s, ← given value g) other_instance

refused_response_example :
    (untouched (accept other_services response_token "" env []).1 ≡ true)
    × (is_ok (accept other_services response_token "" env []).0 ≡ false)
refused_response_example =
    accept-untouched other_services response_token "" env refused_response [] refl

asked :
    (choose 1 "Which server is this?" ("Iran edge server" ∷ "Outside gateway server" ∷ []) env []).0
    ≡ ok (some 0)
unfolding choose ◌>>=◌ say ignore print_choices pure choose_loop prompt perform lift line_of
    number_in atoi or_default trim_space
asked = refl

choice_example : 0 < 2
choice_example =
    choose-bound 1 "Which server is this?" ("Iran edge server" ∷ "Outside gateway server" ∷ []) env
      [] 0 asked
