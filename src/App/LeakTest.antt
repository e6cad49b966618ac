-- ===== src/App/LeakTest.antt =====
-- `LeakTest`: the link is taken down, and traffic has to fail.
use Prim.Native.String.{[], ◌∷◌}
use mathlib.Core.List.{[], ◌∷◌}
use hamara_tunnel.Prelude.{
  String, ◌<>◌, ◌&&◌, ◌||◌, not, none, some, ◌==◌, ◌!=◌, if◌then◌else◌, Result, ok, err, message,
  error_text, is_ok,
}
use hamara_tunnel.Text.{trim_space, contains, itoa}
use hamara_tunnel.Model.{Config, role_iran, mode_ipip, is_routed_mode}
use hamara_tunnel.Render.{xray_mark}
use hamara_tunnel.System.{
  Op, combined, sleep, Reply, Action, lift, attempt, ignore, perform, say, refuse_if, do_if, ◌>>=◌,
  ◌>>◌,
}
use hamara_tunnel.Platform.{ConfigCodec, runner_run, runner_output, load_config, explained}
use hamara_tunnel.App.Names.{wg_unit, guard_service}
use hamara_tunnel.App.Inputs.{host_only}
use hamara_tunnel.App.Manage.{service_state}

-- A request through an interface or from a source address.
unfoldable pub curl : String → String → Op
curl seconds source =
    combined "curl"
      ("-4fsS" ∷ "--max-time" ∷ seconds ∷ "--interface" ∷ source ∷ "https://api.ipify.org" ∷ [])

unfoldable pub baseline : Reply → Result String
baseline r = elim r.error [
  | none ↦ ok (trim_space r.text)
  | some e ↦ err (
      message (
        "baseline tunnel request failed; fix the link before leak testing: "
        <> (error_text e <> (" (" <> (trim_space r.text <> ")")))))
]

-- The unit that is taken down.
unfoldable pub tunnel_unit : Config → String
tunnel_unit cfg = if cfg.mode == mode_ipip then "hamara-ipip.service" else wg_unit

unfoldable pub start_again : String → Action (Unit {0})
start_again unit = runner_run "systemctl" ("start" ∷ unit ∷ [])

-- The route of marked traffic: there is none, or it is refused.
unfoldable pub check_route : Result String → Result (Unit {0})
check_route (ok route) =
    if not (contains route "unreachable") && not (contains route "prohibit")
    then err
        (message ("CRITICAL: marked traffic found a route while the tunnel was down: " <> route))
    else ok tt
check_route (err e) = ok tt

-- A request that gets through is a leak.
unfoldable pub check_escape : Reply → Result (Unit {0})
check_escape r = elim r.error [
  | some e ↦ ok tt
  | none ↦ err (
      message
        ("CRITICAL: source-bound request escaped while tunnel was down via " <> trim_space r.text))
]

-- From the stop of the unit to its start.
unfoldable pub leak_checks : String → String → Action (Unit {0})
leak_checks source unit = do
  say "3. Testing policy route for Xray mark 72...\n"
  route ← attempt (runner_output "ip" ("route" ∷ "get" ∷ "1.1.1.1" ∷ "mark" ∷ itoa xray_mark ∷ []))
  lift (check_route route)
  say "   PASS: marked traffic has no fallback route.\n"
  say "4. Testing a source-bound HTTP request; failure is expected...\n"
  leak ← perform (curl "6" source)
  lift (check_escape leak)
  say "   PASS: source-bound traffic failed closed.\n"
  say "5. Restoring the tunnel...\n"
  restarted ← attempt (start_again unit)
  lift (explained "leak checks passed, but tunnel restart failed" restarted)

-- The deferred call: where the checks or the start fail, the unit is started.
unfoldable pub with_restart : String → Action (Unit {0}) → Action (Unit {0})
with_restart unit checks = do
  r ← attempt checks
  do_if (not (is_ok r)) (ignore (start_again unit))
  lift r

unfoldable pub stop_and_check : String → String → Action (Unit {0})
stop_and_check source unit = do
  runner_run "systemctl" ("stop" ∷ unit ∷ [])
  with_restart unit (leak_checks source unit)

unfoldable pub leak_test_of : Config → Action (Unit {0})
leak_test_of cfg = do
  refuse_if (cfg.role != role_iran || not (is_routed_mode cfg.mode))
      (message "strict leak testing is available on the routed Iran edge only")
  state ← service_state guard_service
  refuse_if (state != "active")
      (message "hamara-guard is not active; run `hamara repair` before testing")
  say "1. Verifying normal tunnel egress...\n"
  r ← perform (curl "12" (host_only cfg.edge_address))
  egress ← lift (baseline r)
  say ("   Tunnel egress: " <> (egress <> "\n"))
  say ("2. Stopping " <> (tunnel_unit cfg <> " while keeping hamara-guard active...\n"))
  stop_and_check (host_only cfg.edge_address) (tunnel_unit cfg)
  ignore (perform (sleep 2))
  say
      "Strict leak test: PASS. Also test a real 3x-ui client during a maintenance window because panel rule order is outside Hamara's control.\n"

unfoldable pub leak_test : ConfigCodec → Action (Unit {0})
leak_test codec = do cfg ← load_config codec; leak_test_of cfg
