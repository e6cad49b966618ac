-- ===== src/Platform/Host.antt =====
-- `InstallPackages`, `DetectWAN`, `IsPortListening` and `CommandExists`.
use mathlib.Core.List.{[], ◌∷◌}
use hamara_tunnel.Prelude.{
  String, ◌<>◌, Bool, true, false, ◌||◌, not, List, none, some, ◌==◌, if◌then◌else◌, Result, ok,
  err, message, is_ok, any,
}
use hamara_tunnel.Prelude.Int.{ℤ}
use hamara_tunnel.Text.{itoa, split, fields, has_suffix, contains}
use hamara_tunnel.Net.{parse_ip}
use hamara_tunnel.System.{
  output, look_path, Reply, Action, pure, lift, attempt, perform, ask, ◌>>=◌, ◌>>◌,
}
use hamara_tunnel.Platform.Runner.{runner_run, runner_output}

-- A package is there if `dpkg-query` says so.
unfoldable pub is_installed : Reply → Bool
is_installed r = elim r.error [ none ↦ contains r.text "install ok installed" | some e ↦ false ]

unfoldable pub missing_packages : List String → Action (List String)
missing_packages [] = pure []
missing_packages (p ∷ ps) =
    let rest = missing_packages ps in
    do
      r ← perform (output "dpkg-query" ("-W" ∷ "-f=${Status}" ∷ p ∷ []))
      missing ← rest
      pure (if is_installed r then missing else p ∷ missing)

unfoldable pub install_missing : List String → Action (Unit {0})
install_missing [] = pure tt
install_missing (p ∷ ps) = do
  runner_run "apt-get" ("update" ∷ [])
  runner_run "apt-get" ("install" ∷ "-y" ∷ "--no-install-recommends" ∷ p ∷ ps)

unfoldable pub install_packages : List String → Action (Unit {0})
install_packages packages = do missing ← missing_packages packages; install_missing missing

-- The loop over the words of a route: the last `dev` and the last `src` count.
unfoldable pub wan_words : String → String → List String → String × String
wan_words dev src [] = (dev, src)
wan_words dev src (w ∷ []) = (dev, src)
wan_words dev src (w ∷ v ∷ ws) =
    wan_words (if w == "dev" then v else dev) (if w == "src" then v else src) (v ∷ ws)

unfoldable pub is_address : String → Bool
is_address s = elim (parse_ip s) [ none ↦ false | some ip ↦ true ]

unfoldable pub wan_result : String → String × String → Result (String × String)
wan_result out (dev, src) =
    if dev == "" || not (is_address src)
    then err (message ("could not determine WAN interface/source from: " <> out))
    else ok (dev, src)

-- The interface and the source address of the default route.
unfoldable pub detect_wan : Action (String × String)
detect_wan = do
  out ← runner_output "ip" ("-4" ∷ "route" ∷ "get" ∷ "1.1.1.1" ∷ [])
  lift (wan_result out (wan_words "" "" (fields out)))

-- The fourth word of a line ends in the port.
unfoldable pub listens : String → List String → Bool
listens needle (a ∷ b ∷ c ∷ d ∷ rest) = has_suffix d needle
listens needle _ = false

unfoldable pub any_listens : String → Result String → Bool
any_listens needle (ok out) = any (λ line. listens needle (fields line)) (split out b'\n')
any_listens needle (err e) = false

unfoldable pub is_port_listening : String → ℤ → Action Bool
is_port_listening proto port = do
  r ← attempt (runner_output "ss" ((if proto == "udp" then "-lunH" else "-ltnH") ∷ []))
  pure (any_listens (":" <> itoa port) r)

unfoldable pub command_exists : String → Action Bool
command_exists name = do r ← attempt (ask (look_path name)); pure (is_ok r)
