-- ===== src/App/GuardStays.antt =====
-- Starting, stopping and restarting a link, and the leak test, leave the guard up.
use mathlib.Core.List.{[], ◌∷◌}
use hamara_tunnel.Prelude.{
  ◌≡◌, refl, String, Bool, true, false, List, All, ◌==◌, if◌then◌else◌, Option, none, some,
}
use hamara_tunnel.Model.{Config, role_outside, mode_ara, mode_wireguard, mode_ipip, mode_ssh_socks}
use hamara_tunnel.System.{Op, run, output, Trace, Env, Action}
use hamara_tunnel.System.Keeps.{
  Keeps, Allows, Keeps-bind, Keeps-perform, Keeps-attempt, Keeps-pure, Keeps-ignore, Keeps-do_if,
  Keeps-lift, Keeps-for_each-All, Keeps-for_each,
}
use hamara_tunnel.System.Quiet.{systemctl_args, is_none, IsQuiet}
use hamara_tunnel.Platform.{runner_run, ConfigCodec}
use hamara_tunnel.Platform.Quiet.{Keeps-runner_output_allowed, quiet_rules}
use hamara_tunnel.App.{
  Units, guard_service, enable, managed_link_units, stop_unit, start_unit, stop_link, start_link,
  apply_action, manage, manage_link, service_state, leak_checks, with_restart, start_again,
  stop_and_check, leak_test_of, leak_test, tunnel_unit, curl,
}
use hamara_tunnel.App.GuardFirst.{stops_in, stops_guard, guard_up, or_true}

abbrev GuardUp : Trace → Type 0
GuardUp t = guard_up t ≡ true

quiet-stops : (o : Option (List String)) → is_none o ≡ true → stops_in o ≡ false
quiet-stops none h = refl
quiet-stops (some args) h = cc

GuardUp-Allows : (op : Op) → stops_guard op ≡ false → Allows GuardUp op
GuardUp-Allows op h = record { event = λ r t up. rw (h, up) (or_true _) }

GuardUp-IsQuiet : IsQuiet GuardUp
GuardUp-IsQuiet = record { allows = λ op h. GuardUp-Allows op (quiet-stops (systemctl_args op) h) }

GuardUp-run :
    (name : String) (args : List String)
    → stops_guard (run name args) ≡ false
    → Keeps GuardUp (runner_run name args)
unfolding runner_run
GuardUp-run name args h =
    Keeps-bind _ _ (Keeps-perform (run name args) (GuardUp-Allows (run name args) h))
      (λ r. Keeps-lift _)

-- A property of both branches holds of a conditional.
if-intro : {A : Type 0} (P : A → Type 0) (b : Bool) (x y : A) → P x → P y → P (if b then x else y)
if-intro P true x y px py = px
if-intro P false x y px py = py

abbrev OtherUnit : String → Type 0
OtherUnit u = (u == guard_service) ≡ false

abbrev SparesGuard : Units → Type 0
SparesGuard units = All OtherUnit units.stop

-- The guard is in no list of units that are stopped.
managed_link_units-SparesGuard : (cfg : Config) → SparesGuard (managed_link_units cfg)
unfolding managed_link_units
managed_link_units-SparesGuard cfg =
    if-intro SparesGuard (cfg.mode == mode_ara) _ _
      (if-intro SparesGuard (cfg.role == role_outside) _ _ (refl, (refl, tt)) (refl, (refl, tt)))
      (if-intro SparesGuard (cfg.mode == mode_wireguard) _ _
        (if-intro SparesGuard (cfg.role == role_outside) _ _ (refl, tt) (refl, tt))
        (if-intro SparesGuard (cfg.mode == mode_ipip) _ _
          (if-intro SparesGuard (cfg.role == role_outside) _ _ (refl, tt) (refl, tt))
          (if-intro SparesGuard (cfg.mode == mode_ssh_socks) _ _ (refl, tt) tt)))

GuardUp-stop :
    (unit : String) → OtherUnit unit → Keeps GuardUp (runner_run "systemctl" ("stop" ∷ unit ∷ []))
GuardUp-stop unit h = GuardUp-run "systemctl" ("stop" ∷ unit ∷ []) (rw h refl)

GuardUp-stop_unit : (unit : String) → OtherUnit unit → Keeps GuardUp (stop_unit unit)
unfolding stop_unit
GuardUp-stop_unit = GuardUp-stop

GuardUp-stop_units :
    (units : List String) → All OtherUnit units → All (λ u. Keeps GuardUp (stop_unit u)) units
GuardUp-stop_units [] h = tt
GuardUp-stop_units (u ∷ us) (hu, h) = (GuardUp-stop_unit u hu, GuardUp-stop_units us h)

GuardUp-start_link : (units : Units) → Keeps GuardUp (start_link units)
unfolding start_link start_unit enable
GuardUp-start_link units =
    Keeps-for_each units.start _ (λ u. GuardUp-run "systemctl" ("enable" ∷ "--now" ∷ u ∷ []) refl)

GuardUp-apply_action :
    (action : String) (units : Units)
    → SparesGuard units
    → Keeps GuardUp (apply_action action units)
unfolding apply_action stop_link
GuardUp-apply_action action units h =
    let stops = Keeps-for_each-All units.stop stop_unit (GuardUp-stop_units units.stop h) in
    search (quiet_rules, GuardUp-start_link, stops) depth 8

GuardUp-managed :
    (action : String) (cfg : Config) → Keeps GuardUp (apply_action action (managed_link_units cfg))
GuardUp-managed action cfg =
    GuardUp-apply_action action (managed_link_units cfg) (managed_link_units-SparesGuard cfg)

GuardUp-manage : (cfg : Config) (action : String) → Keeps GuardUp (manage cfg action)
unfolding manage
GuardUp-manage cfg action = search (quiet_rules, GuardUp-IsQuiet, GuardUp-managed) depth 10

GuardUp-manage_link :
    (codec : ConfigCodec) (action : String) → Keeps GuardUp (manage_link codec action)
unfolding manage_link
GuardUp-manage_link codec action = search (quiet_rules, GuardUp-IsQuiet, GuardUp-manage)

-- Start, stop and restart never take the guard down: for every stored configuration, action (also one
-- that is refused), environment and trace, if the guard is up before the command it is up after it.
pub manage_link-guard_up :
    (codec : ConfigCodec) (action : String) (env : Env) (t : Trace)
    → guard_up t ≡ true
    → guard_up (manage_link codec action env t).1 ≡ true
manage_link-guard_up codec action env t h = (GuardUp-manage_link codec action).at env t h

GuardUp-service_state : (name : String) → Keeps GuardUp (service_state name)
unfolding service_state
GuardUp-service_state name =
    let asks =
      Keeps-runner_output_allowed "systemctl" ("is-active" ∷ name ∷ [])
        (GuardUp-Allows (output "systemctl" ("is-active" ∷ name ∷ [])) refl) in
    Keeps-bind _ _ (Keeps-attempt _ asks) (λ r. Keeps-pure _)

GuardUp-start_again : (unit : String) → Keeps GuardUp (start_again unit)
unfolding start_again
GuardUp-start_again unit = GuardUp-run "systemctl" ("start" ∷ unit ∷ []) refl

GuardUp-leak_checks : (source unit : String) → Keeps GuardUp (leak_checks source unit)
unfolding leak_checks curl
GuardUp-leak_checks source unit =
    search (quiet_rules, GuardUp-IsQuiet, GuardUp-start_again) depth 30 fits 4000

tunnel_unit-OtherUnit : (cfg : Config) → OtherUnit (tunnel_unit cfg)
unfolding tunnel_unit
tunnel_unit-OtherUnit cfg = if-intro OtherUnit (cfg.mode == mode_ipip) _ _ refl refl

GuardUp-with_restart :
    (unit : String) (checks : Action (Unit {0}))
    → Keeps GuardUp checks
    → Keeps GuardUp (with_restart unit checks)
unfolding with_restart
GuardUp-with_restart unit checks k = Keeps-bind _ _ (Keeps-attempt checks k) (λ r.
    Keeps-bind _ _ (Keeps-do_if _ _ (λ _. Keeps-ignore _ (GuardUp-start_again unit)))
      (λ _. Keeps-lift r))

GuardUp-stop_and_check :
    (source unit : String) → OtherUnit unit → Keeps GuardUp (stop_and_check source unit)
unfolding stop_and_check
GuardUp-stop_and_check source unit h =
    Keeps-bind _ _ (GuardUp-stop unit h)
      (λ _. GuardUp-with_restart unit _ (GuardUp-leak_checks source unit))

GuardUp-leak_test_of : (cfg : Config) → Keeps GuardUp (leak_test_of cfg)
unfolding leak_test_of curl
GuardUp-leak_test_of cfg =
    search
      (
        quiet_rules, GuardUp-IsQuiet, GuardUp-service_state, GuardUp-stop_and_check,
        tunnel_unit-OtherUnit,
      )
      depth 30 fits 4000

GuardUp-leak_test : (codec : ConfigCodec) → Keeps GuardUp (leak_test codec)
unfolding leak_test
GuardUp-leak_test codec = search (quiet_rules, GuardUp-IsQuiet, GuardUp-leak_test_of)

-- The leak test never takes the guard down: for every stored configuration, environment and trace,
-- whatever the checks find, if the guard is up before the test it is up after it.
pub leak_test-guard_up :
    (codec : ConfigCodec) (env : Env) (t : Trace)
    → guard_up t ≡ true
    → guard_up (leak_test codec env t).1 ≡ true
leak_test-guard_up codec env t h = (GuardUp-leak_test codec).at env t h
