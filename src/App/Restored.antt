-- ===== src/App/Restored.antt =====
-- The leak test takes the link down, and brings it up again whatever happens in between.
use mathlib.Core.List.{[], ◌∷◌}
use hamara_tunnel.Prelude.{
  ◌≡◌, refl, String, Bool, true, false, ◌&&◌, ◌||◌, not, List, any, ◌==◌, eq_iff, Result, ok, err,
  is_ok, Option, none, some, Option-cases, inl, inr,
}
use hamara_tunnel.Model.{Config}
use hamara_tunnel.System.{
  run, Reply, Trace, Env, Action, attempt, ignore, do_if, lift, pure, perform, continue, done,
  ◌>>=◌, ◌>>◌,
}
use hamara_tunnel.System.Keeps.{Keeps, Keeps-bind, Keeps-attempt, Keeps-pure}
use hamara_tunnel.System.Quiet.{systemctl_args, is_none, IsQuiet}
use hamara_tunnel.Platform.{runner_run, run_result, explained}
use hamara_tunnel.Platform.Quiet.{Keeps-runner_output_allowed, quiet_rules}
use hamara_tunnel.App.{
  service_state, curl, tunnel_unit, start_again, leak_checks, with_restart, stop_and_check,
  leak_test_of,
}

module _ (unit : String) where
  abbrev starts_in : Option (List String) → Bool
  starts_in (some (verb ∷ args)) = verb == "start" && any (λ u. u == unit) args
  starts_in _ = false

  abbrev stops_in : Option (List String) → Bool
  stops_in (some (verb ∷ args)) = verb == "stop" && any (λ u. u == unit) args
  stops_in _ = false

  -- After a trace the unit is down: it was stopped, and no start was asked for since.
  abbrev pub is_down : Trace → Bool
  is_down [] = false
  is_down (e ∷ t) =
      not (starts_in (systemctl_args e.op))
      && ((stops_in (systemctl_args e.op) && is_ok (done e.reply)) || is_down t)

  abbrev IsUp : Trace → Type 0
  IsUp t = is_down t ≡ false

  quiet-starts : (o : Option (List String)) → is_none o ≡ true → starts_in o ≡ false
  quiet-starts none h = refl
  quiet-starts (some args) h = cc

  quiet-stops : (o : Option (List String)) → is_none o ≡ true → stops_in o ≡ false
  quiet-stops none h = refl
  quiet-stops (some args) h = cc

  IsUp-IsQuiet : IsQuiet IsUp
  IsUp-IsQuiet = record {
    allows = λ op h. record {
      event = λ r t up.
          rw (quiet-starts (systemctl_args op) h, quiet-stops (systemctl_args op) h, up) refl;
    };
  }

  same_unit : (unit == unit) ≡ true
  same_unit = (eq_iff unit unit).1 refl

  -- Where an action returns a value, the unit is up.
  record Raises (m : Action (Unit {0})) : Type 0 where
    up : (env : Env) (t : Trace) → is_ok (m env t).0 ≡ true → IsUp (m env t).1

  Raises-continue :
      {A : Type 0} (r : Result A) (f : A → Action (Unit {0})) (env : Env) (t : Trace)
      → ((a : A) → Raises (f a))
      → is_ok (continue r f env t).0 ≡ true
      → IsUp (continue r f env t).1
  unfolding continue
  Raises-continue (ok a) f env t k h = (k a).up env t h
  Raises-continue (err e) f env t k h = cc

  Raises-bind :
      {A : Type 0} (m : Action A) (f : A → Action (Unit {0}))
      → ((a : A) → Raises (f a))
      → Raises (m >>= f)
  unfolding ◌>>=◌
  Raises-bind m f k = record { up = λ env t h. Raises-continue _ f env _ k h }

  start_again-IsUp : (env : Env) (t : Trace) → IsUp (start_again unit env t).1
  unfolding start_again runner_run perform lift ◌>>=◌ continue
  start_again-IsUp env t = rw same_unit refl

  Raises-restart : (s : String) → Raises (attempt (start_again unit) >>= λ r. lift (explained s r))
  unfolding attempt lift ◌>>=◌ continue
  Raises-restart s = record { up = λ env t h. start_again-IsUp env t }

  Raises-leak_checks : (source : String) → Raises (leak_checks source unit)
  unfolding leak_checks
  Raises-leak_checks source = search (Raises-bind, Raises-restart) depth 20

  IsUp-start_again : Keeps IsUp (start_again unit)
  IsUp-start_again = record { at = λ env t p. start_again-IsUp env t }

  IsUp-leak_checks : (source : String) → Keeps IsUp (leak_checks source unit)
  unfolding leak_checks curl
  IsUp-leak_checks source = search (quiet_rules, IsUp-IsQuiet, IsUp-start_again) depth 30 fits 4000

  -- The deferred start: it runs if the checks failed, and if they did not, the unit is up.
  IsUp-deferred :
      (r : Result (Unit {0})) (env : Env) (t : Trace)
      → (is_ok r ≡ true → IsUp t)
      → IsUp ((do_if (not (is_ok r)) (ignore (start_again unit)) >> lift r) env t).1
  unfolding do_if ignore lift ◌>>=◌ continue pure
  IsUp-deferred (ok a) env t h = h refl
  IsUp-deferred (err e) env t h = start_again-IsUp env t

  with_restart-IsUp :
      (checks : Action (Unit {0})) (env : Env) (t : Trace)
      → Raises checks
      → IsUp (with_restart unit checks env t).1
  unfolding with_restart attempt ◌>>=◌ continue
  with_restart-IsUp checks env t k =
      IsUp-deferred (checks env t).0 env (checks env t).1 (k.up env t)

  IsUp-stopped :
      (r : Reply) (n : Action (Unit {0})) (env : Env) (t : Trace)
      → IsUp t
      → ((t' : Trace) → IsUp (n env t').1)
      → IsUp
          (continue
            (run_result "systemctl" ("stop" ∷ unit ∷ []) r)
            (λ _. n)
            env
            (record { op = run "systemctl" ("stop" ∷ unit ∷ []); reply = r } ∷ t)).1
  unfolding continue run_result done
  IsUp-stopped r n env t p k = elim (Option-cases r.error) [
    | inl e ↦ rw e (k _)
    | inr (x, e) ↦ rw (e, same_unit, p) refl
  ]

  IsUp-stop_and_check : (source : String) → Keeps IsUp (stop_and_check source unit)
  unfolding stop_and_check runner_run perform lift ◌>>=◌ continue
  IsUp-stop_and_check source = record {
    at = λ env t p.
        IsUp-stopped (env t (run "systemctl" ("stop" ∷ unit ∷ []))) _ env t p
          (λ t'. with_restart-IsUp _ env t' (Raises-leak_checks source));
  }

IsUp-service_state : (unit name : String) → Keeps (λ t. is_down unit t ≡ false) (service_state name)
unfolding service_state
IsUp-service_state unit name =
    Keeps-bind _ _
      (Keeps-attempt _ (
        Keeps-runner_output_allowed "systemctl" ("is-active" ∷ name ∷ [])
          (record { event = λ r t up. up })))
      (λ r. Keeps-pure _)

IsUp-leak_test_of :
    (cfg : Config) → Keeps (λ t. is_down (tunnel_unit cfg) t ≡ false) (leak_test_of cfg)
unfolding leak_test_of curl
IsUp-leak_test_of cfg =
    search (quiet_rules, IsUp-IsQuiet, IsUp-service_state, IsUp-stop_and_check) depth 30 fits 4000

-- The leak test does not leave the link down: for every configuration, environment and trace, if the
-- unit of the tunnel was not stopped without a later request to start it before the test, it is not
-- after the test either, whatever the checks find and whichever request fails.
pub leak_test_of-restarts :
    (cfg : Config) (env : Env) (t : Trace)
    → is_down (tunnel_unit cfg) t ≡ false
    → is_down (tunnel_unit cfg) (leak_test_of cfg env t).1 ≡ false
leak_test_of-restarts cfg env t h = (IsUp-leak_test_of cfg).at env t h
