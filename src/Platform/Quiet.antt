-- ===== src/Platform/Quiet.antt =====
-- The platform's operations leave the services alone, so they keep each invariant that does.
use mathlib.Core.List.{[], ◌∷◌}
use hamara_tunnel.Prelude.{◌≡◌, refl, ℕ, String, true, List}
use hamara_tunnel.Prelude.Int.{ℤ}
use hamara_tunnel.Model.{Config}
use hamara_tunnel.System.{Op, run, output, print, Trace, ask, call, say, perform}
use hamara_tunnel.System.Keeps.{
  Keeps, Allows, Keeps-pure, Keeps-lift, Keeps-fail, Keeps-attempt, Keeps-ignore, Keeps-bind,
  Keeps-perform, Keeps-ask, Keeps-call, Keeps-say, Keeps-refuse_if, Keeps-do_if, Keeps-if,
  Keeps-for_each, keeps_rules,
}
use hamara_tunnel.System.Quiet.{is_quiet, IsQuiet}
use hamara_tunnel.Platform.{
  runner_run, runner_output, runner_bash, put_file, install_packages, missing_packages,
  install_missing, detect_wan, is_port_listening, require_root_ubuntu, ensure_dirs, ensure_dir,
  config_exists, ConfigCodec, save_config, load_config,
}

pub Keeps-runner_output_allowed :
    {P : Trace → Type 0} (name : String) (args : List String)
    → Allows P (output name args)
    → Keeps P (runner_output name args)
unfolding runner_output
Keeps-runner_output_allowed name args a =
    Keeps-bind _ _ (Keeps-perform (output name args) a) (λ r. Keeps-lift _)

module _ {P : Trace → Type 0} (q : IsQuiet P) where
  pub Keeps-runner_run :
      (name : String) (args : List String)
      → is_quiet (run name args) ≡ true
      → Keeps P (runner_run name args)
  unfolding runner_run
  Keeps-runner_run name args h =
      Keeps-bind _ _ (Keeps-perform (run name args) (q.allows _ h)) (λ r. Keeps-lift _)

  pub Keeps-runner_output :
      (name : String) (args : List String)
      → is_quiet (output name args) ≡ true
      → Keeps P (runner_output name args)
  Keeps-runner_output name args h = Keeps-runner_output_allowed name args (q.allows _ h)

  pub Keeps-runner_bash : (script : String) → Keeps P (runner_bash script)
  unfolding runner_bash
  Keeps-runner_bash script = Keeps-runner_run "/bin/bash" _ refl

  pub Keeps-quiet_ask : (op : Op) → is_quiet op ≡ true → Keeps P (ask op)
  Keeps-quiet_ask op h = Keeps-ask op (q.allows op h)

  pub Keeps-quiet_call : (op : Op) → is_quiet op ≡ true → Keeps P (call op)
  Keeps-quiet_call op h = Keeps-call op (q.allows op h)

  pub Keeps-quiet_perform : (op : Op) → is_quiet op ≡ true → Keeps P (perform op)
  Keeps-quiet_perform op h = Keeps-perform op (q.allows op h)

  pub Keeps-quiet_say : (s : String) → Keeps P (say s)
  Keeps-quiet_say s = Keeps-say s (q.allows (print s) refl)

  pub Keeps-put_file : (path content : String) (mode : ℕ) → Keeps P (put_file path content mode)
  unfolding put_file
  Keeps-put_file path content mode = search (keeps_rules, q.allows)

  pub Keeps-ensure_dirs : Keeps P ensure_dirs
  unfolding ensure_dirs ensure_dir
  Keeps-ensure_dirs = search (keeps_rules, q.allows)

  pub Keeps-require_root_ubuntu : Keeps P require_root_ubuntu
  unfolding require_root_ubuntu
  Keeps-require_root_ubuntu = search (keeps_rules, q.allows) depth 12

  pub Keeps-config_exists : Keeps P config_exists
  unfolding config_exists
  Keeps-config_exists = search (keeps_rules, q.allows)

  Keeps-missing_packages : (packages : List String) → Keeps P (missing_packages packages)
  unfolding missing_packages
  Keeps-missing_packages [] = Keeps-pure []
  Keeps-missing_packages (p ∷ ps) =
      Keeps-bind _ _ (Keeps-quiet_perform _ refl)
        (λ r. Keeps-bind _ _ (Keeps-missing_packages ps) (λ missing. Keeps-pure _))

  Keeps-install_missing : (packages : List String) → Keeps P (install_missing packages)
  unfolding install_missing
  Keeps-install_missing [] = Keeps-pure tt
  Keeps-install_missing (p ∷ ps) = search (keeps_rules, Keeps-runner_run)

  pub Keeps-install_packages : (packages : List String) → Keeps P (install_packages packages)
  unfolding install_packages
  Keeps-install_packages packages =
      search (keeps_rules, Keeps-missing_packages, Keeps-install_missing)

  pub Keeps-detect_wan : Keeps P detect_wan
  unfolding detect_wan
  Keeps-detect_wan = search (keeps_rules, Keeps-runner_output)

  pub Keeps-is_port_listening : (proto : String) (port : ℤ) → Keeps P (is_port_listening proto port)
  unfolding is_port_listening
  Keeps-is_port_listening proto port = search (keeps_rules, Keeps-runner_output)

  pub Keeps-save_config : (codec : ConfigCodec) (cfg : Config) → Keeps P (save_config codec cfg)
  unfolding save_config
  Keeps-save_config codec cfg = search (keeps_rules, Keeps-put_file)

  pub Keeps-load_config : (codec : ConfigCodec) → Keeps P (load_config codec)
  unfolding load_config
  Keeps-load_config codec = search (keeps_rules, q.allows)

pub ruleset quiet_rules = (
  keeps_rules, Keeps-runner_run, Keeps-runner_output, Keeps-runner_bash, Keeps-quiet_ask,
  Keeps-quiet_call, Keeps-quiet_perform, Keeps-quiet_say, Keeps-put_file, Keeps-ensure_dirs,
  Keeps-require_root_ubuntu, Keeps-config_exists, Keeps-install_packages, Keeps-detect_wan,
  Keeps-is_port_listening, Keeps-save_config, Keeps-load_config,
)
