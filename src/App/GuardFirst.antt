-- ===== src/App/GuardFirst.antt =====
-- The kill switch of the edge: in the routed modes no unit that carries the traffic is started while
-- the guard may be down.
use mathlib.Core.List.{[], ◌∷◌}
use hamara_tunnel.Prelude.{
  ◌≡◌, refl, String, Bool, true, false, ◌&&◌, ◌||◌, not, List, any, ◌==◌, is_ok, or_false,
  Bool-cases, inl, inr, none, some, Option, Option-cases,
}
use hamara_tunnel.Model.{
  Config, Offer, mode_ara, mode_wireguard, mode_ipip, mode_ssh_socks, is_routed_mode,
}
use hamara_tunnel.System.{
  Op, run, Reply, Event, Trace, Env, attempt, lift, continue, perform, done, ◌>>=◌, ◌>>◌, do_if,
}
use hamara_tunnel.System.Keeps.{
  Keeps, Allows, Keeps-bind, Keeps-pure, Keeps-perform, Keeps-ignore, Keeps-if, Keeps-lift, Reaches,
  Keeps-reached, keeps_rules,
}
use hamara_tunnel.System.Quiet.{systemctl_args, is_none, IsQuiet}
use hamara_tunnel.Platform.{runner_run, run_result, explained}
use hamara_tunnel.Platform.Quiet.{quiet_rules}
use hamara_tunnel.App.{
  Services, wg_unit, guard_service, enable, enable_guard, start_tunnel, activate_iran, bring_up,
  set_up_edge, join_link,
}
use hamara_tunnel.App.Quiet.{
  Keeps-token_input, Keeps-capture_if_routed, Keeps-check_iran_conflicts, Keeps-install_for_mode,
  Keeps-join_mode, Keeps-write_strict_guard, Keeps-apply_sysctl, Keeps-publish_response,
}

-- The units that carry the traffic of a routed link. The SSH SOCKS client carries what is sent to its
-- proxy, has no guard and is not one of them.
abbrev pub is_tunnel_unit : String → Bool
is_tunnel_unit u = u == "hamara-ara-client.service" || u == wg_unit || u == "hamara-ipip.service"

-- A verb that starts units, with a unit of the tunnel.
abbrev starts_in : Option (List String) → Bool
starts_in (some (verb ∷ args)) =
    not (verb == "stop" || verb == "disable") && any is_tunnel_unit args
starts_in _ = false

-- `systemctl` with any verb but those that stop, on a unit of a routed tunnel.
abbrev pub starts_tunnel : Op → Bool
starts_tunnel op = starts_in (systemctl_args op)

abbrev names_guard : List String → Bool
names_guard args = any (λ u. u == guard_service) args

abbrev pub stops_in : Option (List String) → Bool
stops_in (some (verb ∷ args)) =
    (verb == "stop" || verb == "disable" || verb == "restart") && names_guard args
stops_in _ = false

-- `systemctl` that names the guard, with a verb that may stop it.
abbrev pub stops_guard : Op → Bool
stops_guard op = stops_in (systemctl_args op)

abbrev raises_in : Option (List String) → Bool
raises_in (some (verb ∷ flag ∷ args)) = verb == "enable" && flag == "--now" && names_guard args
raises_in _ = false

-- The guard's unit was enabled and started.
abbrev pub raises_guard : Event → Bool
raises_guard e = raises_in (systemctl_args e.op) && is_ok (done e.reply)

-- After a trace the guard is up: it was raised, and not stopped since.
abbrev pub guard_up : Trace → Bool
guard_up [] = false
guard_up (e ∷ t) = raises_guard e || (not (stops_guard e.op) && guard_up t)

-- Whenever a routed tunnel was started, the guard was up.
abbrev pub guard_first : Trace → Bool
guard_first [] = true
guard_first (e ∷ t) = (not (starts_tunnel e.op) || guard_up t) && guard_first t

abbrev pub GuardFirst : Trace → Type 0
GuardFirst t = guard_first t ≡ true

abbrev pub Guarded : Trace → Type 0
Guarded t = (guard_first t ≡ true) × (guard_up t ≡ true)

quiet-starts : (o : Option (List String)) → is_none o ≡ true → starts_in o ≡ false
quiet-starts none h = refl
quiet-starts (some args) h = cc

GuardFirst-Allows : (op : Op) → starts_tunnel op ≡ false → Allows GuardFirst op
GuardFirst-Allows op h = record { event = λ r t p. rw h p }

pub GuardFirst-IsQuiet : IsQuiet GuardFirst
GuardFirst-IsQuiet = record {
  allows = λ op h. GuardFirst-Allows op (quiet-starts (systemctl_args op) h);
}

pub or_true : (b : Bool) → b || true ≡ true
or_true true = refl
or_true false = refl

-- With the guard up a unit may be started, and the guard stays up.
Guarded-Allows : (op : Op) → stops_guard op ≡ false → Allows Guarded op
Guarded-Allows op h = record {
  event = λ r t (first, up).
      (rw (up, first, or_true (not (starts_tunnel op))) refl, rw (h, up) (or_true _));
}

-- `systemctl enable --now` stops nothing.
pub Guarded-enable : (units : List String) → Keeps Guarded (enable units)
unfolding enable runner_run
Guarded-enable units = search (keeps_rules, Guarded-Allows)

Guarded-start_tunnel : (mode : String) → Keeps Guarded (start_tunnel mode)
unfolding start_tunnel
Guarded-start_tunnel mode = search (keeps_rules, Guarded-enable) depth 9

pub raised :
    (r : Reply) (s name : String) (args : List String)
    → is_ok (explained s (run_result name args r)) ≡ true
    → is_ok (done r) ≡ true
unfolding explained run_result done
raised r s name args h = elim (Option-cases r.error) [ inl e ↦ rw e | inr (x, e) ↦ cc ]

enable_guard-Reaches : Reaches GuardFirst Guarded enable_guard
unfolding enable_guard enable runner_run attempt perform lift ◌>>=◌ continue
enable_guard-Reaches = record {
  keeps = record { at = λ env t p. p };
  reached = λ env t p h. (p, rw (raised _ _ _ _ h));
}

pub GuardFirst-run :
    (name : String) (args : List String)
    → starts_tunnel (run name args) ≡ false
    → Keeps GuardFirst (runner_run name args)
unfolding runner_run
GuardFirst-run name args h =
    Keeps-bind _ _ (Keeps-perform (run name args) (GuardFirst-Allows (run name args) h))
      (λ r. Keeps-lift _)

-- Outside the routed modes no unit of the tunnel is started.
GuardFirst-start_tunnel :
    (mode : String) → is_routed_mode mode ≡ false → Keeps GuardFirst (start_tunnel mode)
unfolding start_tunnel enable
GuardFirst-start_tunnel mode h =
    let (h1, h2) = or_false (mode == mode_ara || mode == mode_wireguard) (mode == mode_ipip) h in
    let (h3, h4) = or_false (mode == mode_ara) (mode == mode_wireguard) h1 in
    rw (h2, h3, h4)
      (Keeps-if (mode == mode_ssh_socks) _ _
        (λ e. Keeps-ignore _ (GuardFirst-run "systemctl" _ refl)) (λ e. Keeps-pure tt))

GuardFirst-start :
    (mode : String)
    → Keeps GuardFirst (do_if (is_routed_mode mode) enable_guard >> start_tunnel mode)
GuardFirst-start mode = elim (Bool-cases (is_routed_mode mode)) [
  | inl e ↦
      unfold do_if in
      rw e (
        Keeps-reached (λ t h. h.0) enable_guard _ enable_guard-Reaches
          (λ _. Guarded-start_tunnel mode))
  | inr e ↦
      Keeps-bind _ _ (unfold do_if in rw e (Keeps-pure tt)) (λ _. GuardFirst-start_tunnel mode e)
]

GuardFirst-activate_iran : (cfg : Config) → Keeps GuardFirst (activate_iran cfg)
unfolding activate_iran
GuardFirst-activate_iran cfg =
    Keeps-bind _ _ (GuardFirst-run "systemctl" _ refl) (λ _. GuardFirst-start cfg.mode)

module _ (services : Services) where
  GuardFirst-bring_up : (cfg : Config) → Keeps GuardFirst (bring_up services cfg)
  unfolding bring_up
  GuardFirst-bring_up cfg = search (
    quiet_rules, GuardFirst-IsQuiet, Keeps-write_strict_guard, Keeps-apply_sysctl,
    GuardFirst-activate_iran,
  )

  GuardFirst-set_up_edge : (o : Offer) → Keeps GuardFirst (set_up_edge services o)
  unfolding set_up_edge
  GuardFirst-set_up_edge o =
      search
        (
          quiet_rules, GuardFirst-IsQuiet, Keeps-install_for_mode, Keeps-check_iran_conflicts,
          Keeps-capture_if_routed, Keeps-join_mode, GuardFirst-bring_up, Keeps-publish_response,
        )
        depth 30 fits 4000

  GuardFirst-join_link :
      (raw_token file : String) → Keeps GuardFirst (join_link services raw_token file)
  unfolding join_link
  GuardFirst-join_link raw_token file =
      search (quiet_rules, GuardFirst-IsQuiet, Keeps-token_input, GuardFirst-set_up_edge) depth 12

  -- Joining a link never has systemctl start the ARA client, the WireGuard interface or the IPIP unit
  -- while the guard may be down: for all services, tokens, environments and traces, if each systemctl
  -- command of the trace that may start one of these units came while the guard was up, that holds of
  -- the trace that the join leaves too, whether it succeeds or fails. The unit of the SSH SOCKS mode,
  -- which has no guard, and what a shell script does are not counted.
  pub join_link-guard_first :
      (raw_token file : String) (env : Env) (t : Trace)
      → guard_first t ≡ true
      → guard_first (join_link services raw_token file env t).1 ≡ true
  join_link-guard_first raw_token file env t h = (GuardFirst-join_link raw_token file).at env t h
