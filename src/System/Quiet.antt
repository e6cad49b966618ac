-- ===== src/System/Quiet.antt =====
-- Requests that leave the services alone: all but `systemctl`.
use hamara_tunnel.Prelude.{
  ◌≡◌, String, Bool, true, false, List, ◌==◌, if◌then◌else◌, Option, none, some,
}
use hamara_tunnel.System.Requests.{Op, run, output, combined, Trace}
use hamara_tunnel.System.Keeps.{Allows}

-- The arguments of `systemctl`, if that is the command, however its output is read. The text of a
-- script that a shell runs is not looked at.
abbrev pub systemctl_args : Op → Option (List String)
systemctl_args (run name args) = if name == "systemctl" then some args else none
systemctl_args (output name args) = if name == "systemctl" then some args else none
systemctl_args (combined name args) = if name == "systemctl" then some args else none
systemctl_args _ = none

abbrev pub is_none : Option (List String) → Bool
is_none none = true
is_none (some args) = false

abbrev pub is_quiet : Op → Bool
is_quiet op = is_none (systemctl_args op)

-- An invariant that every such request keeps.
pub record IsQuiet (P : Trace → Type 0) : Type 0 where
  pub allows : (op : Op) → is_quiet op ≡ true → Allows P op
