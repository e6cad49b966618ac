-- ===== src/Platform/Runner.antt =====
-- `Runner`: the commands that the program runs.
use mathlib.Core.List.{[], ◌∷◌}
use hamara_tunnel.Prelude.{
  String, ◌<>◌, none, some, Result, ok, err, system, wrapped, error_text, List,
}
use hamara_tunnel.Text.{join, trim_space}
use hamara_tunnel.System.{run, output, Reply, Action, lift, perform, ◌>>=◌}

-- The command line in front of an error.
unfoldable pub command_line : String → List String → String
command_line name args = name <> (" " <> join args " ")

unfoldable pub run_result : String → List String → Reply → Result (Unit {0})
run_result name args r = elim r.error [
  | none ↦ ok tt
  | some e ↦ err (wrapped (command_line name args) e)
]

-- `Runner.Run`
unfoldable pub runner_run : String → List String → Action (Unit {0})
runner_run name args = do r ← perform (run name args); lift (run_result name args r)

-- The output without white space around it, or an error that ends in the error output. Where the
-- command fails the output is lost.
unfoldable pub output_result : String → List String → Reply → Result String
output_result name args r = elim r.error [
  | none ↦ ok (trim_space r.text)
  | some e ↦ err (
      wrapped (command_line name args)
        (system (error_text e <> (": " <> trim_space r.error_output))))
]

-- `Runner.Output`
unfoldable pub runner_output : String → List String → Action String
runner_output name args = do r ← perform (output name args); lift (output_result name args r)

-- `Runner.Bash`
unfoldable pub runner_bash : String → Action (Unit {0})
runner_bash script = runner_run "/bin/bash" ("-c" ∷ script ∷ [])
