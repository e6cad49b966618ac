-- ===== src/App/Inputs.antt =====
-- Files that are read, prompts, and the kernel settings of internal/app/app.go.
use Prim.Native.String.{[], ◌∷◌}
use mathlib.Core.List.{[], ◌∷◌}
use hamara_tunnel.Prelude.{
  ℕ, zero, suc, ◌+◌, ◌-◌, String, ◌<>◌, Bool, ◌&&◌, ◌||◌, List, Option, none, some, leb, ◌==◌, ◌!=◌,
  if◌then◌else◌, Result, ok, err, Error, message, error_text, length,
}
use hamara_tunnel.Prelude.Int.{pos, negsuc}
use hamara_tunnel.Text.{trim_space, itoa, atoi, before}
use hamara_tunnel.Encoding.{hex_encode}
use hamara_tunnel.Model.{Config}
use hamara_tunnel.System.{
  read_file, read_line, random, print_error, Reply, Action, pure, fail, lift, attempt, ignore,
  perform, ask, say, do_if, for_each, ◌>>=◌, ◌>>◌,
}
use hamara_tunnel.Platform.{runner_run}

unfoldable pub read_trim : String → Action String
read_trim path = do content ← ask (read_file path); pure (trim_space content)

-- The file's text, or "" where it cannot be read.
unfoldable pub or_empty : Result String → String
or_empty (ok s) = s
or_empty (err e) = ""

unfoldable pub read_raw : String → Action String
read_raw path = do r ← attempt (read_trim path); pure (or_empty r)

-- What the diagnostics say of a kernel setting.
unfoldable pub sysctl_text : String → String → String → String
sysctl_text path fallback value =
    if value == ""
    then fallback
    else if path == "/proc/sys/net/ipv4/ip_forward"
    then (if value == "1" then "OK (enabled)" else "FAIL (disabled)")
    else value

unfoldable pub read_sysctl : String → String → Action String
read_sysctl path fallback = do value ← read_raw path; pure (sysctl_text path fallback value)

unfoldable pub token_input : String → String → Action String
token_input value path =
    if trim_space value != ""
    then pure (trim_space value)
    else if path == ""
    then fail (message "provide a token with --offer/--response or --file")
    else read_trim path

-- The bytes are those that `rand.Read` put into the slice.
unfoldable pub hex_of : Reply → Result String
hex_of r = elim r.error [ none ↦ ok (hex_encode r.numbers) | some e ↦ err e ]

unfoldable pub random_hex : ℕ → Action String
random_hex n = do r ← perform (random n); lift (hex_of r)

-- `hostOnly`
unfoldable pub host_only : String → String
host_only s = before s b'/'

abbrev pub ip_forward_path : String
ip_forward_path = "/proc/sys/net/ipv4/ip_forward"

abbrev pub rp_filter_all_path : String
rp_filter_all_path = "/proc/sys/net/ipv4/conf/all/rp_filter"

abbrev pub rp_filter_default_path : String
rp_filter_default_path = "/proc/sys/net/ipv4/conf/default/rp_filter"

unfoldable pub capture_previous_sysctls : Config → Action Config
capture_previous_sysctls cfg = do
  forward ← read_raw ip_forward_path
  all ← read_raw rp_filter_all_path
  default ← read_raw rp_filter_default_path
  pure (record cfg {
    previous_ip_forward = forward;
    previous_rp_filter_all = all;
    previous_rp_filter_default = default;
  })

-- A kernel setting: its file, its key, the value that the program sets, and the value before.
pub record Setting : Type 0 where
  pub path : String
  pub key : String
  pub managed : String
  pub previous : String

unfoldable pub settings : Config → List Setting
settings cfg =
    record {
      path = ip_forward_path;
      key = "net.ipv4.ip_forward";
      managed = "1";
      previous = cfg.previous_ip_forward;
    }
    ∷ record {
      path = rp_filter_all_path;
      key = "net.ipv4.conf.all.rp_filter";
      managed = "2";
      previous = cfg.previous_rp_filter_all;
    }
    ∷ record {
      path = rp_filter_default_path;
      key = "net.ipv4.conf.default.rp_filter";
      managed = "2";
      previous = cfg.previous_rp_filter_default;
    }
    ∷ []

unfoldable pub restores : Setting → String → Bool
restores s current =
    current == s.managed && (s.previous == "0" || s.previous == "1" || s.previous == "2")

unfoldable pub restore_setting : Setting → Action (Unit {0})
restore_setting s = do
  current ← read_raw s.path
  do_if (restores s current)
      (ignore (runner_run "sysctl" ("-w" ∷ (s.key <> ("=" <> s.previous)) ∷ [])))

unfoldable pub restore_previous_sysctls : Config → Action (Unit {0})
restore_previous_sysctls cfg = for_each (settings cfg) restore_setting

-- The text in front of a prompt.
unfoldable pub prompt_text : String → String → String
prompt_text question default =
    if default != "" then question <> (" [" <> (default <> "]: ")) else question <> ": "

-- `errors.Is(err, io.EOF)`
unfoldable pub is_eof : Error → Bool
is_eof e = error_text e == "EOF"

-- The line that was typed; at the end of the input, what stands before it.
unfoldable pub line_of : Reply → Result String
line_of r = elim r.error [
  | none ↦ ok (trim_space r.text)
  | some e ↦ if is_eof e then ok (trim_space r.text) else err e
]

unfoldable pub or_default : String → String → String
or_default line default = if line == "" then default else line

unfoldable pub prompt : String → String → Action String
prompt question default = do
  say (prompt_text question default)
  r ← perform read_line
  line ← lift (line_of r)
  pure (or_default line default)

-- A number in a range, if the text is one.
unfoldable pub number_in : ℕ → ℕ → String → Option ℕ
number_in lo hi s = elim (atoi s) [
  | none ↦ none
  | some z ↦ elim z [ pos n ↦ if leb lo n && leb n hi then some n else none | negsuc n ↦ none ]
]

-- The loop of `promptInt`: `none` where the fuel, which bounds the number of questions, runs out.
unfoldable pub prompt_int : ℕ → String → ℕ → ℕ → ℕ → Action (Option ℕ)
prompt_int zero question default lo hi = pure none
prompt_int (suc fuel) question default lo hi =
    let again = prompt_int fuel question default lo hi in
    do
      value ← prompt question (itoa (pos default))
      elim (number_in lo hi value) [
        | some n ↦ pure (some n)
        | none ↦ do
          ignore (
              perform (
                print_error (
                  "Enter a number from "
                  <> (itoa (pos lo) <> (" to " <> (itoa (pos hi) <> ".\n"))))))
          again
      ]

unfoldable pub print_choices : ℕ → List String → Action (Unit {0})
print_choices i [] = pure tt
print_choices i (item ∷ items) =
    let rest = print_choices (i + 1) items in
    do say ("  " <> (itoa (pos i) <> (") " <> (item <> "\n")))); rest

-- The loop of `choose`.
unfoldable pub choose_loop : ℕ → ℕ → Action (Option ℕ)
choose_loop zero count = pure none
choose_loop (suc fuel) count =
    let again = choose_loop fuel count in
    do
      value ← prompt "Select" "1"
      elim (number_in 1 count value) [
        | some n ↦ pure (some (n - 1))
        | none ↦ do
          ignore
              (perform (print_error ("Enter a number from 1 to " <> (itoa (pos count) <> ".\n"))))
          again
      ]

unfoldable pub choose : ℕ → String → List String → Action (Option ℕ)
choose fuel question choices = do
  say (question <> "\n")
  print_choices 1 choices
  choose_loop fuel (length choices)
