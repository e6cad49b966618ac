-- ===== src/Platform/Release.antt =====
-- `parseOSRelease` and `RequireRootUbuntu`.
use mathlib.Core.List.{[], ◌∷◌}
use hamara_tunnel.Prelude.{
  String, ◌<>◌, Bool, false, ◌&&◌, ◌||◌, not, List, none, some, eqb, ◌==◌, ◌!=◌, if◌then◌else◌,
  Result, ok, err, message, wrapped,
}
use hamara_tunnel.Text.{is, trim_space, trim_func, split, cut, has_prefix}
use hamara_tunnel.System.{
  read_file, operating_system, effective_uid, Reply, Action, lift, attempt, perform, ask, refuse_if,
  ◌>>=◌, ◌>>◌,
}

-- The Go map: a later entry stands in front of an earlier one.
abbrev pub Values : Type 0
Values = List (String × String)

-- `values[key]`, which is "" where the key is missing
unfoldable pub value_of : Values → String → String
value_of [] key = ""
value_of ((k, v) ∷ values) key = if k == key then v else value_of values key

-- `strings.Trim(s, "\"'")`
unfoldable pub trim_quotes : String → String
unfolding trim_func
trim_quotes = trim_func (λ c. is b'"' c || is b'\'' c)

-- One round of the loop, on a line without the white space around it.
unfoldable pub release_line : Values → String → Values
release_line values line =
    if line == "" || has_prefix line "#"
    then values
    else elim (cut line b'=') [ none ↦ values | some (k, v) ↦ (k, trim_quotes v) ∷ values ]

unfoldable pub release_lines : Values → List String → Values
release_lines values [] = values
release_lines values (line ∷ lines) = release_lines (release_line values (trim_space line)) lines

-- `parseOSRelease`; the empty line behind the last line feed adds nothing
unfoldable pub parse_os_release : String → Values
parse_os_release s = release_lines [] (split s b'\n')

-- The tests on the two values.
unfoldable pub check_release : Values → Result (Unit {0})
check_release values =
    let version = value_of values "VERSION_ID" in
    if value_of values "ID" != "ubuntu"
    then err
        (message ("Hamara v1 supports Ubuntu only; detected \"" <> (value_of values "ID" <> "\"")))
    else if version != "22.04" && version != "24.04"
    then err
        (message ("Hamara v1 supports Ubuntu 22.04 and 24.04; detected \"" <> (version <> "\"")))
    else ok tt

unfoldable pub is_root : Reply → Bool
is_root r = elim r.numbers [ [] ↦ false | n ∷ rest ↦ eqb n 0 ]

-- The error of `os.ReadFile`, with a text in front.
unfoldable pub explained {ℓ} : {A : Type ℓ} → String → Result A → Result A
explained s (ok a) = ok a
explained s (err e) = err (wrapped s e)

unfoldable pub require_root_ubuntu : Action (Unit {0})
require_root_ubuntu = do
  goos ← perform operating_system
  refuse_if (goos.text != "linux") (message "Hamara currently supports Linux only")
  user ← perform effective_uid
  refuse_if (not (is_root user))
      (message "Hamara needs root; run `hamara` from a sudo-enabled account or use a root shell")
  found ← attempt (ask (read_file "/etc/os-release"))
  release ← lift (explained "cannot read /etc/os-release" found)
  lift (check_release (parse_os_release release))
