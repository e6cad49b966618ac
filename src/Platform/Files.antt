-- ===== src/Platform/Files.antt =====
-- `EnsureDirs`, `WriteFile`, `SaveConfig`, `LoadConfig`, `ConfigExists`, `ReadFirst`. The JSON form of
-- a configuration is a parameter.
use Prim.Native.String.{[], ◌∷◌}
use mathlib.Core.List.{[], ◌∷◌}
use hamara_tunnel.Prelude.{
  ℕ, String, ◌<>◌, Bool, List, if◌then◌else◌, Result, ok, err, message, is_ok,
}
use hamara_tunnel.Text.{is, any_char, join, trim_space}
use hamara_tunnel.Model.{Config}
use hamara_tunnel.System.{
  read_file, write_file, rename, mkdir_all, chmod, stat, Action, pure, fail, lift, attempt, ask,
  call, for_each, ◌>>=◌, ◌>>◌,
}
use hamara_tunnel.Platform.Release.{explained}

abbrev pub config_dir : String
config_dir = "/etc/hamara"

abbrev pub config_file : String
config_file = "/etc/hamara/config.json"

abbrev pub secrets_dir : String
secrets_dir = "/etc/hamara/secrets"

abbrev pub lib_dir : String
lib_dir = "/usr/local/lib/hamara"

abbrev pub state_dir : String
state_dir = "/var/lib/hamara"

abbrev dirs : List (String × ℕ)
dirs = (config_dir, 0o750) ∷ (secrets_dir, 0o700) ∷ (lib_dir, 0o755) ∷ (state_dir, 0o750) ∷ []

unfoldable pub ensure_dir : String × ℕ → Action (Unit {0})
ensure_dir (path, mode) = do call (mkdir_all path mode); call (chmod path mode)

unfoldable pub ensure_dirs : Action (Unit {0})
ensure_dirs = for_each dirs ensure_dir

-- `filepath.Dir` of an absolute path with no empty part: the text before the last slash
unfoldable pub dir_of : String → String
dir_of [] = []
dir_of (c ∷ s) = let rest = dir_of s in if any_char (is b'/') s then c ∷ rest else []

-- `WriteFile`: the content goes to a file beside the path, which then takes its place
unfoldable pub put_file : String → String → ℕ → Action (Unit {0})
put_file path content mode = do
  call (mkdir_all (dir_of path) 0o755)
  call (write_file (path <> ".tmp") content mode)
  call (chmod (path <> ".tmp") mode)
  call (rename (path <> ".tmp") path)

-- `json.MarshalIndent` and `json.Unmarshal` on a configuration.
pub record ConfigCodec : Type 0 where
  pub format : Config → Result String
  pub parse : String → Result Config

module _ (codec : ConfigCodec) where
  unfoldable pub save_config : Config → Action (Unit {0})
  save_config cfg = do
    content ← lift (codec.format cfg)
    put_file config_file (content <> "\n") 0o600

  unfoldable pub load_config : Action Config
  load_config = do
    content ← ask (read_file config_file)
    lift (explained "cannot parse /etc/hamara/config.json" (codec.parse content))

unfoldable pub config_exists : Action Bool
config_exists = do r ← attempt (ask (stat config_file)); pure (is_ok r)

-- The first file that can be read: its text, and its path.
unfoldable pub read_first_from : List String → List String → Action (String × String)
read_first_from paths [] = fail (message ("none of the files exist: " <> join paths ", "))
read_first_from paths (p ∷ ps) =
    let rest = read_first_from paths ps in
    do
      r ← attempt (ask (read_file p))
      elim r [ ok content ↦ pure (trim_space content, p) | err e ↦ rest ]

unfoldable pub read_first : List String → Action (String × String)
read_first paths = read_first_from paths paths
