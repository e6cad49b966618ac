-- ===== src/System/Requests.antt =====
-- Requests to the operating system, and its answers. Nothing is assumed of the answers.
use hamara_tunnel.Prelude.{ℕ, String, List, Option, Error}

-- `run` passes the output of a command on, `output` keeps it apart from the error output, and
-- `combined` keeps both together. A file's mode is its number.
pub data Op : Type 0 where
  run : String → List String → Op
  output : String → List String → Op
  combined : String → List String → Op
  read_file : String → Op
  write_file : String → String → ℕ → Op
  rename : String → String → Op
  mkdir_all : String → ℕ → Op
  chmod : String → ℕ → Op
  remove : String → Op
  remove_all : String → Op
  stat : String → Op
  look_path : String → Op
  print : String → Op
  print_error : String → Op
  read_line : Op
  random : ℕ → Op
  now : Op
  sleep : ℕ → Op
  operating_system : Op
  effective_uid : Op

-- `text` is a file, a line, a time or the output of a command; `error_output` is what a command wrote
-- to its error output; `numbers` are random bytes, or the user's number.
pub record Reply : Type 0 where
  pub text : String
  pub error_output : String
  pub numbers : List ℕ
  pub error : Option Error

pub record Event : Type 0 where
  pub op : Op
  pub reply : Reply

-- What has happened, the latest event first.
abbrev pub Trace : Type 0
Trace = List Event

-- The operating system and the user: an answer to each request, which may depend on all that has
-- happened.
abbrev pub Env : Type 0
Env = Trace → Op → Reply
