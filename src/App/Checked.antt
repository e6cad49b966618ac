-- ===== src/App/Checked.antt =====
-- A token that is refused changes nothing on the host.
use hamara_tunnel.Prelude.{◌≡◌, refl, String, Bool, true, false, not, all, ◌!=◌, ok, is_ok}
use hamara_tunnel.Model.{Config, role_outside}
use hamara_tunnel.System.{
  Op, run, output, combined, write_file, rename, mkdir_all, chmod, remove, remove_all, Trace, Env,
}
use hamara_tunnel.System.Keeps.{Keeps, Allows, Keeps-refuse_if, keeps_rules}
use hamara_tunnel.System.Fails.{Refuses, Refuses-bind, Refuses-lift_bind}
use hamara_tunnel.Platform.{require_root_ubuntu, config_exists, load_config, ConfigCodec}
use hamara_tunnel.App.{
  Services, read_trim, token_input, read_offer, join_link, read_response, accept,
}

-- Requests that may change the host: all commands, however their output is read, and changes of files.
abbrev pub changes : Op → Bool
changes (run name args) = true
changes (output name args) = true
changes (combined name args) = true
changes (write_file path content mode) = true
changes (rename old new) = true
changes (mkdir_all path mode) = true
changes (chmod path mode) = true
changes (remove path) = true
changes (remove_all path) = true
changes _ = false

-- No command has been run and no file has been changed.
abbrev pub untouched : Trace → Bool
untouched t = all (λ e. not (changes e.op)) t

abbrev Untouched : Trace → Type 0
Untouched t = untouched t ≡ true

reads : (op : Op) → changes op ≡ false → Allows Untouched op
reads op h = record { event = λ r t p. rw (h, p) refl }

Untouched-require_root_ubuntu : Keeps Untouched require_root_ubuntu
unfolding require_root_ubuntu
Untouched-require_root_ubuntu = search (keeps_rules, reads) depth 12

Untouched-config_exists : Keeps Untouched config_exists
unfolding config_exists
Untouched-config_exists = search (keeps_rules, reads)

Untouched-load_config : (codec : ConfigCodec) → Keeps Untouched (load_config codec)
unfolding load_config
Untouched-load_config codec = search (keeps_rules, reads)

Untouched-token_input : (raw_token file : String) → Keeps Untouched (token_input raw_token file)
unfolding token_input read_trim
Untouched-token_input raw_token file = search (keeps_rules, reads)

module _ (raw_token file : String) (env : Env) where
  -- The token that is given, or that the file holds when it is read.
  abbrev pub IsToken : String → Type 0
  IsToken value =
      (t : Trace) × (untouched t ≡ true) × ((token_input raw_token file env t).0 ≡ ok value)

module _ (services : Services) (env : Env) where
  -- The configuration that is stored when it is read.
  abbrev pub IsStored : Config → Type 0
  IsStored cfg =
      (t : Trace) × (untouched t ≡ true) × ((load_config services.configs env t).0 ≡ ok cfg)

module _ (services : Services) (raw_token file : String) (env : Env) where
  Refuses-join_link :
      ((value : String)
        → IsToken raw_token file env value
        → is_ok (read_offer services value) ≡ false)
      → Refuses Untouched env (join_link services raw_token file)
  unfolding join_link
  Refuses-join_link h = Refuses-bind _ _ Untouched-require_root_ubuntu (λ _ _ _ _.
      Refuses-bind _ _ Untouched-config_exists (λ _ exists _ _.
        Refuses-bind _ _ (Keeps-refuse_if exists _) (λ _ _ _ _.
          Refuses-bind _ _ (Untouched-token_input raw_token file)
            (λ t value p e. Refuses-lift_bind _ _ (h value (t, p, e))))))

  Refuses-accept :
      ((cfg : Config) (value : String)
        → IsStored services env cfg
        → IsToken raw_token file env value
        → is_ok (read_response services cfg value) ≡ false)
      → Refuses Untouched env (accept services raw_token file)
  unfolding accept
  Refuses-accept h = Refuses-bind _ _ Untouched-require_root_ubuntu (λ _ _ _ _.
      Refuses-bind _ _ (Untouched-load_config services.configs) (λ t cfg p e.
        Refuses-bind _ _ (Keeps-refuse_if (cfg.role != role_outside) _) (λ _ _ _ _.
          Refuses-bind _ _ (Untouched-token_input raw_token file)
            (λ t' value p' e'. Refuses-lift_bind _ _ (h cfg value (t, p, e) (t', p', e'))))))

-- A join with a token that is refused changes nothing: in every environment where each token that is
-- given, or read from the file before any change, is not decoded as an offer or fails the checks, from
-- a trace with no command and no change of a file the join leaves such a trace, and it fails. Commands
-- count whether they are run for their effect or for their output.
pub join_link-untouched :
    (services : Services) (raw_token file : String) (env : Env)
    → ((value : String)
        → IsToken raw_token file env value
        → is_ok (read_offer services value) ≡ false)
    → (t : Trace) → untouched t ≡ true
    → (untouched (join_link services raw_token file env t).1 ≡ true)
      × (is_ok (join_link services raw_token file env t).0 ≡ false)
join_link-untouched services raw_token file env h =
    (Refuses-join_link services raw_token file env h).at

-- An accept with a token that is refused changes nothing: in every environment where each token that
-- is given, or read from the file before any change, is not decoded as a response or does not answer
-- the stored configuration that is read, from a trace with no command and no change of a file the
-- accept leaves such a trace, and it fails. A response of another instance is refused so.
pub accept-untouched :
    (services : Services) (raw_token file : String) (env : Env)
    → ((cfg : Config) (value : String)
        → IsStored services env cfg
        → IsToken raw_token file env value
        → is_ok (read_response services cfg value) ≡ false)
    → (t : Trace) → untouched t ≡ true
    → (untouched (accept services raw_token file env t).1 ≡ true)
      × (is_ok (accept services raw_token file env t).0 ≡ false)
accept-untouched services raw_token file env h = (Refuses-accept services raw_token file env h).at
