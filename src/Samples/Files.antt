-- ===== src/Samples/Files.antt =====
-- Files and quoted words at concrete values.
use Prim.Native.String.{[]}
use mathlib.Core.List.{[]}
use hamara_tunnel.Prelude.{◌≡◌, refl, ◌<>◌, some, if◌then◌else◌, is_ok, get_elem?}
use hamara_tunnel.Text.{split, trim_space}
use hamara_tunnel.Prelude.Int.{pos}
use hamara_tunnel.Model.{Config, mode_ara}
use hamara_tunnel.Render.{unlines, shell_arg, wireguard, wireguard_lines}
use hamara_tunnel.Render.Shell.{read_word, plain, read_word-shell_arg}
use hamara_tunnel.Render.Interface.{split-wireguard-edge}
use hamara_tunnel.Render.Reader.{read_settings}
use hamara_tunnel.Render.Settings.{read_settings-wireguard}
use hamara_tunnel.Render.Tables.{link_settings}
use hamara_tunnel.Platform.{put_file}
use hamara_tunnel.Platform.Atomic.{files_after, put_file-target, put_file-others}
use hamara_tunnel.Samples.{env, edge}

written_example :
    files_after
      (put_file "/etc/hamara/offer.token" "secret" 0o600 env []).1
      "/etc/hamara/offer.token"
    ≡ (if is_ok (put_file "/etc/hamara/offer.token" "secret" 0o600 env []).0
        then some (record { text = "secret"; mode = some 0o600 })
        else files_after [] "/etc/hamara/offer.token")
written_example = put_file-target "/etc/hamara/offer.token" "secret" 0o600 env []

others_example :
    files_after (put_file "/etc/hamara/offer.token" "secret" 0o600 env []).1 "/etc/passwd"
    ≡ files_after [] "/etc/passwd"
others_example =
    put_file-others "/etc/hamara/offer.token" "secret" 0o600 env [] "/etc/passwd" (λ h. cc)
      (λ h. cc)

word_example : read_word plain (shell_arg "it's" <> " end") ≡ some ("it's", " end")
word_example = read_word-shell_arg "it's" " end" (unfold read_word in refl)

-- The edge of an ARA link.
abbrev ara_edge : Config
ara_edge = record edge { mode = mode_ara; local_relay_port = pos 51821 }

settings_example :
    read_settings (unlines (wireguard_lines ara_edge "k" "p" "q"))
    ≡ link_settings ara_edge "k" "p" "q"
settings_example =
    read_settings-wireguard ara_edge "k" "p" "q" (unlines (wireguard_lines ara_edge "k" "p" "q"))
      (unfold wireguard in refl)
      (record {
        gateway = refl;
        edge = refl;
        host = refl;
        private_line = unfold trim_space in refl;
        preshared_line = unfold trim_space in refl;
        peer_line = unfold trim_space in refl;
      })

-- An edge whose address brings a line of its own.
abbrev injected : Config
injected = record edge { edge_address = "10.75.0.2/30\nPostUp = id" }

injected_example :
    (get_elem? (split (unlines (wireguard_lines injected "k" "p" "q")) b'\n') 2
      ≡ some ("Address = " <> "10.75.0.2/30"))
    × (get_elem? (split (unlines (wireguard_lines injected "k" "p" "q")) b'\n') 3
        ≡ some "PostUp = id")
injected_example =
    split-wireguard-edge injected "k" "p" "q" (unlines (wireguard_lines injected "k" "p" "q"))
      "10.75.0.2/30" "PostUp = id" (unfold wireguard in refl) refl refl refl refl
