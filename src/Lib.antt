-- ===== src/Lib.antt =====
-- Hamara Tunnel sets up a routed link between two Ubuntu servers. The outside gateway makes an
-- offer, a token that is copied to the Iran edge by hand; the edge joins with it, starts its side
-- and answers with a response token, which the gateway accepts. A strict guard on the edge, a unit
-- of its own, keeps marked traffic from leaving by any other route while the tunnel is down.
--
-- Parts and files:
-- * Model (internal/model/model.go): the structs Config, Offer and Response with all their fields,
--   the constants, ValidateOffer and ValidateResponse. Types, Host, Material, Offers and Responses
--   hold the definitions; Accepted and Padding say what the checks see and what they do not see.
-- * Token (internal/token/token.go): Encode and Decode. Packages holds the parameter for JSON and
--   SHA-256.
-- * Render (internal/render/render.go): WireGuard, the systemd units, the shell scripts, the Xray
--   objects and the quoting. A file is the list of its lines. Shell has a reader of shell words,
--   Lines and Interface split a file into its lines, Reader reads sections and settings, Tables says
--   which settings the WireGuard configuration of each role is to have, and Settings compares the
--   two. The reader takes a comment to be a line of its own.
-- * Platform (internal/platform/platform.go): Runner, WriteFile, SaveConfig, LoadConfig, DetectWAN
--   and the rest. Atomic follows the files through the requests, Quiet says which operations leave
--   the services alone.
-- * App (internal/app/app.go): the commands. Names has defaults, paths and unit lists, Inputs the
--   prompts and settings, Install, Certificates, Ssh and Guard the steps that commands share; Menu,
--   Init, Join, Accept, Manage, LeakTest, Report and Uninstall are the commands Interactive,
--   InitOutside, Join, Accept, ManageLink, Logs, RepairGuards, ShowPairingToken, PrintXray,
--   LeakTest, Status, Doctor, ShowPaths and Uninstall. GuardFirst, GuardStays, Restored, Checked,
--   Agreement and Direct are about what the commands do over a whole run.
-- * System (the effects of all packages). A command is a function of an environment, which answers
--   each request and may look at all that has happened, and of the trace of requests and answers so
--   far, the newest first. It returns a value or an error, and the longer trace. Keeps, Fails and
--   Quiet have one rule for each way to build an action. The state of a unit is what the systemctl
--   commands of the program make it; scripts that a shell runs are texts that are not looked into.
-- * Prelude, Text, Net, Encoding: shared notation, and executable definitions of the functions of
--   Go's library that the program calls (strings, strconv, net.ParseIP, net.ParseCIDR, base64, hex).
--   Samples has concrete values.
--
-- How code becomes definitions: each Go function is a definition with its name in snake case; a
-- long function is cut at its blank lines and its switches into definitions that it calls. `return
-- err` is the error of the action, a call whose error is dropped is `ignore`, and the deferred
-- restart of LeakTest is `with_restart`. Slices are lists, Go's int is an integer that is compared
-- and printed and never computed with, a time is its text and the zero time is "".
--
-- Parameters: JSON (for the three structs), SHA-256, PEM, X.509, EC keys and the clock are
-- parameters (Codec, ConfigCodec, Pki), with the documented round trip of JSON for the value at
-- hand and digests of bytes as the only hypotheses (IsLawful). Nothing is assumed of the operating
-- system, of the commands that are run or of the user.
--
-- Bounds and fuel: all loops are recursion on a list or a text. Only the prompts that ask again
-- take fuel, the number of questions; they give none where it runs out. Digits of a number are
-- printed with the number itself as fuel, which is never less than its digits.
--
-- Simplifications: texts are sequences of code points, so an input that is not UTF-8 is left out.
-- Lengths that Go counts in bytes are compared on texts of one-byte characters. Texts of errors of
-- the Go library are abbreviated, and %q is used on texts with nothing to escape. Upper case is
-- that of ASCII letters, of which the kinds of tokens that the program passes are made. An address
-- is a 128-bit number, IPv4 in its mapped form.
--
-- Not modelled: cmd/hamara/main.go (flags and the restart under sudo), and the shell scripts
-- install.sh and scripts/.
pub mod Prelude
pub mod Text
pub mod Net
pub mod Encoding
pub mod Model
pub mod Token
pub mod Render
pub mod System
pub mod Platform
pub mod App
pub mod Samples
