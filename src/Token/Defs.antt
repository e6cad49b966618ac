-- ===== src/Token/Defs.antt =====
-- `Encode` and `Decode`.
use Prim.Native.String.{[], ◌∷◌}
use mathlib.Core.List.{[], ◌∷◌}
use hamara_tunnel.Prelude.{
  ℕ, Char, String, ◌<>◌, ◌&&◌, not, List, ◌!=◌, if◌then◌else◌, take, Option, none, some, Result, ok,
  err, message, wrapped, ◌>>=◌, ◌>>◌, reject_if,
}
use hamara_tunnel.Text.{is, trim_space, split, equal_fold}
use hamara_tunnel.Encoding.{base64_encode, base64_decode, hex_encode}
use hamara_tunnel.Token.Packages.{Codec}

abbrev pub prefix : String
prefix = "HAMARA1"

-- The upper-case letter of a letter from a to z, as one character.
abbrev upper_char : Char → Char
upper_char c =
    if is b'a' c
    then "A"
    else if is b'b' c
    then "B"
    else if is b'c' c
    then "C"
    else if is b'd' c
    then "D"
    else if is b'e' c
    then "E"
    else if is b'f' c
    then "F"
    else if is b'g' c
    then "G"
    else if is b'h' c
    then "H"
    else if is b'i' c
    then "I"
    else if is b'j' c
    then "J"
    else if is b'k' c
    then "K"
    else if is b'l' c
    then "L"
    else if is b'm' c
    then "M"
    else if is b'n' c
    then "N"
    else if is b'o' c
    then "O"
    else if is b'p' c
    then "P"
    else if is b'q' c
    then "Q"
    else if is b'r' c
    then "R"
    else if is b's' c
    then "S"
    else if is b't' c
    then "T"
    else if is b'u' c
    then "U"
    else if is b'v' c
    then "V"
    else if is b'w' c
    then "W"
    else if is b'x' c
    then "X"
    else if is b'y' c
    then "Y"
    else if is b'z' c
    then "Z"
    else c

-- `strings.ToUpper` on ASCII text
unfoldable pub to_upper : String → String
to_upper [] = []
to_upper (c ∷ s) = upper_char c ∷ to_upper s

module _ {A : Type 0} (codec : Codec A) where
  open codec use {marshal, unmarshal, sha256}

  -- The first eight bytes of the digest, in hexadecimal.
  unfoldable pub checksum : String → String → String
  checksum kind body = hex_encode (take 8 (sha256 (kind <> ("." <> body))))

  -- The text of a token.
  unfoldable pub assemble : String → String → String
  assemble kind body = prefix <> ("." <> (kind <> ("." <> (body <> ("." <> checksum kind body)))))

  unfoldable pub encode : String → A → Result String
  encode kind value =
      let kind' = to_upper (trim_space kind) in
      do
        reject_if (kind' != "OFFER" && kind' != "RESPONSE") "token kind must be OFFER or RESPONSE"
        bytes ← marshal value
        ok (assemble kind' (base64_encode bytes))

  -- `json.Unmarshal` and the error around it.
  unfoldable pub unmarshal_payload : List ℕ → Result A
  unmarshal_payload bytes = elim (unmarshal bytes) [
    | ok value ↦ ok value
    | err e ↦ err (wrapped "invalid token payload" e)
  ]

  unfoldable pub decode_payload : Option (List ℕ) → Result A
  decode_payload none = err (wrapped "invalid token encoding" (message "illegal base64 data"))
  decode_payload (some bytes) = unmarshal_payload bytes

  -- The tests on the four parts of a token, and its payload.
  unfoldable pub decode_parts : List String → String → Result A
  decode_parts (mark ∷ kind' ∷ body ∷ sum ∷ []) kind = do
    reject_if (mark != prefix) "invalid Hamara token format"
    reject_if (kind' != kind) ("expected a " <> (kind <> (" token, got " <> kind')))
    reject_if (not (equal_fold sum (checksum kind' body)))
        "token checksum failed; the token may be truncated or modified"
    decode_payload (base64_decode body)
  decode_parts _ kind = err (message "invalid Hamara token format")

  unfoldable pub decode : String → String → Result A
  decode input expected_kind = decode_parts (split (trim_space input) b'.') (to_upper expected_kind)
