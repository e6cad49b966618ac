-- ===== src/Token/Packages.antt =====
-- The two services that a token needs: `crypto/sha256`, and `encoding/json` for one type of payload.
use hamara_tunnel.Prelude.{◌≡◌, ℕ, String, List, Result, ok}
use hamara_tunnel.Encoding.{IsBytes}

-- `marshal` is `json.Marshal`, `unmarshal` is `json.Unmarshal` into a zero value, and `sha256` gives
-- the digest of a text's bytes.
pub record Codec (A : Type 0) : Type 0 where
  pub marshal : A → Result (List ℕ)
  pub unmarshal : List ℕ → Result A
  pub sha256 : String → List ℕ

-- What the two packages document, for one value: a digest and the encoded value are bytes, and the
-- encoded value is decoded to the value.
pub record IsLawful {A : Type 0} (codec : Codec A) (value : A) : Type 0 where
  pub digest : (s : String) → IsBytes (codec.sha256 s)
  pub encoded : (bs : List ℕ) → codec.marshal value ≡ ok bs → IsBytes bs
  pub decoded : (bs : List ℕ) → codec.marshal value ≡ ok bs → codec.unmarshal bs ≡ ok value
