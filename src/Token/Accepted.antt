-- ===== src/Token/Accepted.antt =====
-- What a token that is accepted looks like, whoever made it.
use mathlib.Core.List.{[], ◌∷◌}
use hamara_tunnel.Prelude.{
  ℕ, ◌≡◌, refl, String, Bool, true, false, not, List, Option, none, some, ◌!=◌, eq_iff, arith, ok,
  reject_if, reject_if-eq-ok, >>=-eq-ok,
}
use hamara_tunnel.Text.{trim_space, split, equal_fold}
use hamara_tunnel.Encoding.{base64_decode}
use hamara_tunnel.Token.Packages.{Codec}
use hamara_tunnel.Token.Defs.{
  prefix, to_upper, checksum, decode, decode_parts, decode_payload, unmarshal_payload,
}

-- The parts of a token of a kind, whose checksum fits its body and whose body holds the value.
pub record IsToken {A : Type 0} (codec : Codec A) (parts : List String) (kind : String) (value : A)
    : Type 0 where
  pub body : String
  pub sum : String
  pub bytes : List ℕ
  pub shape : parts ≡ prefix ∷ kind ∷ body ∷ sum ∷ []
  pub checked : equal_fold sum (checksum codec kind body) ≡ true
  pub decoded : base64_decode body ≡ some bytes
  pub payload : codec.unmarshal bytes ≡ ok value

equal_of_ne : (s t : String) → (s != t) ≡ false → s ≡ t
equal_of_ne s t h = ground (arith, eq_iff s t)

not-false : (b : Bool) → not b ≡ false → b ≡ true
not-false b h = ground arith

module _ {A : Type 0} (codec : Codec A) where
  payload-eq :
      (r : Option (List ℕ)) (value : A)
      → decode_payload codec r ≡ ok value
      → (bytes : List ℕ) × (r ≡ some bytes) × (codec.unmarshal bytes ≡ ok value)
  unfolding decode_payload unmarshal_payload
  payload-eq none value h = cc
  payload-eq (some bytes) value h = (bytes, refl, ground arith)

  parts-IsToken :
      (parts : List String) (kind : String) (value : A)
      → decode_parts codec parts kind ≡ ok value
      → IsToken codec parts kind value
  unfolding decode_parts
  parts-IsToken (mark ∷ kind' ∷ body ∷ sum ∷ []) kind value h =
      let (u, marked, h') = >>=-eq-ok (reject_if (mark != prefix) _) _ h in
      let (v, same_kind, h'') = >>=-eq-ok (reject_if (kind' != kind) _) _ h' in
      let (w, fits, loaded) =
        >>=-eq-ok (reject_if (not (equal_fold sum (checksum codec kind' body))) _) _ h'' in
      let (bytes, found, value_eq) = payload-eq (base64_decode body) value loaded in
      let e : mark ≡ prefix = equal_of_ne mark prefix (reject_if-eq-ok _ _ marked) in
      let e' : kind' ≡ kind = equal_of_ne kind' kind (reject_if-eq-ok _ _ same_kind) in
      record {
        body = body;
        sum = sum;
        bytes = bytes;
        shape = cc;
        checked = rw (← e') (not-false _ (reject_if-eq-ok _ _ fits));
        decoded = found;
        payload = value_eq;
      }
  parts-IsToken _ kind value h = cc

  -- Whatever is accepted has four parts behind white space: the mark, the kind that is expected, a
  -- body and its checksum. The body decodes to the value.
  pub decode-IsToken :
      (token expected : String) (value : A)
      → decode codec token expected ≡ ok value
      → IsToken codec (split (trim_space token) b'.') (to_upper expected) value
  unfolding decode
  decode-IsToken token expected value h = parts-IsToken _ (to_upper expected) value h
