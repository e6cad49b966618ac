-- ===== src/Token/RoundTrip.antt =====
-- A token is decoded to the value that it was made from.
use Prim.Native.String.{[], ◌∷◌}
use mathlib.Core.List.{[], ◌∷◌}
use text.Mathlib.TextPositions.{eq_refl}
use text.Mathlib.TextLemmas.{nil-append, cons-append}
use hamara_tunnel.Prelude.{
  ℕ, ◌≡◌, refl, String, ◌<>◌, true, false, ◌&&◌, not, List, ◌!=◌, eq_iff, and_true, arith, take, ok,
  >>=-eq-ok, reject_if, reject_if-eq-ok, ◌⊎◌, inl, inr, err, message, ◌≢◌,
}
use hamara_tunnel.Text.{
  is, is_space, trim_space, split, equal_fold, NoneOf, NoneOf-append, trim_space-NoneOf,
  split-append, split-NoneOf,
}
use hamara_tunnel.Encoding.{
  IsBytes, is_break, is_clean, base64_encode, hex_encode-is_clean, base64_encode-is_clean,
  base64_decode-encode,
}
use hamara_tunnel.Token.Packages.{Codec, IsLawful}
use hamara_tunnel.Token.Defs.{
  prefix, to_upper, checksum, assemble, encode, decode, decode_parts, decode_payload,
  unmarshal_payload,
}

clean-NoneOf_space : (s : String) → is_clean s ≡ true → NoneOf is_space s
clean-NoneOf_space [] h = tt
clean-NoneOf_space (c ∷ s) h =
    let (hc, hs) = and_true (not (is_break c)) (is_clean s) h in
    (ground arith, clean-NoneOf_space s hs)

clean-NoneOf_dot : (s : String) → is_clean s ≡ true → NoneOf (is b'.') s
clean-NoneOf_dot [] h = tt
clean-NoneOf_dot (c ∷ s) h =
    let (hc, hs) = and_true (not (is_break c)) (is_clean s) h in
    (ground arith, clean-NoneOf_dot s hs)

equal_fold_refl : (s : String) → equal_fold s s ≡ true
unfolding equal_fold
equal_fold_refl [] = refl
equal_fold_refl (c ∷ s) = rw (equal_fold_refl s) (ground arith)

take-IsBytes : (n : ℕ) (bs : List ℕ) → IsBytes bs → IsBytes (take n bs)
take-IsBytes Prim.Native.Nat.zero bs h = tt
take-IsBytes (Prim.Native.Nat.suc n) [] h = tt
take-IsBytes (Prim.Native.Nat.suc n) (b ∷ bs) (hb, h) = (hb, take-IsBytes n bs h)

dot-append : (s : String) → ("." <> s) ≡ "." ∷ s
dot-append s = rw (cons-append "." [] s, nil-append s)

split_at_dot :
    (p rest : String) → is_clean p ≡ true → split (p <> ("." <> rest)) b'.' ≡ p ∷ split rest b'.'
split_at_dot p rest h = rw dot-append (split-append b'.' p "." rest (clean-NoneOf_dot p h) refl)

space_free :
    (p rest : String)
    → is_clean p ≡ true
    → NoneOf is_space rest
    → NoneOf is_space (p <> ("." <> rest))
space_free p rest hp h =
    NoneOf-append is_space p _ (clean-NoneOf_space p hp)
      (NoneOf-append is_space "." rest (unfold is_space in (refl, tt)) h)

-- Four clean texts with full stops between them are split into themselves.
split-four :
    (a b c d : String)
    → is_clean a ≡ true
    → is_clean b ≡ true
    → is_clean c ≡ true
    → is_clean d ≡ true
    → split (trim_space (a <> ("." <> (b <> ("." <> (c <> ("." <> d))))))) b'.' ≡ a ∷ b ∷ c ∷ d ∷ []
split-four a b c d ha hb hc hd = rw (
  trim_space-NoneOf _
      (space_free a _ ha (space_free b _ hb (space_free c d hc (clean-NoneOf_space d hd)))),
  split_at_dot a _ ha,
  split_at_dot b _ hb,
  split_at_dot c d hc,
  split-NoneOf b'.' d (clean-NoneOf_dot d hd),
)

-- The kinds that `Encode` accepts are clean texts.
kind_cases :
    (k : String) → (k != "OFFER" && k != "RESPONSE") ≡ false → (k ≡ "OFFER") ⊎ (k ≡ "RESPONSE")
kind_cases k h = ground (arith, eq_iff k "OFFER", eq_iff k "RESPONSE")

kind-is_clean : (k : String) → (k != "OFFER" && k != "RESPONSE") ≡ false → is_clean k ≡ true
unfolding is_space
kind-is_clean k h = elim (kind_cases k h) [ inl e ↦ rw e | inr e ↦ rw e ]

module _ {A : Type 0} (codec : Codec A) (value : A) (L : IsLawful codec value) where
  decode_parts-assembled :
      (kind : String) (bytes : List ℕ)
      → codec.marshal value ≡ ok bytes
      → decode_parts codec
          (prefix ∷ kind ∷ base64_encode bytes ∷ checksum codec kind (base64_encode bytes) ∷ [])
          kind
        ≡ ok value
  unfolding decode_parts decode_payload unmarshal_payload
  decode_parts-assembled kind bytes made = rw (
    eq_refl kind,
    equal_fold_refl (checksum codec kind (base64_encode bytes)),
    base64_decode-encode bytes (L.encoded bytes made),
    L.decoded bytes made,
    decode_payload,
    unmarshal_payload,
  )

  split-assembled :
      (kind : String) (bytes : List ℕ)
      → is_clean kind ≡ true
      → IsBytes bytes
      → split (trim_space (assemble codec kind (base64_encode bytes))) b'.'
        ≡ prefix ∷ kind ∷ base64_encode bytes ∷ checksum codec kind (base64_encode bytes) ∷ []
  unfolding assemble checksum
  split-assembled kind bytes hk hb =
      split-four prefix kind (base64_encode bytes) _ (unfold is_space in refl) hk
        (base64_encode-is_clean bytes hb) (hex_encode-is_clean _ (take-IsBytes 8 _ (L.digest _)))

  -- A token that is made for a kind is decoded to the value it was made from, wherever that kind is
  -- expected.
  pub decode-encode :
      (kind expected token : String)
      → encode codec kind value ≡ ok token
      → to_upper (trim_space kind) ≡ to_upper expected
      → decode codec token expected ≡ ok value
  unfolding encode decode
  decode-encode kind expected token made same_kind =
      let (u, allowed, rest) = >>=-eq-ok (reject_if _ _) _ made in
      let (bytes, marshalled, assembled) = >>=-eq-ok (codec.marshal value) _ rest in
      let clean = kind-is_clean (to_upper (trim_space kind)) (reject_if-eq-ok _ _ allowed) in
      let text : assemble codec (to_upper (trim_space kind)) (base64_encode bytes) ≡ token = cc in
      rw
        (
          ← text,
          ← same_kind,
          split-assembled (to_upper (trim_space kind)) bytes clean (L.encoded bytes marshalled),
        )
        (decode_parts-assembled (to_upper (trim_space kind)) bytes marshalled)

  wrong_kind-parts :
      (kind expected body sum : String)
      → kind ≢ expected
      → decode_parts codec (prefix ∷ kind ∷ body ∷ sum ∷ []) expected
        ≡ err (message ("expected a " <> (expected <> (" token, got " <> kind))))
  unfolding decode_parts
  wrong_kind-parts kind expected body sum h = ground (arith, eq_iff kind expected)

  -- A token that is made for one kind is refused where another is expected, and the error names both
  -- kinds.
  pub decode-encode_ne :
      (kind expected token : String)
      → encode codec kind value ≡ ok token
      → to_upper (trim_space kind) ≢ to_upper expected
      → decode codec token expected
        ≡ err (
            message (
              "expected a "
              <> (to_upper expected <> (" token, got " <> to_upper (trim_space kind)))))
  unfolding encode decode
  decode-encode_ne kind expected token made other =
      let (u, allowed, rest) = >>=-eq-ok (reject_if _ _) _ made in
      let (bytes, marshalled, assembled) = >>=-eq-ok (codec.marshal value) _ rest in
      let clean = kind-is_clean (to_upper (trim_space kind)) (reject_if-eq-ok _ _ allowed) in
      let text : assemble codec (to_upper (trim_space kind)) (base64_encode bytes) ≡ token = cc in
      rw
        (
          ← text,
          split-assembled (to_upper (trim_space kind)) bytes clean (L.encoded bytes marshalled),
        )
        (wrong_kind-parts (to_upper (trim_space kind)) (to_upper expected) _ _ other)
