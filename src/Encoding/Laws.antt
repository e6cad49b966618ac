-- ===== src/Encoding/Laws.antt =====
-- What is encoded is decoded to itself, and what the encoders write.
use Prim.Native.String.{[], ◌∷◌}
use mathlib.Core.List.{[], ◌∷◌}
use hamara_tunnel.Prelude.{
  ℕ, zero, suc, ◌+◌, ◌*◌, ◌/◌, ◌%◌, ◌<◌, ◌≡◌, refl, Char, String, Bool, true, false, ◌&&◌, ◌||◌,
  not, List, Option, none, some, arith, eqb, eqb_iff, and_true, All,
}
use hamara_tunnel.Text.{is, is_space, all_chars, index_of}
use hamara_tunnel.Encoding.Base64.{
  url_alphabet, sextet, base64_encode, drop_breaks, sextets, join_sextets, base64_decode, consed,
}
use hamara_tunnel.Encoding.Hex.{hex_char, hex_encode}

module _ (test : ℕ → Bool) where
  holds_below : ℕ → Bool
  holds_below zero = true
  holds_below (suc bound) = holds_below bound && test bound

  test_at : (bound i : ℕ) → holds_below bound ≡ true → i < bound → test i ≡ true
  unfolding holds_below
  test_at zero i all lt = absurd (omega arith)
  test_at (suc bound) i all lt = ground (arith, test_at bound i)

-- A list of bytes.
abbrev pub IsBytes : List ℕ → Type 0
IsBytes = All (λ b. b < 256)

is_index : ℕ → Option ℕ → Bool
is_index n none = false
is_index n (some m) = eqb m n

is_index-eq : (n : ℕ) (o : Option ℕ) → is_index n o ≡ true → o ≡ some n
unfolding is_index
is_index-eq n none h = cc
is_index-eq n (some m) h = ground (arith, eqb_iff m n)

sextet_table : holds_below (λ n. is_index n (index_of url_alphabet (sextet n))) 64 ≡ true
unfolding holds_below is_index index_of sextet
sextet_table = refl

index_of-sextet : (n : ℕ) → n < 64 → index_of url_alphabet (sextet n) ≡ some n
index_of-sextet n h = is_index-eq n _ (test_at _ 64 n sextet_table h)

-- A character that no part of a token holds by itself: white space or a full stop.
abbrev pub is_break : Char → Bool
is_break c = is_space c || is b'.' c

-- A text with neither white space nor full stops.
abbrev pub is_clean : String → Bool
is_clean = all_chars (λ c. not (is_break c))

sextet_clean_table : holds_below (λ n. not (is_break (sextet n))) 64 ≡ true
unfolding holds_below is_space sextet
sextet_clean_table = refl

hex_clean_table : holds_below (λ n. not (is_break (hex_char n))) 16 ≡ true
unfolding holds_below is_space hex_char
hex_clean_table = refl

sextet-is_clean : (n : ℕ) → n < 64 → not (is_break (sextet n)) ≡ true
sextet-is_clean n h = test_at _ 64 n sextet_clean_table h

hex_char-is_clean : (n : ℕ) → n < 16 → not (is_break (hex_char n)) ≡ true
hex_char-is_clean n h = test_at _ 16 n hex_clean_table h

pub hex_encode-is_clean : (bs : List ℕ) → IsBytes bs → is_clean (hex_encode bs) ≡ true
unfolding hex_encode
hex_encode-is_clean [] h = refl
hex_encode-is_clean (b ∷ bs) (hb, h) =
    rw (hex_char-is_clean (b / 16) (omega arith), hex_char-is_clean (b % 16) (omega arith))
      (hex_encode-is_clean bs h)

pub base64_encode-is_clean : (bs : List ℕ) → IsBytes bs → is_clean (base64_encode bs) ≡ true
unfolding base64_encode
base64_encode-is_clean [] h = refl
base64_encode-is_clean (a ∷ []) (ha, _) =
    rw (sextet-is_clean (a / 4) (omega arith), sextet-is_clean (a % 4 * 16) (omega arith))
base64_encode-is_clean (a ∷ b ∷ []) (ha, (hb, _)) = rw (
  sextet-is_clean (a / 4) (omega arith),
  sextet-is_clean (a % 4 * 16 + b / 16) (omega arith),
  sextet-is_clean (b % 16 * 4) (omega arith),
)
base64_encode-is_clean (a ∷ b ∷ c ∷ bs) (ha, (hb, (hc, h))) =
    rw
      (
        sextet-is_clean (a / 4) (omega arith),
        sextet-is_clean (a % 4 * 16 + b / 16) (omega arith),
        sextet-is_clean (b % 16 * 4 + c / 64) (omega arith),
        sextet-is_clean (c % 64) (omega arith),
      )
      (base64_encode-is_clean bs h)

not_break : (c : Char) → not (is_break c) ≡ true → (is b'\r' c || is b'\n' c) ≡ false
unfolding is_space
not_break c h = ground arith

drop_breaks-clean : (s : String) → is_clean s ≡ true → drop_breaks s ≡ s
unfolding drop_breaks
drop_breaks-clean [] h = refl
drop_breaks-clean (c ∷ s) h =
    let (hc, hs) = and_true (not (is_break c)) (is_clean s) h in
    rw (not_break c hc, drop_breaks-clean s hs)

sextets-cons :
    (n : ℕ) (s : String)
    → n < 64
    → sextets url_alphabet (sextet n ∷ s) ≡ consed n (sextets url_alphabet s)
unfolding sextets
sextets-cons n s h = rw (index_of-sextet n h, sextets)

-- The values of the characters of an encoded text.
values : List ℕ → List ℕ
values [] = []
values (a ∷ []) = (a / 4) ∷ (a % 4 * 16) ∷ []
values (a ∷ b ∷ []) = (a / 4) ∷ (a % 4 * 16 + b / 16) ∷ (b % 16 * 4) ∷ []
values (a ∷ b ∷ c ∷ bs) =
    (a / 4) ∷ (a % 4 * 16 + b / 16) ∷ (b % 16 * 4 + c / 64) ∷ (c % 64) ∷ values bs

sextets-encode :
    (bs : List ℕ) → IsBytes bs → sextets url_alphabet (base64_encode bs) ≡ some (values bs)
unfolding base64_encode values
sextets-encode [] h = unfold sextets in refl
sextets-encode (a ∷ []) (ha, _) =
    rw (sextets-cons (a / 4) _ (omega arith), sextets-cons (a % 4 * 16) _ (omega arith))
      (unfold sextets in refl)
sextets-encode (a ∷ b ∷ []) (ha, (hb, _)) =
    rw
      (
        sextets-cons (a / 4) _ (omega arith),
        sextets-cons (a % 4 * 16 + b / 16) _ (omega arith),
        sextets-cons (b % 16 * 4) _ (omega arith),
      )
      (unfold sextets in refl)
sextets-encode (a ∷ b ∷ c ∷ bs) (ha, (hb, (hc, h))) = rw (
  sextets-cons (a / 4) _ (omega arith),
  sextets-cons (a % 4 * 16 + b / 16) _ (omega arith),
  sextets-cons (b % 16 * 4 + c / 64) _ (omega arith),
  sextets-cons (c % 64) _ (omega arith),
  sextets-encode bs h,
)

join_sextets-values : (bs : List ℕ) → IsBytes bs → join_sextets (values bs) ≡ some bs
unfolding join_sextets values
join_sextets-values [] h = refl
join_sextets-values (a ∷ []) (ha, _) = ground arith
join_sextets-values (a ∷ b ∷ []) (ha, (hb, _)) = ground arith
join_sextets-values (a ∷ b ∷ c ∷ bs) (ha, (hb, (hc, h))) =
    rw (join_sextets-values bs h) (ground arith)

-- The unpadded URL form of bytes is decoded to the bytes.
pub base64_decode-encode : (bs : List ℕ) → IsBytes bs → base64_decode (base64_encode bs) ≡ some bs
unfolding base64_decode
base64_decode-encode bs h =
    rw (drop_breaks-clean _ (base64_encode-is_clean bs h), sextets-encode bs h, base64_decode)
      (join_sextets-values bs h)
