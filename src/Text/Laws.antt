-- ===== src/Text/Laws.antt =====
-- Laws of trimming and splitting.
use Prim.Native.String.{[], ◌∷◌}
use mathlib.Core.List.{[], ◌∷◌}
use text.Mathlib.TextLemmas.{nil-append, cons-append}
use hamara_tunnel.Prelude.{ℕ, ◌≡◌, refl, Char, String, ◌<>◌, Bool, true, false}
use hamara_tunnel.Text.Chars.{is, is_space}
use hamara_tunnel.Text.Trim.{trim_right, trim_func, trim_space}
use hamara_tunnel.Text.Split.{split}

module _ (p : Char → Bool) where
  abbrev pub NoneOf : String → Type 0
  NoneOf [] = Unit
  NoneOf (c ∷ s) = (p c ≡ false) × NoneOf s

  pub NoneOf-append : (s t : String) → NoneOf s → NoneOf t → NoneOf (s <> t)
  NoneOf-append [] t hs ht = rw nil-append ht
  NoneOf-append (c ∷ s) t (hc, hs) ht = rw cons-append (hc, NoneOf-append s t hs ht)

  trim_right-NoneOf : (s : String) → NoneOf s → trim_right p s ≡ s
  unfolding trim_right
  trim_right-NoneOf [] h = refl
  trim_right-NoneOf (c ∷ []) (hc, h) = rw hc
  trim_right-NoneOf (c ∷ d ∷ s) (hc, h) = rw (trim_right-NoneOf (d ∷ s) h)

  -- Trimming leaves a text with none of the characters alone.
  pub trim_func-NoneOf : (s : String) → NoneOf s → trim_func p s ≡ s
  unfolding trim_func
  trim_func-NoneOf [] h = refl
  trim_func-NoneOf (c ∷ s) (hc, h) = rw hc (trim_right-NoneOf (c ∷ s) (hc, h))

pub trim_space-NoneOf : (s : String) → NoneOf is_space s → trim_space s ≡ s
unfolding trim_space
trim_space-NoneOf = trim_func-NoneOf is_space

-- The text before the first separator is the first part.
pub split-append :
    (sep : ℕ) (p : String) (c : Char) (rest : String)
    → NoneOf (is sep) p
    → is sep c ≡ true
    → split (p <> (c ∷ rest)) sep ≡ p ∷ split rest sep
unfolding split
split-append sep [] c rest h e = rw (nil-append, e)
split-append sep (d ∷ p) c rest (hd, h) e = rw (cons-append, hd, split-append sep p c rest h e)

-- A text with no separator is one part.
pub split-NoneOf : (sep : ℕ) (p : String) → NoneOf (is sep) p → split p sep ≡ p ∷ []
unfolding split
split-NoneOf sep [] h = refl
split-NoneOf sep (d ∷ p) (hd, h) = rw (hd, split-NoneOf sep p h)
