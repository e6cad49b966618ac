-- ===== src/Text/Padding.antt =====
-- White space behind a text makes no difference to its trimmed form, and what stands behind a
-- separator makes none to the text before it.
use Prim.Native.String.{[], ◌∷◌}
use text.Mathlib.TextLemmas.{nil-append, cons-append}
use hamara_tunnel.Prelude.{
  ℕ, ◌≡◌, refl, Char, String, ◌<>◌, Bool, true, Bool-cases, inl, inr, and_true,
}
use hamara_tunnel.Text.Chars.{is, all_chars, any_char, is_space}
use hamara_tunnel.Text.Trim.{trim_left, trim_right, trim_func, trim_space}
use hamara_tunnel.Text.Split.{before}

module _ (p : Char → Bool) where
  trim_left-all : (t : String) → all_chars p t ≡ true → trim_left p t ≡ []
  unfolding trim_left
  trim_left-all [] h = refl
  trim_left-all (c ∷ t) h =
      let (hc, ht) = and_true (p c) (all_chars p t) h in rw (hc, trim_left-all t ht)

  trim_right-all : (t : String) → all_chars p t ≡ true → trim_right p t ≡ []
  unfolding trim_right
  trim_right-all [] h = refl
  trim_right-all (c ∷ t) h =
      let (hc, ht) = and_true (p c) (all_chars p t) h in rw (trim_right-all t ht, hc)

  trim_right-append : (s t : String) → all_chars p t ≡ true → trim_right p (s <> t) ≡ trim_right p s
  unfolding trim_right
  trim_right-append [] t h = rw nil-append (trim_right-all t h)
  trim_right-append (c ∷ s) t h = rw (cons-append, trim_right-append s t h)

  -- Trimming drops what is appended, if all its characters are dropped.
  pub trim_func-append :
      (s t : String) → all_chars p t ≡ true → trim_func p (s <> t) ≡ trim_func p s
  unfolding trim_func
  trim_func-append [] t h = rw (nil-append, trim_left-all t h)
  trim_func-append (c ∷ s) t h = elim (Bool-cases (p c)) [
    | inl e ↦ rw (cons-append, e) (trim_func-append s t h)
    | inr e ↦ rw (cons-append, e, trim_right-append s t h)
  ]

pub trim_space-append :
    (s t : String) → all_chars is_space t ≡ true → trim_space (s <> t) ≡ trim_space s
unfolding trim_space
trim_space-append = trim_func-append is_space

-- The text before a separator, which a text holds, is the same whatever is appended.
pub before-append :
    (s t : String) (sep : ℕ) → any_char (is sep) s ≡ true → before (s <> t) sep ≡ before s sep
unfolding before
before-append [] t sep h = cc
before-append (c ∷ s) t sep h = elim (Bool-cases (is sep c)) [
  | inl e ↦ rw (cons-append, e)
  | inr e ↦ rw (cons-append, e, before-append s t sep (rw e at h))
]
