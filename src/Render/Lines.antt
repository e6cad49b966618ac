-- ===== src/Render/Lines.antt =====
-- A file is read line by line: its lines are the ones that were written, where no value that is put
-- into them holds a line feed.
use Prim.Native.String.{[], ◌∷◌}
use mathlib.Core.List.{[], ◌∷◌}
use text.Mathlib.TextLemmas.{nil-append, cons-append}
use hamara_tunnel.Prelude.{
  ℕ, zero, suc, ◌+◌, ◌%◌, ◌/◌, ◌≡◌, refl, String, ◌<>◌, false, List, ◌++◌, All, Bool-cases, inl,
  inr, eqb, Option-cases, or_false,
}
use hamara_tunnel.Prelude.Int.{ℤ, pos, negsuc}
use hamara_tunnel.Text.{
  is, split, before, NoneOf, split-append, itoa, show_ℕ, digits, digit, any_char,
}
use hamara_tunnel.Net.{parse_ip}
use hamara_tunnel.Render.Quote.{unlines, host_address, format_host}

abbrev pub NoBreak : String → Type 0
NoBreak s = any_char (is b'\n') s ≡ false

pub NoBreak-append : (s t : String) → NoBreak s → NoBreak t → NoBreak (s <> t)
NoBreak-append [] t hs ht = rw nil-append ht
NoBreak-append (c ∷ s) t hs ht =
    let (hc, hs') = or_false (is b'\n' c) (any_char (is b'\n') s) hs in
    rw (cons-append, hc) (NoBreak-append s t hs' ht)

NoBreak-NoneOf : (s : String) → NoBreak s → NoneOf (is b'\n') s
NoBreak-NoneOf [] h = tt
NoBreak-NoneOf (c ∷ s) h =
    let (hc, hs) = or_false (is b'\n' c) (any_char (is b'\n') s) h in (hc, NoBreak-NoneOf s hs)

-- The text before the first line feed is the first line.
pub split_line :
    (l rest : String) → NoBreak l → split (l <> ("\n" <> rest)) b'\n' ≡ l ∷ split rest b'\n'
split_line l rest h =
    rw (cons-append "\n" [] rest, nil-append rest)
      (split-append b'\n' l "\n" rest (NoBreak-NoneOf l h) refl)

-- The lines of a file are the lines that it was made from, and an empty text behind the last line
-- feed.
pub split-unlines : (ls : List String) → All NoBreak ls → split (unlines ls) b'\n' ≡ ls ++ ("" ∷ [])
unfolding unlines
split-unlines [] h = unfold split in refl
split-unlines (l ∷ ls) (hl, h) = rw (split_line l _ hl, split-unlines ls h)

digit-NoBreak : (n : ℕ) → is b'\n' (digit n) ≡ false
unfolding digit
digit-NoBreak zero = refl
digit-NoBreak (suc zero) = refl
digit-NoBreak (suc (suc zero)) = refl
digit-NoBreak (suc (suc (suc zero))) = refl
digit-NoBreak (suc (suc (suc (suc zero)))) = refl
digit-NoBreak (suc (suc (suc (suc (suc zero))))) = refl
digit-NoBreak (suc (suc (suc (suc (suc (suc zero)))))) = refl
digit-NoBreak (suc (suc (suc (suc (suc (suc (suc zero))))))) = refl
digit-NoBreak (suc (suc (suc (suc (suc (suc (suc (suc zero)))))))) = refl
digit-NoBreak (suc (suc (suc (suc (suc (suc (suc (suc (suc n))))))))) = refl

digits-NoBreak : (f n : ℕ) (out : String) → NoBreak out → NoBreak (digits f n out)
unfolding digits
digits-NoBreak zero n out h = h
digits-NoBreak (suc f) n out h = elim (Bool-cases (eqb n 0)) [
  | inl e ↦ rw e h
  | inr e ↦ rw e (digits-NoBreak f (n / 10) _ (rw (digit-NoBreak (n % 10)) h))
]

show_ℕ-NoBreak : (n : ℕ) → NoBreak (show_ℕ n)
unfolding show_ℕ
show_ℕ-NoBreak n = elim (Bool-cases (eqb n 0)) [
  | inl e ↦ rw e
  | inr e ↦ rw e (digits-NoBreak n n "" refl)
]

-- A number is written with no line feed.
pub itoa-NoBreak : (z : ℤ) → NoBreak (itoa z)
unfolding itoa
itoa-NoBreak (pos n) = show_ℕ-NoBreak n
itoa-NoBreak (negsuc n) = NoBreak-append "-" (show_ℕ (n + 1)) refl (show_ℕ-NoBreak (n + 1))

before-NoBreak : (s : String) (sep : ℕ) → NoBreak s → NoBreak (before s sep)
unfolding before
before-NoBreak [] sep h = refl
before-NoBreak (c ∷ s) sep h =
    let (hc, hs) = or_false (is b'\n' c) (any_char (is b'\n') s) h in
    elim (Bool-cases (is sep c)) [ inl e ↦ rw e | inr e ↦ rw (e, hc) (before-NoBreak s sep hs) ]

pub host_address-NoBreak : (s : String) → NoBreak s → NoBreak (host_address s)
unfolding host_address
host_address-NoBreak s h = before-NoBreak s b'/' h

pub format_host-NoBreak : (s : String) → NoBreak s → NoBreak (format_host s)
unfolding format_host
format_host-NoBreak s h = elim (Option-cases (parse_ip s)) [
  | inl e ↦ rw (e, format_host) h
  | inr (ip, e) ↦ elim (Bool-cases (any_char (is b':') s)) [
    | inl c ↦
        rw (e, format_host, c) (NoBreak-append "[" (s <> "]") refl (NoBreak-append s "]" h refl))
    | inr c ↦ rw (e, format_host, c) h
  ]
]
