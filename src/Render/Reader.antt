-- ===== src/Render/Reader.antt =====
-- A reader of configurations with sections: headers in brackets, settings `key = value`, and comment
-- lines that begin with `#`. White space around a key or a value is not part of it.
use Prim.Native.String.{[], ◌∷◌}
use mathlib.Core.Path.{subst}
use mathlib.Core.List.{[], ◌∷◌}
use text.Mathlib.TextLemmas.{nil-append, cons-append, append_assoc}
use hamara_tunnel.Prelude.{
  ℕ, ◌≡◌, refl, String, ◌<>◌, Bool, true, false, ◌&&◌, not, List, Option, none, some, ◌==◌, eq_iff,
  if◌then◌else◌, Bool-cases, Option-cases, and_true, inl, inr, arith, ap, ◌∙◌,
}
use hamara_tunnel.Text.{is, cut, split, trim_space}

abbrev pub first_is : ℕ → String → Bool
first_is b [] = false
first_is b (c ∷ s) = is b c

pub data Line : Type 0 where
  nothing : Line
  header : String → Line
  setting : String → String → Line

unfoldable line_of_parts : String → Option (String × String) → Line
line_of_parts line none = if first_is b'[' line then header (trim_space line) else nothing
line_of_parts line (some (k, v)) =
    if first_is b'#' k then nothing else setting (trim_space k) (trim_space v)

unfoldable pub read_line : String → Line
unfolding line_of_parts
read_line line = line_of_parts line (cut line b'=')

-- A setting, and the section that it stands in.
pub record Setting : Type 0 where
  pub section : String
  pub key : String
  pub value : String

abbrev pub entry : String → String → String → Setting
entry section key value = record { section = section; key = key; value = trim_space value }

abbrev read_with : Line → String → (String → List Setting) → List Setting
read_with nothing section rest = rest section
read_with (header s) section rest = rest s
read_with (setting k v) section rest =
    record { section = section; key = k; value = v } ∷ rest section

unfoldable pub read_from : String → List String → List Setting
read_from section [] = []
read_from section (l ∷ ls) = read_with (read_line l) section (λ s. read_from s ls)

-- The settings of a file, in order.
unfoldable pub read_settings : String → List Setting
read_settings text = read_from "" (split text b'\n')

cut-append :
    (s v : String) (sep : ℕ) (a b : String)
    → cut s sep ≡ some (a, b)
    → cut (s <> v) sep ≡ some (a, b <> v)
unfolding cut
cut-append [] v sep a b h = cc
cut-append (c ∷ s) v sep a b h = elim (Bool-cases (is sep c)) [
  | inl e ↦ rw (cons-append, e) cc
  | inr e ↦ elim (Option-cases (cut s sep)) [
    | inl n ↦ cc
    | inr ((x, y), n) ↦ rw (cons-append, e, cut-append s v sep x y n) cc
  ]
]

trim_space-space : (s : String) → trim_space (" " <> s) ≡ trim_space s
unfolding trim_space
trim_space-space s = rw (cons-append " " [] s, nil-append s) refl

abbrev holds_setting : String → String → Option (String × String) → Bool
holds_setting k w none = false
holds_setting k w (some (a, b)) = not (first_is b'#' a) && (trim_space a == k && b == (" " <> w))

-- A line that begins with `p` holds a setting of `k`, whose value begins with `w`.
unfoldable pub begins_setting : String → String → String → Bool
begins_setting p k w = holds_setting k w (cut p b'=')

read_from-line :
    (section l : String) (ls : List String) (line : Line)
    → read_line l ≡ line
    → read_from section (l ∷ ls) ≡ read_with line section (λ s. read_from s ls)
unfolding read_from
read_from-line section l ls line h = rw h refl

read_from-setting :
    (section l k v : String) (ls : List String)
    → read_line l ≡ setting k v
    → read_from section (l ∷ ls)
      ≡ record { section = section; key = k; value = v } ∷ read_from section ls
read_from-setting section l k v ls h = read_from-line section l ls (setting k v) h

module _ (p k w v : String) where
  read_parts :
      (parts : Option (String × String))
      → cut p b'=' ≡ parts
      → holds_setting k w parts ≡ true
      → read_line (p <> v) ≡ setting k (trim_space (w <> v))
  unfolding read_line line_of_parts
  read_parts none e h = cc
  read_parts (some (a, b)) e h =
      let (comment, rest) =
        and_true (not (first_is b'#' a)) (trim_space a == k && b == (" " <> w)) h in
      let (key, value) = and_true (trim_space a == k) (b == (" " <> w)) rest in
      let plain : first_is b'#' a ≡ false = ground arith in
      rw (
        cut-append p v b'=' a b e,
        plain,
        (eq_iff b (" " <> w)).0 value,
        append_assoc " " w v,
        trim_space-space (w <> v),
        (eq_iff (trim_space a) k).0 key,
      )

  pub read_from-begins :
      (section : String) (ls : List String)
      → begins_setting p k w ≡ true
      → read_from section ((p <> v) ∷ ls) ≡ entry section k (w <> v) ∷ read_from section ls
  unfolding begins_setting
  read_from-begins section ls h = read_from-setting section (p <> v) k _ ls (read_parts _ refl h)

-- The lines hold the settings, from a section on.
pub record Reads (section : String) (ls : List String) (es : List Setting) : Type 0 where
  pub read : read_from section ls ≡ es

module _ {section : String} {ls : List String} {es : List Setting} where
  -- A line with a value that stands behind `p <> w`.
  pub Reads-begins :
      (p k w v : String)
      → begins_setting p k w ≡ true
      → Reads section ls es
      → Reads section ((p <> v) ∷ ls) (entry section k (w <> v) ∷ es)
  Reads-begins p k w v h r = record {
    read = read_from-begins p k w v section ls h ∙ ap (λ x. entry section k (w <> v) ∷ x) r.read;
  }

  pub Reads-entry :
      (p k v : String)
      → begins_setting p k "" ≡ true
      → Reads section ls es
      → Reads section ((p <> v) ∷ ls) (entry section k v ∷ es)
  Reads-entry p k v h r =
      subst (λ x. Reads section ((p <> v) ∷ ls) (entry section k x ∷ es)) (nil-append v)
        (Reads-begins p k "" v h r)

  -- A line that is known as a whole.
  pub Reads-line :
      (l k v : String)
      → read_line l ≡ setting k (trim_space v)
      → Reads section ls es
      → Reads section (l ∷ ls) (entry section k v ∷ es)
  Reads-line l k v h r = record {
    read = read_from-setting section l k _ ls h ∙ ap (λ x. entry section k v ∷ x) r.read;
  }

  pub Reads-nothing :
      (l : String) → read_line l ≡ nothing → Reads section ls es → Reads section (l ∷ ls) es
  Reads-nothing l h r = record { read = read_from-line section l ls nothing h ∙ r.read }

pub Reads-header :
    {section : String} {ls : List String} {es : List Setting} (l s : String)
    → read_line l ≡ header s
    → Reads s ls es
    → Reads section (l ∷ ls) es
Reads-header {section} {ls} l s h r = record {
  read = read_from-line section l ls (header s) h ∙ r.read;
}

pub read_settings-eq :
    (text : String) (es : List Setting) → Reads "" (split text b'\n') es → read_settings text ≡ es
unfolding read_settings
read_settings-eq text es r = r.read

pub Reads-end : (section : String) → Reads section ("" ∷ []) []
unfolding read_from read_line line_of_parts cut
Reads-end section = record { read = refl }
