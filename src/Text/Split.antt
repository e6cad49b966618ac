-- ===== src/Text/Split.antt =====
-- `strings.Split`, `strings.SplitN` with 2, `strings.Fields`, `strings.Join`, and the part of a text
-- before a character.
use Prim.Native.String.{[], ◌∷◌}
use mathlib.Core.List.{[], ◌∷◌}
use hamara_tunnel.Prelude.{
  ℕ, Char, code, String, ◌<>◌, List, Option, none, some, eqb, if◌then◌else◌,
}
use hamara_tunnel.Text.Chars.{is_space}

-- A character in front of the first part.
unfoldable pub onto_first : Char → List String → List String
onto_first c [] = (c ∷ []) ∷ []
onto_first c (p ∷ ps) = (c ∷ p) ∷ ps

-- `strings.Split` at a one-character separator; one part at least
unfoldable pub split : String → ℕ → List String
unfolding onto_first
split [] sep = [] ∷ []
split (c ∷ s) sep =
    let parts = split s sep in if eqb (code c) sep then [] ∷ parts else onto_first c parts

-- `strings.IndexByte(s, sep)` with the two slices: the text before the first separator and the text
-- behind it, or `none` where there is no separator
unfoldable pub cut : String → ℕ → Option (String × String)
cut [] sep = none
cut (c ∷ s) sep =
    let rest : Option (String × String) = elim (cut s sep) [
      | none ↦ none
      | some (a, b) ↦ some (c ∷ a, b)
    ] in
    if eqb (code c) sep then some ([], s) else rest

-- The text before the first separator, or all of it.
unfoldable pub before : String → ℕ → String
before [] sep = []
before (c ∷ s) sep = if eqb (code c) sep then [] else c ∷ before s sep

-- The words of a text so far read from its right end: the flag says that the first word is open.
unfoldable pub fields_from : String → List String
unfolding onto_first is_space
fields_from [] = [] ∷ []
fields_from (c ∷ s) =
    let words = fields_from s in if is_space c then [] ∷ words else onto_first c words

unfoldable pub non_empty : List String → List String
non_empty [] = []
non_empty ([] ∷ ws) = non_empty ws
non_empty ((c ∷ w) ∷ ws) = (c ∷ w) ∷ non_empty ws

-- `strings.Fields`
unfoldable pub fields : String → List String
unfolding fields_from non_empty
fields s = non_empty (fields_from s)

-- `strings.Join`
unfoldable pub join : List String → String → String
join [] sep = []
join (p ∷ []) sep = p
join (p ∷ q ∷ ps) sep = p <> (sep <> join (q ∷ ps) sep)
