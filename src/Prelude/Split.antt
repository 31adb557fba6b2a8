-- ===== src/Prelude/Split.antt =====
-- `strings.Split`, `strings.Contains`, `strings.CutPrefix` and `strings.ReplaceAll`.
use Prim.Native.Char.{Char, code}
use Prim.Native.Nat.{ℕ, zero, suc}
use Prim.Native.String.{String, ◌++◌ as ◌<>◌}
use mathlib.Core.Bool.{Bool, true, false, ◌&&◌, ◌||◌}
use mathlib.Core.Option.{Option, none, some}
use mathlib.Core.List.{List, [], ◌∷◌}
use text.Mathlib.Text.{starts_with}
use pepin.Prelude.Tests.{if◌then◌else◌, nat_eq}
use pepin.Prelude.Texts.{◌==◌}

abbrev push_head : Char → List String → List String
push_head c [] = String.◌∷◌ c "" ∷ []
push_head c (w ∷ ws) = String.◌∷◌ c w ∷ ws

-- At one character, by its code.
unfoldable pub split_char : ℕ → String → List String
split_char sep String.[] = "" ∷ []
split_char sep (String.◌∷◌ c s) =
    let rest = split_char sep s in if nat_eq (code c) sep then "" ∷ rest else push_head c rest

-- At `||`.
unfoldable pub split_bars : String → List String
split_bars String.[] = "" ∷ []
split_bars (String.◌∷◌ a String.[]) = String.◌∷◌ a "" ∷ []
split_bars (String.◌∷◌ a (String.◌∷◌ b s)) =
    let behind = split_bars s in
    let rest = split_bars (String.◌∷◌ b s) in
    if nat_eq (code a) b'|' && nat_eq (code b) b'|' then "" ∷ behind else push_head a rest

-- For a `sub` that is not empty.
unfoldable pub contains : String → String → Bool
contains String.[] sub = false
contains (String.◌∷◌ c s) sub = starts_with (String.◌∷◌ c s) sub || contains s sub

-- `strings.CutPrefix(s, prefix)`
unfoldable pub cut_prefix : String → String → Option String
cut_prefix s String.[] = some s
cut_prefix String.[] (String.◌∷◌ p prefix) = none
cut_prefix (String.◌∷◌ c s) (String.◌∷◌ p prefix) =
    let rest = cut_prefix s prefix in if nat_eq (code c) (code p) then rest else none

-- `strings.CutSuffix(s, suffix)`, for a `suffix` that is not empty.
unfoldable pub cut_suffix : String → String → Option String
cut_suffix String.[] suffix = none
cut_suffix (String.◌∷◌ c s) suffix =
    let rest = cut_suffix s suffix in
    if String.◌∷◌ c s == suffix
    then some ""
    else elim rest [ none ↦ none | some front ↦ some (String.◌∷◌ c front) ]

abbrev pub size : String → ℕ
size String.[] = 0
size (String.◌∷◌ c s) = suc (size s)

-- The characters of a text behind its first.
abbrev pub behind_head : String → ℕ
behind_head String.[] = 0
behind_head (String.◌∷◌ c s) = size s

-- The loop of `strings.ReplaceAll`, with the characters of an occurrence that are still to be skipped.
unfoldable pub replace_from : String → String → ℕ → String → String
replace_from old new n String.[] = ""
replace_from old new (suc n) (String.◌∷◌ c s) = replace_from old new n s
replace_from old new zero (String.◌∷◌ c s) = elim (starts_with (String.◌∷◌ c s) old) [
  | true ↦ new <> replace_from old new (behind_head old) s
  | false ↦ String.◌∷◌ c (replace_from old new zero s)
]

-- `strings.ReplaceAll(s, old, new)`, for an `old` that is not empty.
unfoldable pub replace_all : String → String → String → String
unfolding replace_from
replace_all s old new = replace_from old new 0 s
