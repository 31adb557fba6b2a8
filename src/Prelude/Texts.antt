-- ===== src/Prelude/Texts.antt =====
-- Go strings: equality, order, concatenation, and a list of strings read as a set.
use Prim.Native.Nat.{Ordering}
use Prim.Native.String.{String, compare, ◌++◌ as ◌<>◌}
use mathlib.Core.Path.{◌≡◌, refl}
use mathlib.Core.Logic.{dite, ite}
use mathlib.Core.Bool.{Bool, true, false, ◌||◌, Bool-discrete}
use mathlib.Core.List.{List, [], ◌∷◌}
use text.Mathlib.Text
use text.Mathlib.TextEquality.{eq_iff}

-- Shut in proofs, where a split on `s == t` gives the equation or its negation.
unfoldable pub str_dec : Discrete String
str_dec s t =
    dite (Bool-discrete (Text.◌==◌ s t) true) (λ same. yes ((eq_iff s t).0 same))
      (λ differ. no (λ p. differ ((eq_iff s t).1 p)))

infix 50 ◌==◌
abbrev pub ◌==◌ : String → String → Bool
s == t = ite (str_dec s t) true false

-- The order of `sort.Strings`: byte by byte, which is code point by code point.
abbrev pub str_le : String → String → Bool
str_le s t = elim (compare s t) [ Ordering.gt ↦ false | _ ↦ true ]

-- `map[string]bool` read at a key, and `slices.Contains`.
abbrev pub has : List String → String → Bool
has [] k = false
has (x ∷ xs) k = k == x || has xs k

-- `strings.Join`
abbrev pub join_with : String → List String → String → String
join_with s [] sep = s
join_with s (x ∷ xs) sep = join_with (s <> sep <> x) xs sep

abbrev pub join : List String → String → String
join [] sep = ""
join (x ∷ xs) sep = join_with x xs sep

-- A Go map without a repeated key, and a list without a repeated entry.
abbrev pub NoRepeat : List String → Type 0
NoRepeat [] = Unit
NoRepeat (x ∷ xs) = (has xs x ≡ false) × NoRepeat xs

pub eq_self : (s : String) → (s == s) ≡ true
eq_self s = elim (str_dec s s) as (λ d. ite d true false ≡ true) [
  | yes p ↦ refl
  | no n ↦ absurd (n refl)
]
