-- ===== src/Prelude/Strings.antt =====
-- What the code uses of Go's `strings`.
use Prim.Native.Char.{code}
use Prim.Native.Nat.{ℕ, ◌+◌}
use Prim.Native.String.{String}
use mathlib.Core.Bool.{Bool, true, false, ◌&&◌, ◌||◌}
use mathlib.Core.Option.{Option, none, some}
use mathlib.Core.List.{List, [], ◌∷◌}
use text.Mathlib.Text.{starts_with}
use pepin.Prelude.Tests.{if◌then◌else◌, leb, nat_eq}
use pepin.Prelude.Texts.{◌==◌}

-- `unicode.IsSpace`
abbrev is_space : ℕ → Bool
is_space c =
    leb 9 c && leb c 13
    || nat_eq c 32
    || nat_eq c 0x85
    || nat_eq c 0xa0
    || nat_eq c 0x1680
    || leb 0x2000 c && leb c 0x200a
    || nat_eq c 0x2028
    || nat_eq c 0x2029
    || nat_eq c 0x202f
    || nat_eq c 0x205f
    || nat_eq c 0x3000

unfoldable pub trim_left : String → String
trim_left String.[] = ""
trim_left (String.◌∷◌ c s) =
    let rest = trim_left s in if is_space (code c) then rest else String.◌∷◌ c s

unfoldable pub trim_right : String → String
trim_right String.[] = ""
trim_right (String.◌∷◌ c s) =
    let rest = trim_right s in if is_space (code c) && rest == "" then "" else String.◌∷◌ c rest

-- `strings.TrimSpace`
unfoldable pub trim_space : String → String
unfolding trim_left trim_right
trim_space s = trim_right (trim_left s)

-- The code points of a text.
abbrev pub codes : String → List ℕ
codes String.[] = []
codes (String.◌∷◌ c s) = code c ∷ codes s

-- `unicode.ToLower`, for the letters that it takes to an ASCII letter; the others stay. (U+0130 and
-- U+212A are the two outside ASCII.) A comparison with an ASCII word reads no more than that.
abbrev lower_code : ℕ → ℕ
lower_code c =
    if leb b'A' c && leb c b'Z'
    then c + 32
    else if nat_eq c 0x130
    then b'i'
    else if nat_eq c 0x212a
    then b'k'
    else c

abbrev codes_eq : List ℕ → List ℕ → Bool
codes_eq [] [] = true
codes_eq [] (b ∷ bs) = false
codes_eq (a ∷ as_) [] = false
codes_eq (a ∷ as_) (b ∷ bs) = nat_eq a b && codes_eq as_ bs

unfoldable pub lower_codes : List ℕ → List ℕ
lower_codes [] = []
lower_codes (c ∷ cs) = lower_code c ∷ lower_codes cs

-- `strings.ToLower(s) == word`, for a word in ASCII lower case.
unfoldable pub lower_is : String → String → Bool
unfolding lower_codes
lower_is s word = codes_eq (lower_codes (codes s)) (codes word)

-- The simple folding of `strings.EqualFold`, for the code points that fold to an ASCII letter.
abbrev fold_code : ℕ → ℕ
fold_code c =
    if leb b'A' c && leb c b'Z'
    then c + 32
    else if nat_eq c 0x17f
    then b's'
    else if nat_eq c 0x212a
    then b'k'
    else c

unfoldable pub fold_codes : List ℕ → List ℕ
fold_codes [] = []
fold_codes (c ∷ cs) = fold_code c ∷ fold_codes cs

-- `strings.EqualFold(s, word)`, for a word in ASCII lower case.
unfoldable pub equal_fold : String → String → Bool
unfolding fold_codes
equal_fold s word = codes_eq (fold_codes (codes s)) (codes word)

abbrev drop_three : String → String
drop_three (String.◌∷◌ _ (String.◌∷◌ _ (String.◌∷◌ _ s))) = s
drop_three s = ""

-- `strings.Index(s, " : ")` and the text behind the match.
unfoldable pub after_colon : String → Option String
after_colon String.[] = none
after_colon (String.◌∷◌ c s) =
    let rest = after_colon s in
    if starts_with (String.◌∷◌ c s) " : " then some (drop_three (String.◌∷◌ c s)) else rest
