-- ===== src/Prelude/Unique.antt =====
-- The loop that drops empty and repeated strings, `mergeSorted` of the model and `sortedUnique` of
-- the policy, and what a sorted list of strings holds.
use mathlib.Core.Path.{◌≡◌, refl, ◌∙◌, sym}
use mathlib.Core.Bool.{Bool, false, not, ◌&&◌, ◌||◌}
use mathlib.Core.List.{List, [], ◌∷◌, ◌++◌}
use Prim.Native.Nat.{◌≤◌}
use Prim.Native.String.{String}
use native.Mathlib.Omega.{arith}
use pepin.Prelude.Tests.{if◌then◌else◌}
use pepin.Prelude.Texts.{◌==◌, has, NoRepeat, str_le}
use pepin.Prelude.TextOrder.{str_le_total}
use pepin.Prelude.Lists.{any_by, count_by, any_by_of_count}
use pepin.Prelude.Sort.{sort_by, IsSorted, sort_by-IsSorted, any_by-sort_by, count_by-sort_by}

-- `seen` and `out` of the source hold the same strings, so one list stands for both.
unfoldable pub distinct_onto : List String → List String → List String
distinct_onto out [] = out
distinct_onto out (v ∷ vs) = distinct_onto (if v == "" || has out v then out else out ++ v ∷ []) vs

unfoldable pub sort_strings : List String → List String
unfolding sort_by
sort_strings = sort_by str_le

abbrev pub is_str : String → String → Bool
is_str k x = k == x

has-any_by : (xs : List String) (k : String) → has xs k ≡ any_by (is_str k) xs
has-any_by [] k = refl
has-any_by (x ∷ xs) k = ground (arith, has-any_by xs k)

pub has-append : (xs ys : List String) (k : String) → has (xs ++ ys) k ≡ (has xs k || has ys k)
has-append [] ys k = refl
has-append (x ∷ xs) ys k = ground (arith, has-append xs ys k)

pub has-sort_strings : (xs : List String) (k : String) → has (sort_strings xs) k ≡ has xs k
unfolding sort_strings
has-sort_strings xs k =
    has-any_by (sort_by str_le xs) k ∙ any_by-sort_by str_le (is_str k) xs ∙ sym (has-any_by xs k)

pub sort_strings-IsSorted : (xs : List String) → IsSorted str_le (sort_strings xs)
unfolding sort_strings
sort_strings-IsSorted = sort_by-IsSorted str_le str_le_total

count_of_absent : (xs : List String) (k : String) → has xs k ≡ false → count_by (is_str k) xs ≡ 0
count_of_absent [] k h = refl
count_of_absent (x ∷ xs) k h = ground (arith, count_of_absent xs k)

count_of_NoRepeat : (xs : List String) (k : String) → NoRepeat xs → count_by (is_str k) xs ≤ 1
count_of_NoRepeat [] k h = omega arith
count_of_NoRepeat (x ∷ xs) k h =
    ground (arith, count_of_absent xs x h.0, count_of_NoRepeat xs k h.1)

NoRepeat-of_count : (xs : List String) → ((k : String) → count_by (is_str k) xs ≤ 1) → NoRepeat xs
NoRepeat-of_count [] h = tt
NoRepeat-of_count (x ∷ xs) h = (
  has-any_by xs x ∙ any_by_of_count (is_str x) xs (ground (arith, h x)),
  NoRepeat-of_count xs (λ k. ground (arith, h k)),
)

pub sort_strings-NoRepeat : (xs : List String) → NoRepeat xs → NoRepeat (sort_strings xs)
unfolding sort_strings
sort_strings-NoRepeat xs h =
    NoRepeat-of_count (sort_by str_le xs)
      λ k. omega (arith, count_by-sort_by str_le (is_str k) xs, count_of_NoRepeat xs k h)

pub has-distinct_onto :
    (out xs : List String) (k : String)
    → has (distinct_onto out xs) k ≡ (has out k || (not (k == "") && has xs k))
unfolding distinct_onto
has-distinct_onto out [] k = ground arith
has-distinct_onto out (v ∷ vs) k =
    has-distinct_onto (if v == "" || has out v then out else out ++ v ∷ []) vs k
    ∙ ground (arith, has-append out (v ∷ []) k)

NoRepeat-snoc :
    (xs : List String) (v : String) → NoRepeat xs → has xs v ≡ false → NoRepeat (xs ++ v ∷ [])
NoRepeat-snoc [] v h a = (refl, tt)
NoRepeat-snoc (x ∷ xs) v h a =
    (ground (arith, has-append xs (v ∷ []) x), NoRepeat-snoc xs v h.1 (ground arith))

pub distinct_onto-NoRepeat : (out xs : List String) → NoRepeat out → NoRepeat (distinct_onto out xs)
unfolding distinct_onto
distinct_onto-NoRepeat out [] h = h
distinct_onto-NoRepeat out (v ∷ vs) h =
    distinct_onto-NoRepeat (if v == "" || has out v then out else out ++ v ∷ []) vs
      (ground (arith, NoRepeat-snoc out v h))
