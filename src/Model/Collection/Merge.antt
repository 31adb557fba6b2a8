-- ===== src/Model/Collection/Merge.antt =====
-- Many reports of the same units: what a collection says once all of them are recorded.
use pepin.Prelude.{
  ◌≡◌, ◌∙◌, String, Bool, true, false, not, ◌&&◌, ◌||◌, none, some, List, [], ◌∷◌, arith, ◌==◌,
  all_by, any_by, has, has-sort_strings, has-distinct_onto,
}
use pepin.Model.Collection.Defs.{CollectionUnit, Collection, merge_sorted, merge_unit, record_unit}
use pepin.Model.Collection.Lookup.{
  find_unit, IsDistinct, find_unit-record_unit, record_unit-IsDistinct,
}

-- The calls of `Record` during one collection, in order.
unfoldable pub record_all : List CollectionUnit → Collection → Collection
record_all [] c = c
record_all (u ∷ us) c = record_all us (record_unit c u)

abbrev pub blank : Collection
blank = record { units = []; unmapped = [] }

-- Both lists, without empty strings, in one set.
pub has-merge_sorted :
    (a b : List String) (k : String)
    → has (merge_sorted a b) k ≡ (not (k == "") && (has a k || has b k))
unfolding merge_sorted
has-merge_sorted a b k =
    has-sort_strings _ k ∙ has-distinct_onto _ b k ∙ ground (arith, has-distinct_onto [] a k)

-- What a collection says of a unit; of one that it does not know, that nothing is missing, that
-- nothing was tried, and that it feeds no type.
abbrev pub complete_in : String → Collection → Bool
complete_in n c = elim (find_unit n c) [ none ↦ true | some u ↦ u.complete ]

abbrev pub attempted_in : String → Collection → Bool
attempted_in n c = elim (find_unit n c) [ none ↦ false | some u ↦ u.attempted ]

abbrev pub feeds_in : String → String → Collection → Bool
feeds_in n t c = elim (find_unit n c) [ none ↦ false | some u ↦ has u.types t ]

-- The same, of one report.
abbrev pub says_complete : String → CollectionUnit → Bool
says_complete n u = not (n == u.unit) || u.complete

abbrev pub says_attempted : String → CollectionUnit → Bool
says_attempted n u = n == u.unit && u.attempted

abbrev pub says_feeds : String → String → CollectionUnit → Bool
says_feeds n t u = n == u.unit && (not (t == "") && has u.types t)

pub complete_in-record_unit :
    (n : String) (c : Collection) (u : CollectionUnit)
    → IsDistinct c.units
    → complete_in n (record_unit c u) ≡ (complete_in n c && says_complete n u)
unfolding merge_unit
complete_in-record_unit n c u d = ground (arith, find_unit-record_unit n c u)

attempted_in-record_unit :
    (n : String) (c : Collection) (u : CollectionUnit)
    → IsDistinct c.units
    → attempted_in n (record_unit c u) ≡ (attempted_in n c || says_attempted n u)
unfolding merge_unit
attempted_in-record_unit n c u d = ground (arith, find_unit-record_unit n c u)

complete_in-record_all :
    (n : String) (us : List CollectionUnit) (c : Collection)
    → IsDistinct c.units
    → complete_in n (record_all us c) ≡ (complete_in n c && all_by (says_complete n) us)
unfolding record_all
complete_in-record_all n [] c d = ground arith
complete_in-record_all n (u ∷ us) c d =
    complete_in-record_all n us (record_unit c u) (record_unit-IsDistinct c u d)
    ∙ ground (arith, complete_in-record_unit n c u)

attempted_in-record_all :
    (n : String) (us : List CollectionUnit) (c : Collection)
    → IsDistinct c.units
    → attempted_in n (record_all us c) ≡ (attempted_in n c || any_by (says_attempted n) us)
unfolding record_all
attempted_in-record_all n [] c d = ground arith
attempted_in-record_all n (u ∷ us) c d =
    attempted_in-record_all n us (record_unit c u) (record_unit-IsDistinct c u d)
    ∙ ground (arith, attempted_in-record_unit n c u)

-- The merge is pessimistic, whatever the order of the reports: after any sequence of `Record`
-- calls on an empty state, a unit counts as complete exactly when every report of it was
-- complete, and as attempted exactly when some report of it was.
pub record_all_pessimistic :
    (n : String) (us : List CollectionUnit)
    → (complete_in n (record_all us blank) ≡ all_by (says_complete n) us)
      × (attempted_in n (record_all us blank) ≡ any_by (says_attempted n) us)
record_all_pessimistic n us =
    (complete_in-record_all n us blank tt, attempted_in-record_all n us blank tt)

pub record_all-IsDistinct :
    (us : List CollectionUnit) (c : Collection)
    → IsDistinct c.units
    → IsDistinct (record_all us c).units
unfolding record_all
record_all-IsDistinct [] c d = d
record_all-IsDistinct (u ∷ us) c d =
    record_all-IsDistinct us (record_unit c u) (record_unit-IsDistinct c u d)
