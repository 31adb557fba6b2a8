-- ===== src/Model/Collection/Invariant.antt =====
-- The invariant of a collection state: units in the order of their names, no name twice, and the
-- types of each unit sorted, without an empty or a repeated one.
use mathlib.Core.Path.{subst}
use pepin.Prelude.{
  ◌≡◌, String, false, Option, none, some, List, [], ◌∷◌, arith, inl, inr, Bool-cases, Option-cases,
  ◌==◌, All, All-append, has, NoRepeat, str_le, str_le_total, IsSorted, insert_by, sort_by,
  sort_by-IsSorted, sort_strings-IsSorted, sort_strings-NoRepeat, distinct_onto-NoRepeat,
}
use pepin.Model.Collection.Defs.{
  CollectionUnit, Collection, merge_sorted, merge_into, unit_le, record_unit,
}
use pepin.Model.Collection.Lookup.{
  IsDistinct, names, normalized, record_unit-IsDistinct, record_unit_absent, record_unit_present,
  merge_into-names,
}
use pepin.Model.Collection.Merge.{has-merge_sorted}

pub record IsCanonical (types : List String) : Type 0 where
  pub sorted : IsSorted str_le types
  pub distinct : NoRepeat types
  pub nonempty : has types "" ≡ false

pub merge_sorted-IsCanonical : (a b : List String) → IsCanonical (merge_sorted a b)
unfolding merge_sorted
merge_sorted-IsCanonical a b = record {
  sorted = sort_strings-IsSorted _;
  distinct = sort_strings-NoRepeat _ (distinct_onto-NoRepeat _ b (distinct_onto-NoRepeat [] a tt));
  nonempty = ground (arith, has-merge_sorted a b "");
}

abbrev pub HasCanonicalTypes : CollectionUnit → Type 0
HasCanonicalTypes u = IsCanonical u.types

pub record IsWellFormed (c : Collection) : Type 0 where
  pub in_order : IsSorted str_le (names c.units)
  pub distinct : IsDistinct c.units
  pub canonical : All HasCanonicalTypes c.units

IsSorted-names : (xs : List CollectionUnit) → IsSorted unit_le xs → IsSorted str_le (names xs)
IsSorted-names [] s = tt
IsSorted-names (x ∷ []) s = tt
IsSorted-names (x ∷ y ∷ ys) s = (s.0, IsSorted-names (y ∷ ys) s.1)

All-insert_by :
    (x : CollectionUnit) (ys : List CollectionUnit)
    → HasCanonicalTypes x
    → All HasCanonicalTypes ys
    → All HasCanonicalTypes (insert_by unit_le x ys)
unfolding insert_by
All-insert_by x [] h k = (h, tt)
All-insert_by x (y ∷ ys) h k = elim (Bool-cases (unit_le x y)) [
  | inl e ↦ rw e (h, k)
  | inr e ↦ rw e (k.0, All-insert_by x ys h k.1)
]

All-sort_by :
    (xs : List CollectionUnit)
    → All HasCanonicalTypes xs
    → All HasCanonicalTypes (sort_by unit_le xs)
unfolding sort_by
All-sort_by [] h = tt
All-sort_by (x ∷ xs) h = All-insert_by x (sort_by unit_le xs) h.0 (All-sort_by xs h.1)

abbrev OnSome : Option (List CollectionUnit) → Type 0
OnSome none = Unit
OnSome (some ys) = All HasCanonicalTypes ys

OnSome-cons :
    (x : CollectionUnit) (o : Option (List CollectionUnit))
    → HasCanonicalTypes x
    → OnSome o
    → OnSome (elim o [ none ↦ none | some ys ↦ some (x ∷ ys) ])
OnSome-cons x none h k = tt
OnSome-cons x (some ys) h k = (h, k)

merge_into-OnSome :
    (xs : List CollectionUnit) (u : CollectionUnit)
    → All HasCanonicalTypes xs
    → OnSome (merge_into xs u)
unfolding merge_into
merge_into-OnSome [] u h = tt
merge_into-OnSome (x ∷ xs) u h = elim (Bool-cases (x.unit == u.unit)) [
  | inl same ↦ rw same (merge_sorted-IsCanonical x.types u.types, h.1)
  | inr differs ↦ rw differs (OnSome-cons x (merge_into xs u) h.0 (merge_into-OnSome xs u h.1))
]

merge_into-All :
    (xs ys : List CollectionUnit) (u : CollectionUnit)
    → merge_into xs u ≡ some ys
    → All HasCanonicalTypes xs
    → All HasCanonicalTypes ys
merge_into-All xs ys u e h = subst OnSome e (merge_into-OnSome xs u h)

-- Every call of `Record` keeps the state well formed: the units are in the order of their names, each
-- name is there once, and each list of types is sorted, without repetition and without "".
pub record_unit-IsWellFormed :
    (c : Collection) (u : CollectionUnit) → IsWellFormed c → IsWellFormed (record_unit c u)
record_unit-IsWellFormed c u w = elim (Option-cases (merge_into c.units u)) [
  | inl absent ↦
      let e = record_unit_absent c u absent in
      record {
        in_order =
            rw e
              (IsSorted-names _ (sort_by-IsSorted unit_le (λ x y. str_le_total x.unit y.unit) _));
        distinct = record_unit-IsDistinct c u w.distinct;
        canonical = rw e (
            All-sort_by _ (
              All-append HasCanonicalTypes c.units (normalized u ∷ []) w.canonical
                (merge_sorted-IsCanonical [] u.types, tt)));
      }
  | inr (ys, present) ↦
      let e = record_unit_present c u ys present in
      record {
        in_order = rw (e, merge_into-names c.units ys u present) w.in_order;
        distinct = record_unit-IsDistinct c u w.distinct;
        canonical = rw e (merge_into-All c.units ys u present w.canonical);
      }
]
