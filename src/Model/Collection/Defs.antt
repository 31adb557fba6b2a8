-- ===== src/Model/Collection/Defs.antt =====
-- internal/model/collection.go: the state of each collection unit, and its operations.
use pepin.Prelude.{
  ℕ, ◌+◌, String, Bool, true, false, not, ◌&&◌, ◌||◌, Option, none, some, List, [], ◌∷◌, ◌++◌,
  if◌then◌else◌, ◌==◌, str_le, leb, filter_by, sort_by, sort_strings, distinct_onto, Dict, lookup,
}

-- `unset` is the empty string of a complete unit; `other` is a class that this version does not
-- name, read back from a sealed bundle.
pub data CollectionOutcome : Type 0 where
  unset permission_denied not_found rate_limited timeout truncated : CollectionOutcome
  unreadable unauthenticated rejected unavailable : CollectionOutcome
  other : String → CollectionOutcome

pub record CollectionUnit : Type 0 where
  pub unit : String
  pub types : List String
  pub attempted : Bool
  pub complete : Bool
  pub error : CollectionOutcome
  pub detail : String

pub record UnmappedType : Type 0 where
  pub type : String
  pub count : ℕ

pub record Collection : Type 0 where
  pub units : List CollectionUnit
  pub unmapped : List UnmappedType

unfoldable pub merge_sorted : List String → List String → List String
merge_sorted a b = sort_strings (distinct_onto (distinct_onto [] a) b)

-- The body of the loop of `Record`, at the entry of the same name.
unfoldable pub merge_unit : CollectionUnit → CollectionUnit → CollectionUnit
merge_unit old u =
    let failed = not u.complete && old.complete in
    record old {
      attempted = old.attempted || u.attempted;
      types = merge_sorted old.types u.types;
      complete = if failed then false else old.complete;
      error = if failed then u.error else old.error;
      detail = if failed then u.detail else old.detail;
    }

-- The loop of `Record`: `none` where no entry has the name.
unfoldable pub merge_into : List CollectionUnit → CollectionUnit → Option (List CollectionUnit)
unfolding merge_unit
merge_into [] u = none
merge_into (x ∷ xs) u =
    let rest = merge_into xs u in
    if x.unit == u.unit
    then some (merge_unit x u ∷ xs)
    else elim rest [ none ↦ none | some ys ↦ some (x ∷ ys) ]

abbrev pub unit_le : CollectionUnit → CollectionUnit → Bool
unit_le a b = str_le a.unit b.unit

unfoldable pub record_unit : Collection → CollectionUnit → Collection
unfolding merge_into merge_sorted sort_by
record_unit c u = elim (merge_into c.units u) [
  | some units ↦ record c { units = units }
  | none ↦ record c {
    units = sort_by unit_le (c.units ++ record u { types = merge_sorted [] u.types } ∷ []);
  }
]

abbrev pub unmapped_le : UnmappedType → UnmappedType → Bool
unmapped_le a b = str_le a.type b.type

unfoldable pub add_unmapped : List UnmappedType → String → ℕ → Option (List UnmappedType)
add_unmapped [] typ count = none
add_unmapped (x ∷ xs) typ count =
    let rest = add_unmapped xs typ count in
    if x.type == typ
    then some (record x { count = x.count + count } ∷ xs)
    else elim rest [ none ↦ none | some ys ↦ some (x ∷ ys) ]

-- A count is the length of a list in every call, so it is never negative.
unfoldable pub record_unmapped : Collection → String → ℕ → Collection
unfolding add_unmapped sort_by
record_unmapped c typ count =
    if typ == "" || leb count 0 then c else elim (add_unmapped c.unmapped typ count) [
      | some types ↦ record c { unmapped = types }
      | none ↦ record c {
        unmapped = sort_by unmapped_le (c.unmapped ++ record { type = typ; count = count } ∷ []);
      }
    ]

abbrev pub empty : Collection → Bool
empty c = elim c.units [ [] ↦ elim c.unmapped [ [] ↦ true | _ ↦ false ] | _ ↦ false ]

abbrev pub is_incomplete : CollectionUnit → Bool
is_incomplete u = u.attempted && not u.complete

unfoldable pub incomplete : Collection → List CollectionUnit
incomplete c = filter_by is_incomplete c.units

-- The inner loop of `IncompleteTypes`: the first unit that feeds a type keeps it.
unfoldable pub index_types :
    CollectionUnit → List String → Dict CollectionUnit → Dict CollectionUnit
index_types u [] out = out
index_types u (t ∷ ts) out =
    index_types u ts (elim (lookup t out) [ none ↦ out ++ (t, u) ∷ [] | some _ ↦ out ])

unfoldable pub index_units : List CollectionUnit → Dict CollectionUnit → Dict CollectionUnit
unfolding index_types
index_units [] out = out
index_units (u ∷ us) out = index_units us (index_types u u.types out)

unfoldable pub incomplete_types : Collection → Dict CollectionUnit
unfolding index_units incomplete
incomplete_types c = index_units (incomplete c) []
