-- ===== src/Model/Collection/Incomplete.antt =====
-- `IncompleteTypes`: the link from a resource type to the unit that failed to feed it.
use pepin.Prelude.{
  ◌≡◌, refl, ◌∙◌, String, Bool, true, ◌&&◌, Option, none, some, List, [], ◌∷◌, ◌++◌, arith, inl,
  inr, Bool-cases, Option-cases, if◌then◌else◌, ◌==◌, has, any_by, Dict, lookup, IsIn, ◌≢◌, ◌↔◌,
  filter_by,
}
use pepin.Model.Collection.Defs.{
  CollectionUnit, Collection, is_incomplete, incomplete, index_types, index_units, incomplete_types,
}

lookup-snoc :
    (t k : String) (u : CollectionUnit) (out : Dict CollectionUnit)
    → lookup t (out ++ (k, u) ∷ [])
      ≡ elim (lookup t out) [ none ↦ (if t == k then some u else none) | some v ↦ some v ]
lookup-snoc t k u [] = refl
lookup-snoc t k u ((j, w) ∷ out) = ground (arith, lookup-snoc t k u out)

-- The entry of a type after one unit: the old one, or the unit where there was none.
abbrev or_unit : Option CollectionUnit → Bool → CollectionUnit → Option CollectionUnit
or_unit (some v) b u = some v
or_unit none b u = if b then some u else none

lookup-index_types :
    (t : String) (u : CollectionUnit) (ts : List String) (out : Dict CollectionUnit)
    → lookup t (index_types u ts out) ≡ or_unit (lookup t out) (has ts t) u
unfolding index_types
lookup-index_types t u [] out = ground arith
lookup-index_types t u (k ∷ ts) out = elim (Option-cases (lookup k out)) [
  | inl absent ↦
      rw absent
        (lookup-index_types t u ts (out ++ (k, u) ∷ []) ∙ ground (arith, lookup-snoc t k u out))
  | inr (v, present) ↦ rw present (lookup-index_types t u ts out ∙ ground arith)
]

-- The first unit of a list that feeds a type.
abbrev pub first_feeding : String → List CollectionUnit → Option CollectionUnit
first_feeding t [] = none
first_feeding t (u ∷ us) = if has u.types t then some u else first_feeding t us

lookup-index_units :
    (t : String) (us : List CollectionUnit) (out : Dict CollectionUnit)
    → lookup t (index_units us out)
      ≡ elim (lookup t out) [ none ↦ first_feeding t us | some v ↦ some v ]
unfolding index_units
lookup-index_units t [] out = ground arith
lookup-index_units t (u ∷ us) out =
    lookup-index_units t us (index_types u u.types out)
    ∙ ground (arith, lookup-index_types t u u.types out)

-- The entry of a type is the first incomplete unit, in the order of the state, that feeds it.
pub lookup-incomplete_types :
    (t : String) (c : Collection) → lookup t (incomplete_types c) ≡ first_feeding t (incomplete c)
unfolding incomplete_types
lookup-incomplete_types t c = lookup-index_units t (incomplete c) []

abbrev pub fails_on : String → CollectionUnit → Bool
fails_on t u = is_incomplete u && has u.types t

first_feeding-filter_by :
    (t : String) (us : List CollectionUnit)
    → (first_feeding t (filter_by is_incomplete us) ≢ none) ↔ (any_by (fails_on t) us ≡ true)
first_feeding-filter_by t [] = (λ h. absurd (h refl), λ h. cc)
first_feeding-filter_by t (u ∷ us) = ground (arith, first_feeding-filter_by t us)

-- A type has an entry in `IncompleteTypes` exactly when some unit that feeds it was attempted and
-- is not complete: a unit that was never attempted, or one that is complete, marks no type.
pub incomplete_types_iff :
    (t : String) (c : Collection)
    → (lookup t (incomplete_types c) ≢ none) ↔ (any_by (fails_on t) c.units ≡ true)
unfolding incomplete
incomplete_types_iff t c = rw lookup-incomplete_types (first_feeding-filter_by t c.units)

first_feeding_sound :
    (t : String) (us : List CollectionUnit) (u : CollectionUnit)
    → first_feeding t (filter_by is_incomplete us) ≡ some u
    → IsIn u us × (fails_on t u ≡ true)
first_feeding_sound t [] u e = absurd (ground arith)
first_feeding_sound t (x ∷ us) u e = elim (Bool-cases (fails_on t x)) [
  | inl fails ↦ (inl (ground arith), ground arith)
  | inr works ↦ let r = first_feeding_sound t us u (ground arith) in (inr r.0, r.1)
]

-- The unit that `IncompleteTypes` names for a type is one of the state, was attempted, is not
-- complete, and feeds the type.
pub incomplete_types_sound :
    (t : String) (c : Collection) (u : CollectionUnit)
    → lookup t (incomplete_types c) ≡ some u
    → IsIn u c.units × (fails_on t u ≡ true)
unfolding incomplete
incomplete_types_sound t c u e = first_feeding_sound t c.units u (rw lookup-incomplete_types at e)
