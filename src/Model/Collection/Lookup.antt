-- ===== src/Model/Collection/Lookup.antt =====
-- The entry that a collection keeps under a name, and what `Record` does to it.
use pepin.Prelude.{
  ◌≡◌, refl, ◌∙◌, String, false, Option, none, some, List, [], ◌∷◌, ◌++◌, map, arith, if◌then◌else◌,
  ◌==◌, inl, inr, Bool-cases, Option-cases, insert_by, sort_by, has, NoRepeat,
}
use pepin.Model.Collection.Defs.{
  CollectionUnit, Collection, merge_sorted, merge_unit, merge_into, unit_le, record_unit,
}

-- The first entry with a name.
abbrev pub find_in : String → List CollectionUnit → Option CollectionUnit
find_in n [] = none
find_in n (x ∷ xs) = if n == x.unit then some x else find_in n xs

abbrev pub find_unit : String → Collection → Option CollectionUnit
find_unit n c = find_in n c.units

abbrev pub unit_name : CollectionUnit → String
unit_name u = u.unit

abbrev pub names : List CollectionUnit → List String
names xs = map unit_name xs

-- No two entries have one name.
abbrev pub IsDistinct : List CollectionUnit → Type 0
IsDistinct [] = Unit
IsDistinct (x ∷ xs) = (find_in x.unit xs ≡ none) × IsDistinct xs

-- What `Record` stores where the name is new.
abbrev pub normalized : CollectionUnit → CollectionUnit
normalized u = record u { types = merge_sorted [] u.types }

abbrev pub recorded : Option CollectionUnit → CollectionUnit → CollectionUnit
recorded none u = normalized u
recorded (some old) u = merge_unit old u

-- The loop of `Record` over `xs` found the entry and left `ys`.
pub record Merged (xs : List CollectionUnit) (u old : CollectionUnit) : Type 0 where
  pub ys : List CollectionUnit
  pub found : merge_into xs u ≡ some ys
  pub same_names : names ys ≡ names xs
  pub lookups :
      (n : String) → find_in n ys ≡ (if n == u.unit then some (merge_unit old u) else find_in n xs)

merge_into_absent :
    (xs : List CollectionUnit) (u : CollectionUnit)
    → find_in u.unit xs ≡ none
    → merge_into xs u ≡ none
unfolding merge_into
merge_into_absent [] u h = refl
merge_into_absent (x ∷ xs) u h = ground (arith, merge_into_absent xs u)

merge_into_present :
    (xs : List CollectionUnit) (u old : CollectionUnit)
    → find_in u.unit xs ≡ some old
    → Merged xs u old
unfolding merge_into
merge_into_present [] u old h = absurd (ground arith)
merge_into_present (x ∷ xs) u old h = elim (Bool-cases (u.unit == x.unit)) [
  | inl e ↦ record {
    ys = merge_unit x u ∷ xs;
    found = ground arith;
    same_names = refl;
    lookups = λ n. ground arith;
  }
  | inr e ↦
      let m = merge_into_present xs u old (ground arith) in
      record {
        ys = x ∷ m.ys;
        found = ground (arith, m.found);
        same_names = λ i. x.unit ∷ m.same_names i;
        lookups = λ n. ground (arith, m.lookups n);
      }
]

find_in-insert_by :
    (n : String) (x : CollectionUnit) (ys : List CollectionUnit)
    → find_in x.unit ys ≡ none
    → find_in n (insert_by unit_le x ys) ≡ (if n == x.unit then some x else find_in n ys)
unfolding insert_by
find_in-insert_by n x [] h = refl
find_in-insert_by n x (y ∷ ys) h = ground (arith, find_in-insert_by n x ys)

insert_by-IsDistinct :
    (x : CollectionUnit) (ys : List CollectionUnit)
    → find_in x.unit ys ≡ none
    → IsDistinct ys
    → IsDistinct (insert_by unit_le x ys)
unfolding insert_by
insert_by-IsDistinct x [] h d = (refl, tt)
insert_by-IsDistinct x (y ∷ ys) h d = elim (Bool-cases (unit_le x y)) [
  | inl e ↦ rw e (h, d)
  | inr e ↦
      rw e (
        ground (arith, find_in-insert_by y.unit x ys),
        insert_by-IsDistinct x ys (ground arith) d.1,
      )
]

pub find_in-sort_by :
    (n : String) (xs : List CollectionUnit)
    → IsDistinct xs
    → find_in n (sort_by unit_le xs) ≡ find_in n xs
unfolding sort_by
find_in-sort_by n [] d = refl
find_in-sort_by n (x ∷ xs) d =
    find_in-insert_by n x (sort_by unit_le xs) (find_in-sort_by x.unit xs d.1 ∙ d.0)
    ∙ rw (find_in-sort_by n xs d.1)

pub sort_by-IsDistinct :
    (xs : List CollectionUnit) → IsDistinct xs → IsDistinct (sort_by unit_le xs)
unfolding sort_by
sort_by-IsDistinct [] d = tt
sort_by-IsDistinct (x ∷ xs) d =
    insert_by-IsDistinct x (sort_by unit_le xs) (find_in-sort_by x.unit xs d.1 ∙ d.0)
      (sort_by-IsDistinct xs d.1)

find_in-snoc :
    (n : String) (xs : List CollectionUnit) (u : CollectionUnit)
    → find_in u.unit xs ≡ none
    → find_in n (xs ++ u ∷ []) ≡ (if n == u.unit then some u else find_in n xs)
find_in-snoc n [] u h = refl
find_in-snoc n (x ∷ xs) u h = ground (arith, find_in-snoc n xs u)

snoc-IsDistinct :
    (xs : List CollectionUnit) (u : CollectionUnit)
    → find_in u.unit xs ≡ none
    → IsDistinct xs
    → IsDistinct (xs ++ u ∷ [])
snoc-IsDistinct [] u h d = (refl, tt)
snoc-IsDistinct (x ∷ xs) u h d =
    (ground (arith, find_in-snoc x.unit xs u), snoc-IsDistinct xs u (ground arith) d.1)

has-names : (n : String) (xs : List CollectionUnit) → find_in n xs ≡ none → has (names xs) n ≡ false
has-names n [] h = refl
has-names n (x ∷ xs) h = ground (arith, has-names n xs)

find_in_of_names :
    (n : String) (xs : List CollectionUnit) → has (names xs) n ≡ false → find_in n xs ≡ none
find_in_of_names n [] h = refl
find_in_of_names n (x ∷ xs) h = ground (arith, find_in_of_names n xs)

-- Distinct entries are entries whose names do not repeat.
pub NoRepeat-names : (xs : List CollectionUnit) → IsDistinct xs → NoRepeat (names xs)
NoRepeat-names [] d = tt
NoRepeat-names (x ∷ xs) d = (has-names x.unit xs d.0, NoRepeat-names xs d.1)

pub IsDistinct-of_names : (xs : List CollectionUnit) → NoRepeat (names xs) → IsDistinct xs
IsDistinct-of_names [] d = tt
IsDistinct-of_names (x ∷ xs) d = (find_in_of_names x.unit xs d.0, IsDistinct-of_names xs d.1)

pub merge_into-names :
    (xs ys : List CollectionUnit) (u : CollectionUnit)
    → merge_into xs u ≡ some ys
    → names ys ≡ names xs
merge_into-names xs ys u e = elim (Option-cases (find_in u.unit xs)) [
  | inl absent ↦ absurd (ground (arith, merge_into_absent xs u absent))
  | inr (old, present) ↦
      let m = merge_into_present xs u old present in cc (m.same_names, m.found, e)
]

pub record_unit_absent :
    (c : Collection) (u : CollectionUnit)
    → merge_into c.units u ≡ none
    → (record_unit c u).units ≡ sort_by unit_le (c.units ++ normalized u ∷ [])
unfolding record_unit
record_unit_absent c u e = rw (e, record_unit) refl

pub record_unit_present :
    (c : Collection) (u : CollectionUnit) (ys : List CollectionUnit)
    → merge_into c.units u ≡ some ys
    → (record_unit c u).units ≡ ys
unfolding record_unit
record_unit_present c u ys e = rw (e, record_unit) refl

-- `Record` stores or merges the reported unit under its name, and leaves every other unit as it was,
-- in a state where no name is repeated.
pub find_unit-record_unit :
    (n : String) (c : Collection) (u : CollectionUnit)
    → IsDistinct c.units
    → find_unit n (record_unit c u)
      ≡ (if n == u.unit then some (recorded (find_unit u.unit c) u) else find_unit n c)
find_unit-record_unit n c u d = elim (Option-cases (find_in u.unit c.units)) [
  | inl absent ↦
      rw (record_unit_absent c u (merge_into_absent c.units u absent), absent)
        (find_in-sort_by n (c.units ++ normalized u ∷ [])
            (snoc-IsDistinct c.units (normalized u) absent d)
          ∙ find_in-snoc n c.units (normalized u) absent)
  | inr (old, present) ↦
      let m = merge_into_present c.units u old present in
      rw (record_unit_present c u m.ys m.found, present) (m.lookups n)
]

pub record_unit-IsDistinct :
    (c : Collection) (u : CollectionUnit) → IsDistinct c.units → IsDistinct (record_unit c u).units
record_unit-IsDistinct c u d = elim (Option-cases (find_in u.unit c.units)) [
  | inl absent ↦ rw (record_unit_absent c u (merge_into_absent c.units u absent)) (
      sort_by-IsDistinct (c.units ++ normalized u ∷ [])
        (snoc-IsDistinct c.units (normalized u) absent d))
  | inr (old, present) ↦
      let m = merge_into_present c.units u old present in
      rw (record_unit_present c u m.ys m.found)
        (IsDistinct-of_names m.ys (rw m.same_names (NoRepeat-names c.units d)))
]
