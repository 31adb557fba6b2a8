-- ===== src/Scan/Evidence.antt =====
-- What a `pass` says of the resources themselves.
use pepin.Prelude.{
  ◌≡◌, refl, String, Bool, true, false, not, ◌&&◌, List, [], ◌∷◌, arith, if◌then◌else◌, index, has,
  filter_by, any_by, all_by, Dict,
}
use pepin.Model.Resource.{Resource}
use pepin.Scankit.{Finding, is_pass}
use pepin.Assess.Tables.{required_attr, require_all}
use pepin.Assess.Attributes.{is_nil, attr_collected, attrs_on_type, row_collected, deciding_by_type}
use pepin.Assess.Build.{Scope, build}
use pepin.Assess.Build.Verdicts.{gives}
use pepin.Assess.Build.Pass.{build_pass_iff}
use pepin.Scan.Inventory.{attrs_by_type_of}
use pepin.Scan.Observed.{is_of, is_observed, attrs_by_type_of_iff}

module _ (rs : List Resource) where
  -- Some resource is of the type, and on each of them the attribute was observed.
  abbrev pub observed_on : String → String → Bool
  observed_on t a =
      not (is_nil (filter_by (is_of t) rs))
      && all_by (is_observed (filter_by (is_of t) rs) a) (filter_by (is_of t) rs)

  -- All attributes of the row where the control compares them, some otherwise.
  abbrev pub row_observed : String → String × List String → Bool
  row_observed c row =
      if has require_all c
      then all_by (observed_on row.0) row.1
      else any_by (observed_on row.0) row.1

  all_collected :
      (t : String) (attrs : List String)
      → all_by (has (index [] (attrs_by_type_of rs) t)) attrs ≡ all_by (observed_on t) attrs
  all_collected t [] = refl
  all_collected t (a ∷ attrs) = ground (arith, attrs_by_type_of_iff t a rs, all_collected t attrs)

  any_collected :
      (t : String) (attrs : List String)
      → any_by (has (index [] (attrs_by_type_of rs) t)) attrs ≡ any_by (observed_on t) attrs
  any_collected t [] = refl
  any_collected t (a ∷ attrs) = ground (arith, attrs_by_type_of_iff t a rs, any_collected t attrs)

  row_collected_iff :
      (c : String) (row : String × List String)
      → row_collected c (attrs_by_type_of rs) row ≡ row_observed c row
  unfolding attrs_on_type
  row_collected_iff c row = ground (arith, all_collected row.0 row.1, any_collected row.0 row.1)

  rows_collected_iff :
      (c : String) (rows : Dict (List String))
      → all_by (row_collected c (attrs_by_type_of rs)) rows ≡ all_by (row_observed c) rows
  rows_collected_iff c [] = refl
  rows_collected_iff c (row ∷ rows) =
      ground (arith, row_collected_iff c row, rows_collected_iff c rows)

  attr_collected_sound :
      (c typ : String) (types : List String)
      → is_nil (index [] required_attr c) ≡ false
      → attr_collected c typ types (attrs_by_type_of rs) ≡ true
      → (is_nil (deciding_by_type c typ types) ≡ false)
        × (all_by (row_observed c) (deciding_by_type c typ types) ≡ true)
  unfolding attr_collected
  attr_collected_sound c typ types h k =
      ground (arith, rows_collected_iff c (deciding_by_type c typ types))

  -- A `pass` is never unproven. Where `Build` was given the attributes of an inventory and asserts a
  -- `pass` of a control that has deciding attributes, there is a type on which they decide, and on
  -- each such type the inventory has a resource and, for some deciding attribute (for all of them
  -- where the control compares them), every resource of the type had it observed.
  pub pass_observed :
      (s : Scope) (fs : List Finding) (c : String)
      → s.attrs_by_type ≡ attrs_by_type_of rs
      → is_nil (index [] required_attr c) ≡ false
      → any_by (gives s is_pass c) (build s fs).results ≡ true
      → (is_nil (deciding_by_type c (index "" s.types_of c) s.resource_types) ≡ false)
        × (all_by (row_observed c) (deciding_by_type c (index "" s.types_of c) s.resource_types)
            ≡ true)
  pass_observed s fs c e h k =
      attr_collected_sound c (index "" s.types_of c) s.resource_types h
        (ground (arith, build_pass_iff s c fs))
