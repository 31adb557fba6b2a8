-- ===== src/Examples/Collecting.antt =====
-- The collection state at the tenant of the example.
use pepin.Prelude.{◌≡◌, ◌≢◌, ◌↔◌, true, false, [], ◌∷◌, any_by, lookup, str_dec, none}
use pepin.Model.Collection.{CollectionUnit, Collection, incomplete_types, record_unit}
use pepin.Model.Collection.Incomplete.{incomplete_types_iff, fails_on}
use pepin.Model.Collection.Invariant.{IsWellFormed, record_unit-IsWellFormed}
use pepin.Model.Collection.Merge.{
  record_all_pessimistic, record_all, blank, complete_in, attempted_in,
}
use pepin.Assess.Degrade.{degraded_controls}
use pepin.Assess.Degrade.Controls.{degraded_controls_iff, is_some}
use pepin.Provider.{control_types, control_type}
use pepin.Examples.Data.{unit_of, server_code, volume_code}

abbrev servers : CollectionUnit
servers = unit_of "vms" ("compute_instance" ∷ [])

abbrev servers_read : CollectionUnit
servers_read = record servers { complete = true }

abbrev state : Collection
state = record { units = servers ∷ []; unmapped = [] }

blank-IsWellFormed : IsWellFormed blank
blank-IsWellFormed = record { in_order = tt; distinct = tt; canonical = tt }

record_unit-IsWellFormed_example : IsWellFormed (record_unit blank servers)
record_unit-IsWellFormed_example = record_unit-IsWellFormed blank servers blank-IsWellFormed

record_all_pessimistic_example :
    (complete_in "vms" (record_all (servers_read ∷ servers ∷ []) blank) ≡ false)
    × (attempted_in "vms" (record_all (servers_read ∷ servers ∷ []) blank) ≡ true)
unfolding str_dec
record_all_pessimistic_example = record_all_pessimistic "vms" (servers_read ∷ servers ∷ [])

incomplete_types_iff_example :
    (lookup "compute_instance" (incomplete_types state) ≢ none)
    ↔ (any_by (fails_on "compute_instance") state.units ≡ true)
incomplete_types_iff_example = incomplete_types_iff "compute_instance" state

degraded_controls_iff_example :
    is_some (lookup server_code (degraded_controls state (server_code ∷ volume_code ∷ []) []))
    ≡ true
unfolding str_dec control_types control_type
degraded_controls_iff_example =
    degraded_controls_iff state (server_code ∷ volume_code ∷ []) [] server_code
