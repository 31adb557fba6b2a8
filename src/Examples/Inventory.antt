-- ===== src/Examples/Inventory.antt =====
-- From an inventory to a `pass`, at two servers.
use pepin.Prelude.{
  none, ◌≡◌, refl, true, false, String, List, [], ◌∷◌, any_by, all_by, index, str_dec,
}
use pepin.Model.Collection.{Collection, incomplete_types}
use pepin.Model.Resource.{Value, Resource}
use pepin.Assess.Attributes.{is_nil, applicable, attr_collected, deciding_by_type}
use pepin.Assess.Tables.{required_attr, require_all}
use pepin.Assess.Build.{Scope, build}
use pepin.Assess.Build.Pass.{build_pass_iff}
use pepin.Assess.Build.Verdicts.{gives}
use pepin.Assess.Degrade.{degraded_controls, types_read}
use pepin.Assess.Degrade.Controls.{unread}
use pepin.Provider.{control_type, control_types, extra_control_types}
use pepin.Scankit.{is_pass}
use pepin.Scan.{Inputs, assessed}
use pepin.Scan.Inventory.{attrs_by_type_of}
use pepin.Scan.Evidence.{row_observed, pass_observed}
use pepin.Scan.Setup.{scan_scope, pass_read_in_full}
use pepin.Scan.Verdicts.{gives_pass, assessed_pass_iff}
use pepin.Examples.Data.{scope, server_code, open_volume, inputs_of, unit_of}

abbrev server : String → Value → Resource
server id protection = record {
  provider = "outscale";
  type = "compute_instance";
  id = id;
  name = "";
  region = "eu-west-2";
  attributes = ("deletion_protection", protection) ∷ [];
  provenance = [];
  source = none;
}

abbrev servers : List Resource
servers = server "vm-1" (Value.bool true) ∷ server "vm-2" (Value.bool false) ∷ []

-- The second server has no value.
abbrev mixed : List Resource
mixed = server "vm-1" (Value.bool true) ∷ server "vm-2" Value.null ∷ []

abbrev observed_scope : Scope
observed_scope = record scope { attrs_by_type = attrs_by_type_of servers }

server_passes :
    any_by
      (gives observed_scope is_pass server_code)
      (build observed_scope (open_volume ∷ [])).results
    ≡ true
unfolding str_dec applicable attr_collected required_attr require_all attrs_by_type_of
server_passes = build_pass_iff observed_scope server_code (open_volume ∷ [])

server_decides : is_nil (index [] required_attr server_code) ≡ false
unfolding str_dec required_attr
server_decides = refl

pass_observed_example :
    (is_nil
        (deciding_by_type server_code (index "" scope.types_of server_code) scope.resource_types)
      ≡ false)
    × (all_by
          (row_observed servers server_code)
          (deciding_by_type server_code (index "" scope.types_of server_code) scope.resource_types)
        ≡ true)
pass_observed_example =
    pass_observed servers observed_scope (open_volume ∷ []) server_code refl server_decides
      server_passes

-- The volumes were refused, the servers read.
abbrev state : Collection
state = record { units = unit_of "volumes" ("blockstorage_volume" ∷ []) ∷ []; unmapped = [] }

abbrev half_read : Inputs
half_read =
    inputs_of (open_volume ∷ []) []
      (degraded_controls state (scan_scope scope.controls scope.na_reasons scope.provider) [])

published_pass : any_by (gives_pass half_read server_code) (assessed half_read).0.results ≡ true
unfolding str_dec applicable attr_collected required_attr require_all degraded_controls
    incomplete_types scan_scope control_types control_type extra_control_types
published_pass = assessed_pass_iff half_read server_code

pass_read_in_full_example : any_by (unread state) (types_read [] server_code) ≡ false
pass_read_in_full_example = pass_read_in_full half_read state [] server_code refl published_pass
