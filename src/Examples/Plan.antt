-- ===== src/Examples/Plan.antt =====
-- A plan with a machine, its group, whose identifier is not known yet, and a type without a mapping.
use pepin.Prelude.{
  ◌≡◌, refl, String, Option, none, some, List, [], ◌∷◌, inr, Dict, map, All, count_by, str_dec,
  split_char,
}
use pepin.Model.Resource.{Value, Fields}
use pepin.Model.Json.{field_of}
use pepin.Terraform.Plan.{PlanResource, Module, Modules, ConfigModule, ModuleCalls, TfResource}
use pepin.Terraform.Origins.{Index, resolve_origins}
use pepin.Terraform.Addresses.{module_of}
use pepin.Terraform.References.{resolve_references, resolve}
use pepin.Terraform.Parse.{Document, parse_plan, resources_of}
use pepin.Terraform.Only.{address_of, RefersOnly}
use pepin.Terraform.Refers.{parse_plan-RefersOnly}
use pepin.Terraform.Filling.{with_references, or_stop, argument_of, with_references-filled_value}
use pepin.Terraform.Mapping.{TfSpec, apply_plan}
use pepin.Terraform.Unmapped.{unmapped_count, is_unmapped, apply_plan-unmapped}
use pepin.Examples.Live.{go}

abbrev machine : PlanResource
machine = record {
  address = "module.net.outscale_vm.web[0]";
  type = "outscale_vm";
  name = "web";
  values = some (Fields.field "name" (Value.text "web") Fields.stop);
}

abbrev group : PlanResource
group = record {
  address = "outscale_security_group.front";
  type = "outscale_security_group";
  name = "front";
  values = some Fields.stop;
}

abbrev root : Module
root =
    Module.module_of (group ∷ [])
      (Modules.child (Module.module_of (machine ∷ []) Modules.stop) Modules.stop)

abbrev configuration : ConfigModule
configuration = ConfigModule.config_module [] (
    ModuleCalls.call "net" "./net"
      (ConfigModule.config_module
        (record {
          address = "outscale_vm.web";
          expressions = ("security_group_id", "var.group") ∷ [];
        }
          ∷ [])
        ModuleCalls.stop)
      (("group", "outscale_security_group.front") ∷ []) ModuleCalls.stop)

-- An expression is its only reference.
abbrev decode : String → Option (List String)
decode raw = some (raw ∷ [])

abbrev no_index : Option ConfigModule → Dict Index
no_index cfg = []

abbrev document : Document
document =
    Document.plan
      (record { planned_values = some root; values = none; configuration = some configuration })

-- A key with a dot cuts the address of the module.
module_of_keyed : module_of "module.net[\"eu.west\"].outscale_vm.web" ≡ "module.net[\"eu"
unfolding module_of split_char str_dec
module_of_keyed = refl

parsed : List TfResource
unfolding resources_of resolve_references
parsed = resolve_references decode (some configuration) (resolve_origins [] (resources_of root))

parses : parse_plan decode no_index document ≡ inr parsed
unfolding parse_plan parsed
parses = refl

parse_plan-RefersOnly_example : All (RefersOnly (map address_of parsed)) parsed
parse_plan-RefersOnly_example = parse_plan-RefersOnly decode no_index document parsed parses

-- The reference crosses the border of the module.
machine_group :
    resolve 9
      (record {
        instances = ("outscale_security_group.front", "outscale_security_group.front" ∷ []) ∷ [];
        args = ("module.net.", ("group", "outscale_security_group.front" ∷ []) ∷ []) ∷ [];
      })
      ("var.group" ∷ [])
      "module.net."
    ≡ "outscale_security_group.front" ∷ []
unfolding resolve str_dec
machine_group = refl

abbrev fields : Dict String
fields = ("group", "_parent.security_group_id") ∷ ("name", "name") ∷ []

abbrev refs : Dict (List String)
refs =
    ("security_group_id", "outscale_security_group.front" ∷ [])
    ∷ ("name", "outscale_vm.other" ∷ [])
    ∷ []

abbrev values : Fields
values = Fields.field "name" (Value.text "web") Fields.stop

with_references-filled_value_example :
    field_of "security_group_id" (or_stop (with_references (some values) fields refs))
    ≡ some (Value.text "outscale_security_group.front")
unfolding str_dec argument_of
with_references-filled_value_example =
    with_references-filled_value "security_group_id" values fields refs

abbrev mapping : TfSpec
mapping = record {
  provider = "outscale";
  resources =
      record {
        tf_type = "outscale_vm";
        type = "compute_instance";
        id = "vm_id";
        region = "";
        items = "";
        mapping = fields;
        transforms = [];
        const = [];
      }
      ∷ [];
}

apply_plan-unmapped_example :
    unmapped_count "outscale_security_group" (apply_plan go mapping parsed).collection.unmapped
    ≡ count_by (is_unmapped go mapping "outscale_security_group") parsed
unfolding str_dec
apply_plan-unmapped_example = apply_plan-unmapped go mapping "outscale_security_group" parsed refl
