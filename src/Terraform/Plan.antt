-- ===== src/Terraform/Plan.antt =====
-- internal/tfparse/tfparse.go: the plan, `terraform show -json`, and the resources of its modules.
use pepin.Prelude.{ℕ, String, Option, List, [], ◌∷◌, ◌++◌, if◌then◌else◌, ◌==◌, Dict}
use pepin.Model.Resource.{Fields}

-- `none` is the nil map.
pub record PlanResource : Type 0 where
  pub address : String
  pub type : String
  pub name : String
  pub values : Option Fields

mutual
  pub data Module : Type 0 where
    module_of : List PlanResource → Modules → Module

  pub data Modules : Type 0 where
    stop : Modules
    child : Module → Modules → Modules

-- The expressions, and the arguments of a call, by name; each is a JSON text.
pub record ConfigResource : Type 0 where
  pub address : String
  pub expressions : Dict String

-- A call has a name, a source, its module and its arguments.
mutual
  pub data ConfigModule : Type 0 where
    config_module : List ConfigResource → ModuleCalls → ConfigModule

  pub data ModuleCalls : Type 0 where
    stop : ModuleCalls
    call : String → String → ConfigModule → Dict String → ModuleCalls → ModuleCalls

pub record Plan : Type 0 where
  pub planned_values : Option Module
  pub values : Option Module
  pub configuration : Option ConfigModule

-- The line is 0 where it is not known.
pub record Origin : Type 0 where
  pub file : String
  pub line : ℕ
  pub module_address : String

-- `Resource`
pub record TfResource : Type 0 where
  pub type : String
  pub name : String
  pub address : String
  pub values : Option Fields
  pub origin : Origin
  pub references : Dict (List String)

abbrev no_origin : Origin
no_origin = record { file = ""; line = 0; module_address = "" }

-- The loop of `collect` over the resources of one module.
unfoldable pub collect_resources : List PlanResource → List TfResource
collect_resources [] = []
collect_resources (r ∷ rs) =
    let rest = collect_resources rs in
    if r.type == ""
    then rest
    else record {
      type = r.type;
      name = r.name;
      address = r.address;
      values = r.values;
      origin = no_origin;
      references = [];
    }
      ∷ rest

-- `collect`
unfoldable mutual
  unfolding collect_resources

  pub collect_module : Module → List TfResource
  collect_module (Module.module_of rs children) =
      collect_resources rs ++ collect_child_modules children

  pub collect_child_modules : Modules → List TfResource
  collect_child_modules Modules.stop = []
  collect_child_modules (Modules.child m ms) = collect_module m ++ collect_child_modules ms
