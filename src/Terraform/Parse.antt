-- ===== src/Terraform/Parse.antt =====
-- internal/tfparse/tfparse.go: `ParsePlan`. The read of the file and the decoding of its JSON are what
-- `document` says.
use pepin.Prelude.{String, Bool, Option, none, some, List, ◌⊎◌, inl, inr, Dict, str_le, sort_by}
use pepin.Terraform.Plan.{Module, ConfigModule, Plan, TfResource, collect_module}
use pepin.Terraform.Origins.{Index, resolve_origins}
use pepin.Terraform.References.{resolve_references}

pub data PlanError : Type 0 where
  unreadable invalid no_values : PlanError

pub data Document : Type 0 where
  no_file no_json : Document
  plan : Plan → Document

abbrev pub address_le : TfResource → TfResource → Bool
address_le a b = str_le a.address b.address

abbrev pub root_of : Plan → Option Module
root_of p = elim p.planned_values [ some m ↦ some m | none ↦ p.values ]

-- The resources of a plan, in the order of their addresses.
unfoldable pub resources_of : Module → List TfResource
unfolding collect_module sort_by
resources_of root = sort_by address_le (collect_module root)

-- `ParsePlan`; `index_of` gives the indexes of the files of the configuration.
unfoldable pub parse_plan :
    (String → Option (List String))
    → (Option ConfigModule → Dict Index)
    → Document
    → PlanError ⊎ List TfResource
unfolding resources_of resolve_origins resolve_references
parse_plan decode index_of Document.no_file = inl PlanError.unreadable
parse_plan decode index_of Document.no_json = inl PlanError.invalid
parse_plan decode index_of (Document.plan p) = elim (root_of p) [
  | none ↦ inl PlanError.no_values
  | some root ↦ inr (
      resolve_references decode p.configuration
        (resolve_origins (index_of p.configuration) (resources_of root)))
]
