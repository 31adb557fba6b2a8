-- ===== src/Collect/Specs.antt =====
-- internal/collect/engine.go: the specification of a collection, and its variables.
use pepin.Prelude.{
  String, ◌<>◌, Option, none, some, List, [], ◌∷◌, if◌then◌else◌, ◌==◌, not, Dict, index, insert,
  replace_all,
}
use pepin.Model.Resource.{Value, Fields}
use pepin.Model.Json.{set_field}
use pepin.Collect.Items.{Parent}
use pepin.Collect.Transforms.{Go, Transform, to_str}
use pepin.Collect.Fetch.{Paging}

pub record ForEach : Type 0 where
  pub path : String
  pub items : String
  pub as_prefix : String
  pub method : String
  pub body : String
  pub paging : Option Paging

-- `mapping` is the field Map, and `aggregate` is "" where it is not set.
pub record ResourceSpec : Type 0 where
  pub type : String
  pub path : String
  pub base_url : String
  pub method : String
  pub body : String
  pub items : String
  pub id : String
  pub mapping : Dict String
  pub transforms : Dict Transform
  pub const : Dict Value
  pub aggregate : String
  pub paging : Option Paging
  pub for_each : Option ForEach

pub record Spec : Type 0 where
  pub provider : String
  pub base_url : String
  pub region_key : String
  pub resources : List ResourceSpec

-- `regionOf`
unfoldable pub region_of : Spec → Dict String → String
region_of spec vars =
    if not (spec.region_key == "") then index "" vars spec.region_key else index "" vars "region"

-- `subst`, the variables in the order of the map.
unfoldable pub subst : String → Dict String → String
subst s [] = s
subst s ((k, v) ∷ vars) = subst (replace_all s ("{" <> k <> "}") v) vars

-- `resourceURL`
unfoldable pub resource_url : Spec → ResourceSpec → String → Dict String → String
unfolding subst
resource_url spec r path vars =
    (if not (r.base_url == "") then subst r.base_url vars else spec.base_url) <> subst path vars

-- The second loop of `mergeVars`, over the fields of the parent.
unfoldable pub merge_fields : Go → Dict String → String → Fields → Dict String
merge_fields go vars as_prefix Fields.stop = vars
merge_fields go vars as_prefix (Fields.field k (Value.object fs) rest) =
    merge_fields go vars as_prefix rest
merge_fields go vars as_prefix (Fields.field k (Value.array vs) rest) =
    merge_fields go vars as_prefix rest
merge_fields go vars as_prefix (Fields.field k v rest) =
    merge_fields go (insert (as_prefix <> "." <> k) (to_str go v) vars) as_prefix rest

-- `mergeVars`
unfoldable pub merge_vars : Go → Dict String → String → Parent → Dict String
unfolding merge_fields
merge_vars go vars as_prefix none = vars
merge_vars go vars as_prefix (some parent) = merge_fields go vars as_prefix parent

abbrev pub parent_of : Value → Parent
parent_of (Value.object fs) = some fs
parent_of v = none

abbrev parent_fields : Parent → Fields
parent_fields none = Fields.stop
parent_fields (some fs) = fs

-- `withParent`
unfoldable pub with_parent : Parent → Value → Value
with_parent parent (Value.object fs) =
    Value.object (set_field "_parent" (Value.object (parent_fields parent)) fs)
with_parent parent v = v
