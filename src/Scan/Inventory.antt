-- ===== src/Scan/Inventory.antt =====
-- cmd/scan.go: what the scan reads off the inventory before `Build`, for typed resources (a live
-- collection or a Terraform plan).
use pepin.Prelude.{
  String, ◌<>◌, Bool, true, false, not, ◌&&◌, List, [], ◌∷◌, ◌++◌, if◌then◌else◌, ◌==◌, Dict, index,
  insert, keys, has, filter_by,
}
use pepin.Model.Resource.{Value, Resource}

-- `resourceTypesOf`, a set.
unfoldable pub resource_types_of : List Resource → List String
resource_types_of [] = []
resource_types_of (r ∷ rs) =
    let rest = resource_types_of rs in if r.type == "" then rest else r.type ∷ rest

-- `targetID`
abbrev pub target_id : String → String → String
target_id provider region = if region == "" then provider else provider <> "/" <> region

abbrev named : String → List String
named v = if v == "" then [] else v ∷ []

-- `subjectsOf`, a set; `target` is the result of `targetID`.
unfoldable pub subjects_of : String → List Resource → List String
subjects_of target [] = named target
subjects_of target (r ∷ rs) = named r.id ++ named r.name ++ subjects_of target rs

-- `collected`: a value that is there, an empty collection included.
abbrev pub collected_value : Value → Bool
collected_value Value.null = false
collected_value v = true

abbrev pub collected_names : Dict Value → List String
collected_names [] = []
collected_names ((k, v) ∷ attrs) =
    let rest = collected_names attrs in if collected_value v then k ∷ rest else rest

-- What a resource carries: its collected attributes, and its region under that name.
unfoldable pub carried : Resource → List String
carried r = collected_names r.attributes ++ (if r.region == "" then [] else "region" ∷ [])

-- The set `exposed` of a type: the first loop over its resources.
unfoldable pub exposed : List Resource → List String
unfolding carried
exposed [] = []
exposed (r ∷ rs) = carried r ++ exposed rs

-- An attribute that was sought, and that another resource of the type exposes.
abbrev pub is_rescued : List String → Resource → String → Bool
is_rescued exposed_ r k = not (has (keys r.attributes) k) && has exposed_ k

-- The set `present` of one resource.
unfoldable pub present : List String → Resource → List String
unfolding carried
present exposed_ r = carried r ++ filter_by (is_rescued exposed_ r) (keys r.provenance)

-- The loop that deletes from `inter`.
unfoldable pub intersect_from : List String → List String → List Resource → List String
unfolding present
intersect_from exposed_ inter [] = inter
intersect_from exposed_ inter (r ∷ rs) =
    intersect_from exposed_ (filter_by (has (present exposed_ r)) inter) rs

unfoldable pub intersect : List Resource → List String
unfolding intersect_from exposed
intersect [] = []
intersect (r ∷ rs) = let all_ = exposed (r ∷ rs) in intersect_from all_ (present all_ r) rs

-- The calls of `add`.
unfoldable pub group_from : List Resource → Dict (List Resource) → Dict (List Resource)
group_from [] per_type = per_type
group_from (r ∷ rs) per_type =
    group_from rs (
      if r.type == ""
      then per_type
      else insert r.type (index [] per_type r.type ++ r ∷ []) per_type)

-- `finish`
unfoldable pub finish : Dict (List Resource) → Dict (List String)
unfolding intersect
finish [] = []
finish ((t, rs) ∷ per_type) = (t, intersect rs) ∷ finish per_type

-- `attrsByTypeOf`
unfoldable pub attrs_by_type_of : List Resource → Dict (List String)
unfolding group_from finish
attrs_by_type_of rs = finish (group_from rs [])
