-- ===== src/Terraform/Mapping.antt =====
-- internal/tfmap/tfmap.go: `Apply`, the resources of a plan in the model of the inventory. A list of an
-- attribute is a value here, where the code rewrites it in place.
use pepin.Prelude.{
  String, ◌<>◌, Bool, not, ◌&&◌, Option, none, some, List, [], ◌∷◌, ◌++◌, if◌then◌else◌, ◌==◌,
  nat_eq, Dict, lookup, index, insert, has, any_by, starts_with,
}
use pepin.Model.Resource.{Value, Values, Fields, SourceRef, Resource}
use pepin.Model.Json.{field_of}
use pepin.Model.Collection.{Collection, record_unmapped}
use pepin.Model.Collection.Merge.{blank}
use pepin.Collect.Items.{extract_items}
use pepin.Collect.Transforms.{Go, Transform}
use pepin.Collect.Projection.{project, project_attested, attest_const}
use pepin.Collect.Engine.{Inventory, set_all, text_at}
use pepin.Terraform.Plan.{Origin, TfResource}
use pepin.Terraform.Filling.{with_references, injected_fields, attest_references, or_stop}

-- `ResourceSpec` of internal/tfmap; `mapping` is the field Map.
pub record TfResourceSpec : Type 0 where
  pub tf_type : String
  pub type : String
  pub id : String
  pub region : String
  pub items : String
  pub mapping : Dict String
  pub transforms : Dict Transform
  pub const : Dict Value

pub record TfSpec : Type 0 where
  pub provider : String
  pub resources : List TfResourceSpec

-- A resource of the inventory, the attributes that a reference filled, and the attribute of its
-- identifier.
pub record Mapped : Type 0 where
  pub resource : Resource
  pub injected : List String
  pub id_attr : String

-- The state of `Apply`: what is mapped, the identifier of each address, and the collection.
pub record Mapping : Type 0 where
  pub mapped : List Mapped
  pub ids : Dict String
  pub collection : Collection

-- `sourceRefOf`
unfoldable pub source_ref_of : Origin → Option SourceRef
source_ref_of o =
    if o.file == "" && nat_eq o.line 0 && o.module_address == ""
    then none
    else some (record { file = o.file; line = o.line; module_address = o.module_address })

abbrev renamed : Dict String → String → String
renamed ids address = index address ids address

-- The elements of a list that are addresses.
unfoldable pub rewrite_values : Dict String → Values → Values
rewrite_values ids Values.end = Values.end
rewrite_values ids (Values.item (Value.text a) vs) =
    Values.item (Value.text (renamed ids a)) (rewrite_values ids vs)
rewrite_values ids (Values.item v vs) = Values.item v (rewrite_values ids vs)

unfoldable pub rewrite_value : Dict String → Value → Value
unfolding rewrite_values
rewrite_value ids (Value.text a) = Value.text (renamed ids a)
rewrite_value ids (Value.array vs) = Value.array (rewrite_values ids vs)
rewrite_value ids v = v

abbrev rewrite_at : Dict String → String → Dict Value → Dict Value
rewrite_at ids attr attrs = elim (lookup attr attrs) [
  | none ↦ attrs
  | some v ↦ insert attr (rewrite_value ids v) attrs
]

-- The inner loop of `resoudreVersLIdentite`.
unfoldable pub rewrite_attributes : Dict String → List String → Dict Value → Dict Value
unfolding rewrite_value
rewrite_attributes ids [] attrs = attrs
rewrite_attributes ids (attr ∷ injected) attrs =
    rewrite_attributes ids injected (rewrite_at ids attr attrs)

abbrev with_identity : Dict String → Mapped → Resource
with_identity ids m =
    if has m.injected m.id_attr
    then record (m.resource) {
      name =
          if m.resource.name == m.resource.id then renamed ids m.resource.id else m.resource.name;
      id = renamed ids m.resource.id;
    }
    else m.resource

abbrev resolve_identity : Dict String → Mapped → Resource
resolve_identity ids m = record (with_identity ids m) {
  attributes = rewrite_attributes ids m.injected m.resource.attributes;
}

-- `resoudreVersLIdentite`
unfoldable pub resolve_identities : Dict String → List Mapped → List Resource
unfolding rewrite_attributes
resolve_identities ids [] = []
resolve_identities ids (m ∷ ms) = resolve_identity ids m ∷ resolve_identities ids ms

abbrev or_address : String → String → String
or_address id address = if id == "" then address else id

abbrev name_or : Option Value → String → String
name_or (some (Value.text n)) id = if n == "" then id else n
name_or v id = id

abbrev pub is_declared : TfSpec → String → Bool
is_declared spec type = any_by (λ rs. rs.tf_type == type) spec.resources

module _ (go : Go) (spec : TfSpec) where
  -- `regionOf`
  unfoldable pub plan_region_of : TfResourceSpec → Fields → String
  plan_region_of rs values =
      if rs.region == ""
      then ""
      else text_at "region" (
          project go (Value.object values) (("region", rs.region) ∷ [])
            (elim (lookup rs.region rs.transforms) [ none ↦ [] | some t ↦ ("region", t) ∷ [] ]))

  -- The body of the loop over the items.
  abbrev pub map_plan_item : TfResourceSpec → TfResource → Value → Mapped
  map_plan_item rs res it =
      let values = or_stop res.values in
      let out =
        project_attested go it rs.mapping rs.transforms
          (record { origin = "terraform-plan"; ref = res.type }) in
      let attrs = set_all rs.const out.attrs in
      let id = or_address (text_at rs.id attrs) res.address in
      record {
        resource = record {
          provider = spec.provider;
          type = rs.type;
          id = id;
          name = name_or (field_of "name" values) id;
          region = plan_region_of rs values;
          attributes = attrs;
          provenance =
              attest_const rs.const "descriptor:const"
                (attest_references res.type values res.references rs.mapping out.prov);
          source = source_ref_of res.origin;
        };
        injected = injected_fields values res.references rs.mapping;
        id_attr = rs.id;
      }

  unfoldable pub map_plan_items : TfResourceSpec → TfResource → List Value → Mapping → Mapping
  map_plan_items rs res [] st = st
  map_plan_items rs res (it ∷ items) st =
      let m = map_plan_item rs res it in
      map_plan_items rs res items
        (record st { mapped = st.mapped ++ m ∷ []; ids = insert res.address m.resource.id st.ids })

  abbrev pub items_of_resource : TfResourceSpec → TfResource → List Value
  items_of_resource rs res =
      let values = Value.object (or_stop (with_references res.values rs.mapping res.references)) in
      if rs.items == "" then values ∷ [] else extract_items values rs.items

  -- The loop over the specifications of one resource.
  unfoldable pub map_by_specs : List TfResourceSpec → TfResource → Mapping → Mapping
  unfolding map_plan_items
  map_by_specs [] res st = st
  map_by_specs (rs ∷ specs) res st =
      map_by_specs specs res
        (if rs.tf_type == res.type then map_plan_items rs res (items_of_resource rs res) st else st)

  abbrev pub map_resource : TfResource → Mapping → Mapping
  map_resource res st =
      if not (is_declared spec res.type)
      then if starts_with res.type (spec.provider <> "_")
        then record st { collection = record_unmapped st.collection res.type 1 }
        else st
      else map_by_specs spec.resources res st

  unfoldable pub map_resources : List TfResource → Mapping → Mapping
  unfolding map_by_specs
  map_resources [] st = st
  map_resources (res ∷ rest) st = map_resources rest (map_resource res st)

  -- `Apply`
  unfoldable pub apply_plan : List TfResource → Inventory
  unfolding map_resources resolve_identities
  apply_plan resources =
      let st = map_resources resources (record { mapped = []; ids = []; collection = blank }) in
      record { resources = resolve_identities st.ids st.mapped; collection = st.collection }
