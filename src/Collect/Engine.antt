-- ===== src/Collect/Engine.antt =====
-- internal/collect/engine.go: `Collect`, every resource type of a specification in turn.
use pepin.Prelude.{
  String, true, not, Option, none, some, List, [], ◌∷◌, ◌++◌, map, if◌then◌else◌, ◌==◌, Dict,
  lookup, insert, length, itoa,
}
use pepin.Model.Resource.{Value, Resource, Attestation}
use pepin.Model.Collection.{Collection}
use pepin.Collect.Status.{CollectError}
use pepin.Collect.Transforms.{Go}
use pepin.Collect.Projection.{Source, project_attested, attest_const}
use pepin.Collect.Fetch.{Transport, fetch}
use pepin.Collect.Pages.{Listing, fetch_items}
use pepin.Collect.Specs.{
  ForEach, ResourceSpec, Spec, region_of, subst, resource_url, merge_vars, parent_of, with_parent,
}

-- What a unit of collection returns: the resources that it read, and the error.
pub record Collected : Type 0 where
  pub resources : List Resource
  pub error : Option CollectError

pub record Inventory : Type 0 where
  pub resources : List Resource
  pub collection : Collection

abbrev const_ref : String
const_ref = "descriptor:const"

abbrev pub set_all : Dict Value → Dict Value → Dict Value
set_all [] attrs = attrs
set_all ((k, v) ∷ consts) attrs = set_all consts (insert k v attrs)

-- `id, _ := attrs[r.ID].(string)`
abbrev pub text_at : String → Dict Value → String
text_at k attrs = elim (lookup k attrs) [ some (Value.text s) ↦ s | _ ↦ "" ]

abbrev pub made_resource :
    Spec → ResourceSpec → Dict String → Dict Value → Dict Attestation → Resource
made_resource spec r vars attrs prov = record {
  provider = spec.provider;
  type = r.type;
  id = text_at r.id attrs;
  name = text_at r.id attrs;
  region = region_of spec vars;
  attributes = attrs;
  provenance = prov;
  source = none;
}

abbrev pub api_source : Listing → Source
api_source listing = record { origin = "api"; ref = listing.called }

-- A turn of the loop over the parents: the error of a child ends it, and keeps what was read.
abbrev pub turn : Option CollectError → List Resource → Collected → Collected
turn none read rest = rest
turn (some e) read rest = record { resources = read; error = some e }

module _ (go : Go) (net : Transport) where
  -- The body of the loop of `mapItems`.
  abbrev pub map_item : Spec → ResourceSpec → Dict String → Source → Value → Resource
  map_item spec r vars src it =
      let out = project_attested go it r.mapping r.transforms src in
      made_resource spec r vars (set_all r.const out.attrs)
        (attest_const r.const const_ref out.prov)

  -- `mapItems`
  unfoldable pub map_items : Spec → ResourceSpec → Dict String → Source → List Value → List Resource
  map_items spec r vars src [] = []
  map_items spec r vars src (it ∷ items) =
      map_item spec r vars src it ∷ map_items spec r vars src items

  -- The call of `fetchItems` for the items of a resource type, and for the parents of a join.
  abbrev pub list_resource : Spec → ResourceSpec → Dict String → Listing
  list_resource spec r vars =
      fetch_items
        (λ page offset token.
          fetch net (resource_url spec r r.path vars) r.paging page offset token r.method
            (subst r.body vars))
        r.items r.paging

  abbrev list_parents : Spec → ResourceSpec → ForEach → Dict String → Listing
  list_parents spec r fe vars =
      fetch_items
        (λ page offset token.
          fetch net (resource_url spec r fe.path vars) fe.paging page offset token fe.method
            (subst fe.body vars))
        fe.items fe.paging

  abbrev pub aggregate_resource : Spec → ResourceSpec → Dict String → Listing → Resource
  aggregate_resource spec r vars listing =
      made_resource spec r vars
        (set_all r.const ((r.aggregate, Value.number (itoa (length listing.items))) ∷ []))
        (attest_const r.const const_ref (
          (
            r.aggregate,
            record {
              origin = "api";
              source = listing.called;
              path = "";
              observed = true;
              derived = true;
            },
          )
          ∷ []))

  -- The children of one parent.
  abbrev pub children_of : Spec → ResourceSpec → Dict String → Value → Listing → List Resource
  children_of spec r vars p listing =
      map_items spec r vars (api_source listing) (map (with_parent (parent_of p)) listing.items)

  -- The loop of `collectForEach` over the parents.
  unfoldable pub collect_children :
      Spec
      → ResourceSpec
      → ForEach
      → Dict String
      → Option CollectError
      → List Value
      → List Resource
      → Collected
  collect_children spec r fe vars parent_err [] out = record { resources = out; error = parent_err }
  collect_children spec r fe vars parent_err (p ∷ parents) out =
      let v2 = merge_vars go vars fe.as_prefix (parent_of p) in
      let listing = list_resource spec r v2 in
      let read = out ++ children_of spec r v2 p listing in
      turn listing.error read (collect_children spec r fe vars parent_err parents read)

  -- `collectForEach`
  unfoldable pub collect_for_each : Spec → ResourceSpec → ForEach → Dict String → Collected
  unfolding collect_children
  collect_for_each spec r fe vars =
      let parents = list_parents spec r fe vars in
      collect_children spec r fe vars parents.error parents.items []

  -- The end of `collectResource`, with the items and the error of the listing.
  abbrev pub collect_listing :
      Spec → ResourceSpec → Dict String → Listing → Option CollectError → Collected
  collect_listing spec r vars listing (some e) = record {
    resources =
        if not (r.aggregate == "")
        then []
        else map_items spec r vars (api_source listing) listing.items;
    error = some e;
  }
  collect_listing spec r vars listing none = record {
    resources =
        if not (r.aggregate == "")
        then aggregate_resource spec r vars listing ∷ []
        else map_items spec r vars (api_source listing) listing.items;
    error = none;
  }

  abbrev pub collect_entry : Spec → ResourceSpec → Dict String → Option ForEach → Collected
  collect_entry spec r vars (some fe) = collect_for_each spec r fe vars
  collect_entry spec r vars none =
      let listing = list_resource spec r vars in collect_listing spec r vars listing listing.error

  -- `collectResource`
  unfoldable pub collect_resource : Spec → ResourceSpec → Dict String → Collected
  unfolding collect_for_each map_items
  collect_resource spec r vars = collect_entry spec r vars r.for_each
