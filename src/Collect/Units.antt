-- ===== src/Collect/Units.antt =====
-- internal/collect/engine.go: what one entry of the specification collects.
use mathlib.Core.Path.{subst}
use pepin.Prelude.{
  suc, ◌≡◌, refl, ◌∙◌, sym, ap, String, Bool, true, false, not, Option, none, some, List, [], ◌∷◌,
  ◌==◌, Dict, insert, lookup, lookup-insert, All, All-append, arith, length, itoa, ℕ, ◌≤◌, ◌*◌,
}
use pepin.Model.Resource.{Value, Resource}
use pepin.Collect.Status.{CollectError}
use pepin.Collect.Transforms.{Go}
use pepin.Collect.Projection.{Source}
use pepin.Collect.Fetch.{Paging, Fetched, Transport, fetch}
use pepin.Collect.Pages.{Listing, fetch_items, max_pages}
use pepin.Collect.Served.{Serves, fetch_items-Serves}
use pepin.Collect.Specs.{
  ForEach, ResourceSpec, Spec, subst as subst_vars, resource_url, merge_vars, parent_of,
}
use pepin.Collect.Engine.{
  Collected, set_all, api_source, map_items, list_resource, turn, collect_children,
  collect_for_each, collect_listing, collect_entry, collect_resource,
}

-- A value that is set first and by no literal stays.
lookup-set_all :
    (k : String) (consts attrs : Dict Value)
    → lookup k consts ≡ none
    → lookup k (set_all consts attrs) ≡ lookup k attrs
lookup-set_all k [] attrs h = refl
lookup-set_all k ((j, v) ∷ consts) attrs h =
    lookup-set_all k consts (insert j v attrs) (ground (arith, h))
    ∙ ground (arith, h, lookup-insert k j v attrs)

module _ (go : Go) (net : Transport) (spec : Spec) (r : ResourceSpec) where
  -- A resource of the provider and of the type, whose identifier is its name.
  abbrev pub IsOf : Resource → Type 0
  IsOf x = (x.provider ≡ spec.provider) × (x.type ≡ r.type) × (x.id ≡ x.name)

  map_items-IsOf :
      (vars : Dict String) (src : Source) (items : List Value)
      → All IsOf (map_items go net spec r vars src items)
  unfolding map_items
  map_items-IsOf vars src [] = tt
  map_items-IsOf vars src (it ∷ items) = ((refl, refl, refl), map_items-IsOf vars src items)

  turn-IsOf :
      (o : Option CollectError) (read : List Resource) (rest : Collected)
      → All IsOf read
      → All IsOf rest.resources
      → All IsOf (turn o read rest).resources
  turn-IsOf none read rest h k = k
  turn-IsOf (some e) read rest h k = h

  collect_children-IsOf :
      (fe : ForEach) (vars : Dict String) (parent_err : Option CollectError) (parents : List Value)
      (out : List Resource)
      → All IsOf out
      → All IsOf (collect_children go net spec r fe vars parent_err parents out).resources
  unfolding collect_children
  collect_children-IsOf fe vars parent_err [] out h = h
  collect_children-IsOf fe vars parent_err (p ∷ parents) out h =
      let v2 = merge_vars go vars fe.as_prefix (parent_of p) in
      let listing = list_resource go net spec r v2 in
      let read = All-append IsOf out _ h (map_items-IsOf v2 (api_source listing) _) in
      turn-IsOf listing.error _ _ read (collect_children-IsOf fe vars parent_err parents _ read)

  collect_listing-IsOf :
      (vars : Dict String) (listing : Listing) (o : Option CollectError) (single : Bool)
      → not (r.aggregate == "") ≡ single
      → All IsOf (collect_listing go net spec r vars listing o).resources
  collect_listing-IsOf vars listing (some e) true h = rw h tt
  collect_listing-IsOf vars listing (some e) false h = rw h (map_items-IsOf vars _ listing.items)
  collect_listing-IsOf vars listing none true h = rw h ((refl, refl, refl), tt)
  collect_listing-IsOf vars listing none false h = rw h (map_items-IsOf vars _ listing.items)

  collect_entry-IsOf :
      (vars : Dict String) (o : Option ForEach)
      → All IsOf (collect_entry go net spec r vars o).resources
  unfolding collect_for_each
  collect_entry-IsOf vars none =
      collect_listing-IsOf vars (list_resource go net spec r vars) _ _ refl
  collect_entry-IsOf vars (some fe) = collect_children-IsOf fe vars _ _ [] tt

  -- What an entry of the specification collects is its own: every resource that it returns, whether it
  -- lists items, counts them or runs through the children of parents, and whether it failed or not, has
  -- the provider and the type of the entry, and one text for its identifier and its name.
  pub collect_resource-IsOf :
      (vars : Dict String) → All IsOf (collect_resource go net spec r vars).resources
  unfolding collect_resource
  collect_resource-IsOf vars = collect_entry-IsOf vars r.for_each

  -- The number that an aggregate publishes, where no literal of the entry replaces it.
  abbrev pub Counts : ℕ → List Resource → Type 0
  Counts n [] = ⊥
  Counts n (x ∷ xs) = lookup r.aggregate x.attributes ≡ some (Value.number (itoa n))

  abbrev pub Counted : Listing → Collected → Option CollectError → Type 0
  Counted listing read (some e) = (read.resources ≡ []) × (read.error ≡ some e)
  Counted listing read none = Counts (length listing.items) read.resources × (read.error ≡ none)

  collect_listing-Counted :
      (vars : Dict String) (listing : Listing) (o : Option CollectError)
      → (r.aggregate == "") ≡ false
      → lookup r.aggregate r.const ≡ none
      → Counted listing (collect_listing go net spec r vars listing o) o
  collect_listing-Counted vars listing (some e) counting free = (ground (arith, counting), refl)
  collect_listing-Counted vars listing none counting free =
      rw counting (lookup-set_all r.aggregate r.const _ free ∙ ground arith, refl)

  -- A count is never made of a truncated listing: an entry that counts its items returns no resource
  -- and the error where the listing has one, and else a resource whose attribute is the number of
  -- items that the listing returned.
  pub collect_resource-Counted :
      (vars : Dict String)
      → r.for_each ≡ none
      → (r.aggregate == "") ≡ false
      → lookup r.aggregate r.const ≡ none
      → Counted
          (list_resource go net spec r vars)
          (collect_resource go net spec r vars)
          (list_resource go net spec r vars).error
  unfolding collect_resource
  collect_resource-Counted vars single counting free =
      subst
        (λ read.
          Counted (list_resource go net spec r vars) read (list_resource go net spec r vars).error)
        (ap (collect_entry go net spec r vars) (sym single))
        (collect_listing-Counted vars (list_resource go net spec r vars) _ counting free)

  length-map_items :
      (vars : Dict String) (src : Source) (items : List Value)
      → length (map_items go net spec r vars src items) ≡ length items
  unfolding map_items
  length-map_items vars src [] = refl
  length-map_items vars src (it ∷ items) = ap suc (length-map_items vars src items)

  collect_listing-length :
      (vars : Dict String) (listing : Listing) (o : Option CollectError)
      → (r.aggregate == "") ≡ true
      → o ≡ none
      → (length (collect_listing go net spec r vars listing o).resources ≡ length listing.items)
        × ((collect_listing go net spec r vars listing o).error ≡ none)
  collect_listing-length vars listing (some e) plain h = absurd (ground (arith, h))
  collect_listing-length vars listing none plain h =
      (rw plain (length-map_items vars _ listing.items), refl)

  abbrev pub request_of : Dict String → ℕ → ℕ → String → Fetched
  request_of vars page offset token =
      fetch net (resource_url spec r r.path vars) r.paging page offset token r.method
        (subst_vars r.body vars)

  -- An endpoint that lists `all` by offset, as `Serves` says, is collected to the end: one resource for
  -- each item and no error, whatever the size of the pages that it gives.
  pub collect_resource-Serves :
      (vars : Dict String) (p : Paging) (all : List Value) (most : ℕ)
      → r.for_each ≡ none
      → (r.aggregate == "") ≡ true
      → r.paging ≡ some p
      → Serves (request_of vars) r.items p all most
      → p.style ≡ "offset-body"
      → (p.more_path == "") ≡ false
      → 1 ≤ most
      → length all ≤ max_pages (some p) * most
      → (length (collect_resource go net spec r vars).resources ≡ length all)
        × ((collect_resource go net spec r vars).error ≡ none)
  unfolding collect_resource
  collect_resource-Serves vars p all most single plain paged serves offset more one enough =
      let listed =
        subst
          (λ (q : Option Paging).
            ((fetch_items (request_of vars) r.items q).items ≡ all)
            × ((fetch_items (request_of vars) r.items q).error ≡ none))
          (sym paged)
          (fetch_items-Serves (request_of vars) r.items p all most serves offset more one enough) in
      let read = collect_listing-length vars (list_resource go net spec r vars) _ plain listed.1 in
      subst (λ (c : Collected). (length c.resources ≡ length all) × (c.error ≡ none))
        (ap (collect_entry go net spec r vars) (sym single)) (read.0 ∙ ap length listed.0, read.1)
