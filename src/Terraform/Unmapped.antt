-- ===== src/Terraform/Unmapped.antt =====
-- internal/tfmap/tfmap.go: the types of a plan that the mapping does not know.
use pepin.Prelude.{
  ℕ, ◌+◌, ◌≡◌, refl, ◌∙◌, String, ◌<>◌, Bool, false, not, ◌&&◌, some, List, [], ◌∷◌, ◌++◌,
  if◌then◌else◌, ◌==◌, count_by, insert_by, sort_by, starts_with, inl, inr, Option-cases, arith,
}
use pepin.Model.Resource.{Value}
use pepin.Model.Collection.{UnmappedType, Collection, add_unmapped, record_unmapped, unmapped_le}
use pepin.Collect.Transforms.{Go}
use pepin.Terraform.Plan.{TfResource}
use pepin.Terraform.Mapping.{
  TfSpec, TfResourceSpec, Mapping, is_declared, map_plan_items, map_by_specs, map_resource,
  map_resources, items_of_resource, apply_plan,
}

-- How often a collection says that it saw a type without a mapping.
abbrev pub unmapped_count : String → List UnmappedType → ℕ
unmapped_count t [] = 0
unmapped_count t (x ∷ xs) = (if x.type == t then x.count else 0) + unmapped_count t xs

unmapped_count-insert_by :
    (t : String) (x : UnmappedType) (xs : List UnmappedType)
    → unmapped_count t (insert_by unmapped_le x xs) ≡ unmapped_count t (x ∷ xs)
unfolding insert_by
unmapped_count-insert_by t x [] = refl
unmapped_count-insert_by t x (y ∷ ys) = ground (arith, unmapped_count-insert_by t x ys)

unmapped_count-sort_by :
    (t : String) (xs : List UnmappedType)
    → unmapped_count t (sort_by unmapped_le xs) ≡ unmapped_count t xs
unfolding sort_by
unmapped_count-sort_by t [] = refl
unmapped_count-sort_by t (x ∷ xs) =
    ground
      (arith, unmapped_count-insert_by t x (sort_by unmapped_le xs), unmapped_count-sort_by t xs)

unmapped_count-append :
    (t : String) (xs : List UnmappedType) (x : UnmappedType)
    → unmapped_count t (xs ++ x ∷ []) ≡ unmapped_count t xs + unmapped_count t (x ∷ [])
unmapped_count-append t [] x = omega arith
unmapped_count-append t (y ∷ ys) x = omega (arith, unmapped_count-append t ys x)

unmapped_count-add_unmapped :
    (t typ : String) (xs ys : List UnmappedType)
    → add_unmapped xs typ 1 ≡ some ys
    → unmapped_count t ys ≡ unmapped_count t xs + (if typ == t then 1 else 0)
unfolding add_unmapped
unmapped_count-add_unmapped t typ [] ys h = absurd (ground (arith, h))
unmapped_count-add_unmapped t typ (x ∷ xs) ys h = elim (Option-cases (add_unmapped xs typ 1)) [
  | inl absent ↦ ground (arith, h, absent)
  | inr (zs, present) ↦ ground (arith, h, present, unmapped_count-add_unmapped t typ xs zs present)
]

unmapped_count-record_unmapped :
    (t typ : String) (c : Collection)
    → (t == "") ≡ false
    → unmapped_count t (record_unmapped c typ 1).unmapped
      ≡ unmapped_count t c.unmapped + (if typ == t then 1 else 0)
unfolding record_unmapped
unmapped_count-record_unmapped t typ c h = elim (Option-cases (add_unmapped c.unmapped typ 1)) [
  | inl absent ↦ ground (
    arith,
    h,
    absent,
    unmapped_count-sort_by t (c.unmapped ++ record { type = typ; count = 1 } ∷ []),
    unmapped_count-append t c.unmapped (record { type = typ; count = 1 }),
  )
  | inr (ys, present) ↦
      ground (arith, h, present, unmapped_count-add_unmapped t typ c.unmapped ys present)
]

module _ (go : Go) (spec : TfSpec) where
  -- A resource of the provider, of a type that the mapping does not declare.
  abbrev pub is_unmapped : String → TfResource → Bool
  is_unmapped t res =
      res.type == t
      && not (is_declared spec res.type)
      && starts_with res.type (spec.provider <> "_")

  map_plan_items-collection :
      (rs : TfResourceSpec) (res : TfResource) (items : List Value) (st : Mapping)
      → (map_plan_items go spec rs res items st).collection ≡ st.collection
  unfolding map_plan_items
  map_plan_items-collection rs res [] st = refl
  map_plan_items-collection rs res (it ∷ items) st = map_plan_items-collection rs res items _

  map_by_specs-collection :
      (specs : List TfResourceSpec) (res : TfResource) (st : Mapping)
      → (map_by_specs go spec specs res st).collection ≡ st.collection
  unfolding map_by_specs
  map_by_specs-collection [] res st = refl
  map_by_specs-collection (rs ∷ specs) res st =
      map_by_specs-collection specs res _
      ∙ ground (arith, map_plan_items-collection rs res (items_of_resource go spec rs res) st)

  map_resources-unmapped :
      (t : String) (rest : List TfResource) (st : Mapping)
      → (t == "") ≡ false
      → unmapped_count t (map_resources go spec rest st).collection.unmapped
        ≡ unmapped_count t st.collection.unmapped + count_by (is_unmapped t) rest
  unfolding map_resources
  map_resources-unmapped t [] st h = omega arith
  map_resources-unmapped t (res ∷ rest) st h =
      map_resources-unmapped t rest (map_resource go spec res st) h
      ∙ ground (
        arith,
        map_by_specs-collection spec.resources res st,
        unmapped_count-record_unmapped t res.type st.collection h,
      )

  -- Nothing of the provider leaves a plan in silence: for each type, the collection counts exactly the
  -- resources of the plan that have it, where the type is one of the provider and the mapping does
  -- not declare it; it counts no resource that is mapped, and none of another provider.
  pub apply_plan-unmapped :
      (t : String) (resources : List TfResource)
      → (t == "") ≡ false
      → unmapped_count t (apply_plan go spec resources).collection.unmapped
        ≡ count_by (is_unmapped t) resources
  unfolding apply_plan
  apply_plan-unmapped t resources h = map_resources-unmapped t resources _ h ∙ omega arith
