-- ===== src/Collect/Kept.antt =====
-- internal/collect/engine.go and internal/collectkit/collectkit.go: what a collection keeps and records.
use pepin.Prelude.{
  ◌≡◌, refl, ◌∙◌, sym, String, Bool, true, false, not, ◌&&◌, ◌||◌, Option, List, [], ◌∷◌, map, inl,
  inr, if◌then◌else◌, ◌==◌, Dict, all_by, any_by, any_by-append, arith,
}
use pepin.Model.Resource.{Resource}
use pepin.Model.Collection.{CollectionUnit, IsDistinct, record_unit-IsDistinct}
use pepin.Model.Collection.Merge.{
  blank, record_all, complete_in, attempted_in, says_complete, says_attempted,
  record_all_pessimistic, complete_in-record_unit, record_all-IsDistinct,
}
use pepin.Collect.Status.{CollectError}
use pepin.Collect.Transforms.{Go}
use pepin.Collect.Fetch.{Transport}
use pepin.Collect.Specs.{ResourceSpec, Spec, subst}
use pepin.Collect.Engine.{Collected, Inventory, collect_resource}
use pepin.Collect.Run.{
  RunError, is_nil, no_inventory, unit_of, add_unit, collect_unit, collect_from, collect,
  collect_apart, is_weak, S3, Oks, run,
}

-- The guards of `Run`, passed.
run_made :
    (a b c : Bool) (made inv : Inventory)
    → (if a
        then inl RunError.weak_secret
        else if b
        then inl RunError.weak_secret
        else if c
        then inl RunError.no_transport
        else inr made)
      ≡ inr inv
    → (a ≡ false) × (b ≡ false) × (made ≡ inv)
run_made a b c made inv h = ground arith

module _ (outscale : String → Option (List (String × String))) (scaleway : String → Option String)
    (detail : CollectError → String) (go : Go) (net : Transport) (spec : Spec)
    (vars : Dict String) where
  -- The specification that `Collect` runs, with its base URL resolved.
  abbrev pub resolved : Spec
  resolved = record spec { base_url = subst spec.base_url vars }

  abbrev pub read_of : ResourceSpec → Collected
  read_of r = collect_resource go net resolved r vars

  abbrev report_of : ResourceSpec → CollectionUnit
  report_of r = unit_of outscale scaleway detail r.type (r.type ∷ []) (read_of r)

  -- The type was read without an error, or is another one.
  abbrev pub reads_complete : String → ResourceSpec → Bool
  reads_complete n r = not (n == r.type) || is_nil (read_of r).error

  abbrev pub is_type : String → ResourceSpec → Bool
  is_type n r = n == r.type

  collect_from-collection :
      (rs : List ResourceSpec) (inv : Inventory)
      → (collect_from outscale scaleway detail go net resolved vars rs inv).collection
        ≡ record_all (map report_of rs) inv.collection
  unfolding collect_from record_all
  collect_from-collection [] inv = refl
  collect_from-collection (r ∷ rs) inv =
      collect_from-collection rs
        (add_unit outscale scaleway detail r.type (r.type ∷ []) (read_of r) inv)

  reports_complete :
      (n : String) (rs : List ResourceSpec)
      → all_by (says_complete n) (map report_of rs) ≡ all_by (reads_complete n) rs
  unfolding unit_of
  reports_complete n [] = refl
  reports_complete n (r ∷ rs) = ground (arith, reports_complete n rs)

  reports_attempted :
      (n : String) (rs : List ResourceSpec)
      → any_by (says_attempted n) (map report_of rs) ≡ any_by (is_type n) rs
  unfolding unit_of
  reports_attempted n [] = refl
  reports_attempted n (r ∷ rs) = ground (arith, reports_attempted n rs)

  -- A failure is never lost and never spreads: after `Collect`, a unit counts as complete exactly when
  -- every entry of the specification that has its type was read without an error, and as attempted
  -- exactly when the specification has an entry of that type.
  pub collect_complete :
      (n : String)
      → (complete_in n (collect outscale scaleway detail go net spec vars).collection
          ≡ all_by (reads_complete n) spec.resources)
        × (attempted_in n (collect outscale scaleway detail go net spec vars).collection
            ≡ any_by (is_type n) spec.resources)
  unfolding collect
  collect_complete n =
      let reports = map report_of spec.resources in
      (
        ground (
          arith,
          collect_from-collection spec.resources no_inventory,
          record_all_pessimistic n reports,
          reports_complete n spec.resources,
        ),
        ground (
          arith,
          collect_from-collection spec.resources no_inventory,
          record_all_pessimistic n reports,
          reports_attempted n spec.resources,
        ),
      )

  collect-IsDistinct :
      IsDistinct (collect outscale scaleway detail go net spec vars).collection.units
  unfolding collect
  collect-IsDistinct =
      rw (collect_from-collection spec.resources no_inventory)
        (record_all-IsDistinct (map report_of spec.resources) blank tt)

  collect_from-keeps :
      (p : Resource → Bool) (rs : List ResourceSpec) (inv : Inventory)
      → any_by p (collect_from outscale scaleway detail go net resolved vars rs inv).resources
        ≡ (any_by p inv.resources || any_by (λ r. any_by p (read_of r).resources) rs)
  unfolding collect_from
  collect_from-keeps p [] inv = ground arith
  collect_from-keeps p (r ∷ rs) inv =
      collect_from-keeps p rs
        (add_unit outscale scaleway detail r.type (r.type ∷ []) (read_of r) inv)
      ∙ ground (arith, any_by-append p inv.resources (read_of r).resources)

  -- What was read is kept, and nothing else is there: `Collect` has a resource with a property exactly
  -- when some entry of the specification read one, whether that entry or another one failed or not.
  pub collect-keeps :
      (p : Resource → Bool)
      → any_by p (collect outscale scaleway detail go net spec vars).resources
        ≡ any_by (λ r. any_by p (read_of r).resources) spec.resources
  unfolding collect
  collect-keeps p = collect_from-keeps p spec.resources no_inventory

  -- A unit that is read apart is complete, or not enabled, or is another one.
  abbrev pub says_unit : String → Bool → String → Collected → Bool
  says_unit n enabled unit read = not enabled || not (n == unit) || is_nil read.error

  collect_unit-IsDistinct :
      (inv : Inventory) (enabled : Bool) (unit : String) (types : List String) (read : Collected)
      → IsDistinct inv.collection.units
      → IsDistinct
          (collect_unit outscale scaleway detail inv enabled unit types read).collection.units
  unfolding collect_unit
  collect_unit-IsDistinct inv false unit types read d = d
  collect_unit-IsDistinct inv true unit types read d = record_unit-IsDistinct inv.collection _ d

  collect_unit_complete :
      (n : String) (inv : Inventory) (enabled : Bool) (unit : String) (types : List String)
      (read : Collected)
      → IsDistinct inv.collection.units
      → complete_in n (collect_unit outscale scaleway detail inv enabled unit types read).collection
        ≡ (complete_in n inv.collection && says_unit n enabled unit read)
  unfolding collect_unit unit_of
  collect_unit_complete n inv false unit types read d = ground arith
  collect_unit_complete n inv true unit types read d =
      complete_in-record_unit n inv.collection (unit_of outscale scaleway detail unit types read) d
      ∙ ground arith

  module _ (s3 : S3) (oks : Oks) (eim : String) (buckets policies clusters : Collected) where
    apart_complete :
        (n : String) (inv : Inventory)
        → IsDistinct inv.collection.units
        → complete_in n
            (collect_apart outscale scaleway detail s3 oks eim buckets policies clusters
              inv).collection
          ≡ (((complete_in n inv.collection
                  && says_unit n (not (s3.endpoint == "")) "object_storage_bucket" buckets)
                && says_unit n (not (eim == "")) "iam_policy_inline" policies)
              && says_unit n (not (oks.endpoint == "")) "kubernetes_cluster" clusters)
    apart_complete n inv d =
        let a =
          collect_unit outscale scaleway detail inv (not (s3.endpoint == ""))
            "object_storage_bucket" ("object_storage_bucket" ∷ []) buckets in
        let da =
          collect_unit-IsDistinct inv (not (s3.endpoint == "")) "object_storage_bucket"
            ("object_storage_bucket" ∷ []) buckets d in
        let b =
          collect_unit outscale scaleway detail a (not (eim == "")) "iam_policy_inline"
            ("iam_policy" ∷ []) policies in
        let db =
          collect_unit-IsDistinct a (not (eim == "")) "iam_policy_inline" ("iam_policy" ∷ [])
            policies da in
        collect_unit_complete n b (not (oks.endpoint == "")) "kubernetes_cluster"
          ("kubernetes_cluster" ∷ []) clusters db
        ∙ rw
            (
              collect_unit_complete n a (not (eim == "")) "iam_policy_inline" ("iam_policy" ∷ [])
                  policies da,
              collect_unit_complete n inv (not (s3.endpoint == "")) "object_storage_bucket"
                  ("object_storage_bucket" ∷ []) buckets d,
            )
            refl

    -- The collectors written in Go follow the rule of the specification: where `Run` returns an
    -- inventory, no secret of an enabled service is too short, and a unit counts as complete exactly
    -- when the specification read it without an error and so did each enabled collector of that name.
    pub run_complete :
        (has_client transport_fails : Bool) (inv : Inventory) (n : String)
        → run outscale scaleway detail go net spec vars s3 oks eim has_client transport_fails
            buckets policies clusters
          ≡ inr inv
        → (is_weak s3.endpoint s3.secret ≡ false)
          × (is_weak oks.endpoint oks.secret ≡ false)
          × (complete_in n inv.collection ≡ (
              ((all_by (reads_complete n) spec.resources
                  && says_unit n (not (s3.endpoint == "")) "object_storage_bucket" buckets)
                && says_unit n (not (eim == "")) "iam_policy_inline" policies)
              && says_unit n (not (oks.endpoint == "")) "kubernetes_cluster" clusters))
    unfolding run
    run_complete has_client transport_fails inv n h =
        let read = collect outscale scaleway detail go net spec vars in
        let made =
          run_made (is_weak s3.endpoint s3.secret) (is_weak oks.endpoint oks.secret)
            (if has_client then false else transport_fails)
            (collect_apart outscale scaleway detail s3 oks eim buckets policies clusters read) inv
            h in
        (
          made.0,
          made.1,
          rw (sym made.2)
              (apart_complete n read collect-IsDistinct ∙ rw (collect_complete n).0 refl),
        )
