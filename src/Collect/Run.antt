-- ===== src/Collect/Run.antt =====
-- internal/collect/engine.go: `Collect`. internal/collectkit/collectkit.go: a whole live collection, the
-- specification and then the three collectors written in Go, whose results are arguments. The detail
-- of an error, a text for the reader, is a parameter.
use pepin.Prelude.{
  String, Bool, true, false, not, Option, none, some, List, [], ◌∷◌, ◌++◌, ◌⊎◌, inl, inr,
  if◌then◌else◌, ◌==◌, Dict,
}
use pepin.Model.Collection.{CollectionUnit, record_unit}
use pepin.Model.Collection.Merge.{blank}
use pepin.Crypto.{validate_hmac_secret}
use pepin.Collect.Status.{CollectError, classify}
use pepin.Collect.Transforms.{Go}
use pepin.Collect.Fetch.{Transport}
use pepin.Collect.Specs.{ResourceSpec, Spec, subst}
use pepin.Collect.Engine.{Collected, Inventory, collect_resource}

-- `err == nil`
abbrev pub is_nil : Option CollectError → Bool
is_nil none = true
is_nil (some e) = false

pub record S3 : Type 0 where
  pub endpoint : String
  pub secret : String

pub record Oks : Type 0 where
  pub endpoint : String
  pub secret : String

pub data RunError : Type 0 where
  weak_secret no_transport : RunError

abbrev pub no_inventory : Inventory
no_inventory = record { resources = []; collection = blank }

-- A secret of an enabled service that is too short.
abbrev pub is_weak : String → String → Bool
is_weak endpoint secret = if not (endpoint == "") then not (validate_hmac_secret secret) else false

module _ (outscale : String → Option (List (String × String))) (scaleway : String → Option String)
    (detail : CollectError → String) where
  abbrev detail_of : Option CollectError → String
  detail_of none = ""
  detail_of (some e) = detail e

  -- The unit that `Collect` and `collectUnit` record.
  unfoldable pub unit_of : String → List String → Collected → CollectionUnit
  unit_of unit types read = record {
    unit = unit;
    types = types;
    attempted = true;
    complete = is_nil read.error;
    error = classify outscale scaleway read.error;
    detail = detail_of read.error;
  }

  -- `inv.Resources = append(inv.Resources, res...)` and the unit, with its error if it has one.
  abbrev pub add_unit : String → List String → Collected → Inventory → Inventory
  add_unit unit types read inv = record {
    resources = inv.resources ++ read.resources;
    collection = record_unit inv.collection (unit_of unit types read);
  }

  -- `collectUnit`; `read` is what `run` returns.
  unfoldable pub collect_unit : Inventory → Bool → String → List String → Collected → Inventory
  unfolding unit_of
  collect_unit inv enabled unit types read =
      if not enabled then inv else add_unit unit types read inv

  -- The three calls of `collectUnit` at the end of `Run`.
  abbrev pub collect_apart :
      S3 → Oks → String → Collected → Collected → Collected → Inventory → Inventory
  collect_apart s3 oks eim buckets policies clusters inv =
      collect_unit
        (collect_unit
          (collect_unit inv (not (s3.endpoint == "")) "object_storage_bucket"
            ("object_storage_bucket" ∷ []) buckets)
          (not (eim == "")) "iam_policy_inline" ("iam_policy" ∷ []) policies)
        (not (oks.endpoint == "")) "kubernetes_cluster" ("kubernetes_cluster" ∷ []) clusters

  module _ (go : Go) (net : Transport) where
    -- The loop of `Collect`.
    unfoldable pub collect_from : Spec → Dict String → List ResourceSpec → Inventory → Inventory
    collect_from spec vars [] inv = inv
    collect_from spec vars (r ∷ rs) inv =
        collect_from spec vars rs
          (add_unit r.type (r.type ∷ []) (collect_resource go net spec r vars) inv)

    -- `Collect`, whose error is always nil.
    unfoldable pub collect : Spec → Dict String → Inventory
    unfolding collect_from
    collect spec vars =
        collect_from (record spec { base_url = subst spec.base_url vars }) vars spec.resources
          no_inventory

    -- `Run`; `transport_fails` is the test of `tlspolicy.Transport`, made where the provider gives no
    -- client of its own.
    unfoldable pub run :
        Spec
        → Dict String
        → S3
        → Oks
        → String
        → Bool
        → Bool
        → Collected
        → Collected
        → Collected
        → RunError ⊎ Inventory
    unfolding collect collect_unit
    run spec vars s3 oks eim has_client transport_fails buckets policies clusters =
        if is_weak s3.endpoint s3.secret
        then inl RunError.weak_secret
        else if is_weak oks.endpoint oks.secret
        then inl RunError.weak_secret
        else if (if has_client then false else transport_fails)
        then inl RunError.no_transport
        else inr (collect_apart s3 oks eim buckets policies clusters (collect spec vars))
