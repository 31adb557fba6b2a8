-- ===== src/Scan/Setup.antt =====
-- cmd/scan.go: what the scan reads off the reference and the contract of the provider. `controls` is
-- the reference, and `registry` the descriptors.
use pepin.I18n.{Lang}
use pepin.Prelude.{
  ◌≡◌, refl, String, Bool, true, false, ◌&&◌, List, [], ◌∷◌, arith, if◌then◌else◌, ◌==◌, Dict,
  index, keys, has, any_by,
}
use pepin.Provider.{Contrat, control_type, non_applicable_reason_in}
use pepin.Scankit.{Run}
use pepin.Model.Resource.{Resource}
use pepin.Model.Collection.{Collection}
use pepin.Assess.Attributes.{is_verified}
use pepin.Assess.Build.{Control, Scope, no_control}
use pepin.Assess.Degrade.{degraded_controls, types_read}
use pepin.Assess.Degrade.Controls.{unread, degraded_controls_iff}
use pepin.Scan.Defs.{Inputs, assessed}
use pepin.Scan.Verdicts.{gives_pass, assessed_pass_iff}
use pepin.Scan.Inventory.{resource_types_of, attrs_by_type_of}

module _ (controls : Dict Control) where
  abbrev in_scope : Dict String → String → String → Bool
  in_scope na_reasons provider code =
      index "" na_reasons code == "" && has (index no_control controls code).fournisseurs provider

  abbrev scope_from : Dict String → String → List String → List String
  scope_from na_reasons provider [] = []
  scope_from na_reasons provider (code ∷ codes) =
      let rest = scope_from na_reasons provider codes in
      if in_scope na_reasons provider code then code ∷ rest else rest

  -- `scanScope`
  unfoldable pub scan_scope : Dict String → String → List String
  scan_scope na_reasons provider = scope_from na_reasons provider (keys controls)

  abbrev reasons_from : Dict Contrat → Lang → String → List String → Dict String
  reasons_from registry l provider [] = []
  reasons_from registry l provider (code ∷ codes) =
      let rest = reasons_from registry l provider codes in
      let r = non_applicable_reason_in registry l provider code in
      if r == "" then rest else (code, r) ∷ rest

  -- `providerNAReasons`
  unfoldable pub provider_na_reasons : Dict Contrat → Lang → String → Dict String
  provider_na_reasons registry l provider = reasons_from registry l provider (keys controls)

  abbrev types_from : List String → Dict String
  types_from [] = []
  types_from (code ∷ codes) = (code, control_type code) ∷ types_from codes

  -- `controlTypes`
  unfoldable pub types_of_controls : Dict String
  types_of_controls = types_from (keys controls)

  abbrev verified_from : Dict Contrat → String → List String → List String
  verified_from registry provider [] = []
  verified_from registry provider (code ∷ codes) =
      let rest = verified_from registry provider codes in
      if is_verified registry provider code then code ∷ rest else rest

  -- `providerVerified`, the codes with the value true.
  unfoldable pub provider_verified : Dict Contrat → String → List String
  provider_verified registry provider = verified_from registry provider (keys controls)

  -- The arguments of the call of `Build`.
  unfoldable pub scope_of : Dict Contrat → Lang → String → List Resource → Run → Scope
  scope_of registry l provider resources run = record {
    lang = l;
    provider = provider;
    controls = controls;
    resource_types = resource_types_of resources;
    na_reasons = provider_na_reasons registry l provider;
    verified = provider_verified registry provider;
    types_of = types_of_controls;
    attrs_by_type = attrs_by_type_of resources;
    run = run;
  }

  has-scope_from :
      (na_reasons : Dict String) (provider k : String) (codes : List String)
      → has (scope_from na_reasons provider codes) k
        ≡ (has codes k && in_scope na_reasons provider k)
  has-scope_from na_reasons provider k [] = refl
  has-scope_from na_reasons provider k (code ∷ codes) =
      ground (arith, has-scope_from na_reasons provider k codes)

-- A published `pass` was read in full. Where the degraded controls are those that the scan computes
-- from the state of the collection and its own scope, no unit of collection that feeds a type read by
-- a control with a `pass` was attempted without being completed.
pub pass_read_in_full :
    (i : Inputs) (coll : Collection) (tagged : List String) (c : String)
    → i.degraded
      ≡ degraded_controls coll
          (scan_scope i.scope.controls i.scope.na_reasons i.scope.provider)
          tagged
    → any_by (gives_pass i c) (assessed i).0.results ≡ true
    → any_by (unread coll) (types_read tagged c) ≡ false
unfolding scan_scope
pass_read_in_full i coll tagged c e h = ground (
  arith,
  assessed_pass_iff i c,
  e,
  degraded_controls_iff coll (scan_scope i.scope.controls i.scope.na_reasons i.scope.provider)
      tagged c,
  has-scope_from i.scope.controls i.scope.na_reasons i.scope.provider c (keys i.scope.controls),
)
