-- ===== src/Collect/Projection.antt =====
-- internal/collect/engine.go: `ProjectAttested`, and what internal/model/provenance.go records.
use pepin.Prelude.{
  String, Bool, true, false, not, ◌&&◌, none, some, [], ◌∷◌, if◌then◌else◌, ◌==◌, Dict, lookup,
  insert,
}
use pepin.Model.Resource.{Value, Attestation}
use pepin.Model.Json.{is_null}
use pepin.Collect.Paths.{lookup_coalesce, source_present}
use pepin.Collect.Transforms.{Go, Transform}
use pepin.Collect.Apply.{apply_transform_attested}

pub record Source : Type 0 where
  pub origin : String
  pub ref : String

-- What is projected so far, and its attestations.
pub record Projected : Type 0 where
  pub attrs : Dict Value
  pub prov : Dict Attestation

-- The closure `attest`; a source without an origin attests nothing.
abbrev pub attest_path :
    Source → String → String → Bool → Bool → Dict Attestation → Dict Attestation
attest_path src attr path observed derived prov =
    if src.origin == ""
    then prov
    else insert attr
        (record {
          origin = src.origin;
          source = src.ref;
          path = path;
          observed = observed;
          derived = derived;
        })
        prov

-- The end of the body of the loop, with the transformed value.
abbrev pub keep : Source → String → String → Bool → Value → Bool → Projected → Projected
keep src attr path present v derived out =
    if is_null v
    then record out { prov = attest_path src attr path present false out.prov }
    else record {
      attrs = insert attr v out.attrs;
      prov = attest_path src attr path present derived out.prov;
    }

-- The body of the loop over the mapping.
abbrev pub project_one :
    Go → Value → Dict Transform → Source → String → String → Projected → Projected
project_one go item transforms src attr path out =
    let v = lookup_coalesce item path in
    let present = source_present item path in
    elim (lookup attr transforms) [
      | none ↦ keep src attr path present v false out
      | some t ↦
          if is_null v && not present
          then record out { prov = attest_path src attr path false false out.prov }
          else let (w, derived) = apply_transform_attested go t v in
            keep src attr path present w derived out
    ]

unfoldable pub project_from :
    Go → Value → Dict Transform → Source → Dict String → Projected → Projected
project_from go item transforms src [] out = out
project_from go item transforms src ((attr, path) ∷ mapping) out =
    project_from go item transforms src mapping (project_one go item transforms src attr path out)

abbrev pub no_projection : Projected
no_projection = record { attrs = []; prov = [] }

-- `ProjectAttested`, and `Project`, which attests nothing.
unfoldable pub project_attested : Go → Value → Dict String → Dict Transform → Source → Projected
unfolding project_from
project_attested go item mapping transforms src =
    project_from go item transforms src mapping no_projection

unfoldable pub project : Go → Value → Dict String → Dict Transform → Dict Value
unfolding project_attested
project go item mapping transforms =
    (project_attested go item mapping transforms (record { origin = ""; ref = "" })).attrs

-- `AttestConst`
unfoldable pub attest_const : Dict Value → String → Dict Attestation → Dict Attestation
attest_const [] ref prov = prov
attest_const ((attr, v) ∷ consts) ref prov = attest_const consts ref (
    insert attr
      (record { origin = "derived"; source = ref; path = ""; observed = false; derived = true })
      prov)
