-- ===== src/Scan/Stages.antt =====
-- From the assessment of `Build` to the one that the command publishes, result by result.
use pepin.Prelude.{
  ◌≡◌, refl, ◌∙◌, String, ◌&&◌, Option, List, [], ◌∷◌, arith, keys, lookup, if◌then◌else◌, Each₂,
  Each₂-map, Each₂-trans,
}
use pepin.Scankit.{Status, Result, Assessment, is_fail}
use pepin.Exempt.{Exemption, known_subjects, first_covering, exempted_result, is_found}
use pepin.Exempt.Statuses.{apply-results}
use pepin.Assess.Same.{SameResult, SameResult-trans}
use pepin.Assess.Build.{build}
use pepin.Assess.Provenance.{Annotated, with_provenance, with_provenance-Annotated}
use pepin.Assess.AttestedAbsence.{
  Requalified, is_unattested, with_attested_absence, with_attested_absence-Requalified,
}
use pepin.Assess.Degrade.Direction.{Degraded, degrade-Degraded, degraded_status, is_known}
use pepin.Assess.Relaxations.{Relaxed, with_relaxations-Relaxed}
use pepin.Scan.Defs.{Inputs, collected, exempted, assessed}

abbrev pub built : Inputs → Assessment
built i = build i.scope i.findings

-- The status before the exemptions: the deviation that rests on an unattested absence is withdrawn,
-- then the `pass` of a degraded control.
abbrev pub collected_status : Inputs → Result → Status
collected_status i r =
    degraded_status (is_known (lookup r.control i.degraded))
      (if is_unattested i.scope.lang i.provenance r then Status.not_evaluated else r.status)

-- Behind the pass on absences.
record Sought (i : Inputs) (old new : Result) : Type 0 where
  same : SameResult old new
  status :
      new.status
      ≡ (if is_unattested i.scope.lang i.provenance old then Status.not_evaluated else old.status)

pub record Collected (i : Inputs) (old new : Result) : Type 0 where
  pub same : SameResult old new
  pub status : new.status ≡ collected_status i old

Sought-trans :
    (i : Inputs) (x y z : Result)
    → Annotated x y
    → Requalified i.scope.lang i.provenance y z
    → Sought i x z
Sought-trans i x y z p q = record {
  same = SameResult-trans x y z p.same q.same;
  status = ground (arith, p.status, q.status, p.same.control);
}

Collected-trans :
    (i : Inputs) (x y z : Result)
    → Sought i x y
    → Degraded i.scope.lang i.degraded i.grants y z
    → Collected i x z
Collected-trans i x y z p q = record {
  same = SameResult-trans x y z p.same q.same;
  status = ground (arith, p.status, q.status, p.same.control);
}

pub collected-Collected : (i : Inputs) → Each₂ (Collected i) (built i).results (collected i).results
unfolding collected
collected-Collected i =
    let l = i.scope.lang in
    let noted = with_provenance i.provenance i.scope.types_of (built i) in
    let sought = with_attested_absence l i.provenance noted in
    Each₂-trans (Sought i) (Degraded l i.degraded i.grants) (Collected i) (Collected-trans i)
      (built i).results sought.results _
      (Each₂-trans Annotated (Requalified l i.provenance) (Sought i) (Sought-trans i)
        (built i).results noted.results sought.results
        (with_provenance-Annotated i.provenance i.scope.types_of (built i))
        (with_attested_absence-Requalified l i.provenance noted))
      (degrade-Degraded l i.degraded i.grants sought)

-- The subjects are those that `Build` gave.
pub known-Each₂ :
    (i : Inputs) (subjects : List String) (xs ys : List Result)
    → Each₂ (Collected i) xs ys
    → known_subjects subjects ys ≡ known_subjects subjects xs
unfolding known_subjects
known-Each₂ i subjects [] [] h = refl
known-Each₂ i subjects [] (y ∷ ys) h = absurd h
known-Each₂ i subjects (x ∷ xs) [] h = absurd h
known-Each₂ i subjects (x ∷ xs) (y ∷ ys) h =
    ground (arith, h.0.same.subject, known-Each₂ i subjects xs ys h.1)

module _ (i : Inputs) where
  -- The exemption of the policy that sets a deviation aside.
  abbrev pub exemption_of : Result → Option Exemption
  exemption_of r =
      first_covering i.parse i.now (keys i.scope.controls)
        (known_subjects i.subjects (built i).results) i.exemptions r.control r.subject

  -- The status that the command publishes for a result of `Build`.
  abbrev pub final_status : Result → Status
  final_status r =
      let st = collected_status i r in
      if is_fail st && is_found (exemption_of r) then Status.exempted else st

  pub record Published (old new : Result) : Type 0 where
    pub same : SameResult old new
    pub status : new.status ≡ final_status old

  abbrev spec_of : List String → Result → Result
  spec_of known = exempted_result i.parse i.now (keys i.scope.controls) known i.exemptions

  record Waived (known : List String) (old new : Result) : Type 0 where
    same : SameResult old new
    status : new.status ≡ (
        if is_fail old.status
          && is_found (
              first_covering i.parse i.now
                (keys i.scope.controls)
                known
                i.exemptions
                old.control
                old.subject)
        then Status.exempted
        else old.status)

  spec_of-Waived : (known : List String) (r : Result) → Waived known r (spec_of known r)
  unfolding exempted_result
  spec_of-Waived known r = ground arith

  abbrev pub known : List String
  known = known_subjects i.subjects (built i).results

  exempted-Waived : Each₂ (Waived known) (collected i).results (exempted i).0.results
  unfolding exempted
  exempted-Waived =
      rw
        (
          apply-results i.scope.lang i.parse i.sha256 (collected i) i.exemptions i.now i.subjects
              (keys i.scope.controls),
          known-Each₂ i i.subjects (built i).results (collected i).results (collected-Collected i),
        )
        (Each₂-map (Waived known) (spec_of known) (spec_of-Waived known) (collected i).results)

  Published-Waived : (x y z : Result) → Collected i x y → Waived known y z → Published x z
  Published-Waived x y z p q = record {
    same = SameResult-trans x y z p.same q.same;
    status = ground (arith, p.status, q.status, p.same.control, p.same.subject);
  }

  Published-Relaxed :
      (x y z : Result) → Published x y → Relaxed i.scope.lang i.relaxations y z → Published x z
  Published-Relaxed x y z p q = record {
    same = SameResult-trans x y z p.same q.same;
    status = q.status ∙ p.status;
  }

  -- The whole chain of passes, result by result. The published assessment has the results of
  -- `Build` in their order, about the same controls and subjects and of the same severity. A
  -- deviation that rests on an unattested absence and a `pass` of a degraded control become
  -- `not-evaluated`; a deviation that is left and that an exemption in force covers becomes
  -- `exempted`; every other status is the one that `Build` gave.
  pub assessed-Published : Each₂ Published (built i).results (assessed i).0.results
  unfolding assessed
  assessed-Published =
      let l = i.scope.lang in
      Each₂-trans Published (Relaxed l i.relaxations) Published Published-Relaxed (built i).results
        (exempted i).0.results _
        (Each₂-trans (Collected i) (Waived known) Published Published-Waived (built i).results
          (collected i).results (exempted i).0.results (collected-Collected i) exempted-Waived)
        (with_relaxations-Relaxed l i.relaxations (exempted i).0)
