-- ===== src/Scan/Verdicts.antt =====
-- What the published assessment asserts of a control, and when it says that something was set aside.
use pepin.Prelude.{
  ◌≡◌, refl, sym, ◌∙◌, String, Bool, false, not, ◌&&◌, ◌||◌, List, [], ◌∷◌, map, arith, Dict, keys,
  lookup, index, has, ◌==◌, any_by, any_by-append, any_by-Each₂, sort_strings,
}
use pepin.Scankit.{Result, Finding, is_fail, is_pass, is_exempted}
use pepin.Exempt.{is_applied, sets_aside, is_found}
use pepin.Exempt.Effect.{is_applied-apply}
use pepin.Assess.Build.{
  Scope, no_control, build, broken_map, finding_result, control_result, control_results,
  failed_controls, can_pass,
}
use pepin.Assess.Build.Verdicts.{gives}
use pepin.Assess.Build.Pass.{build_pass_iff}
use pepin.Assess.Degrade.Direction.{is_known}
use pepin.Scan.Defs.{Inputs, collected, exempted, assessed}
use pepin.Scan.Stages.{
  built, Collected, collected-Collected, Published, assessed-Published, collected_status, known,
  exemption_of, known-Each₂,
}

abbrev pub is_waived : Result → Bool
is_waived r = is_exempted r.status

module _ (s : Scope) where
  exempted-finding_results :
      (m : Dict String) (fs : List Finding) → any_by is_waived (map (finding_result s m) fs) ≡ false
  unfolding finding_result
  exempted-finding_results m [] = refl
  exempted-finding_results m (f ∷ fs) = ground (arith, exempted-finding_results m fs)

  exempted-control_results :
      (failed codes : List String) → any_by is_waived (control_results s failed codes) ≡ false
  unfolding control_results control_result
  exempted-control_results failed [] = refl
  exempted-control_results failed (code ∷ codes) =
      ground (arith, exempted-control_results failed codes)

  exempted-build : (fs : List Finding) → any_by is_waived (build s fs).results ≡ false
  unfolding build
  exempted-build fs =
      any_by-append is_waived (map (finding_result s (broken_map s fs [])) fs) _
      ∙ ground (
        arith,
        exempted-finding_results (broken_map s fs []) fs,
        exempted-control_results (failed_controls fs) (sort_strings (keys s.controls)),
      )

module _ (i : Inputs) where
  abbrev pub is_degraded : String → Bool
  is_degraded c = is_known (lookup c i.degraded)

  abbrev pub gives_pass : String → Result → Bool
  gives_pass c r = gives i.scope is_pass c r

  abbrev kept_pass : String → Result → Bool
  kept_pass c r = gives_pass c r && not (is_degraded r.control)

  gives_pass-Published :
      (c : String) (x y : Result) → Published i x y → gives_pass c y ≡ kept_pass c x
  gives_pass-Published c x y p = ground (arith, p.status, p.same.control)

  any_kept :
      (c : String) (rs : List Result)
      → any_by (kept_pass c) rs ≡ (any_by (gives_pass c) rs && not (is_degraded c))
  any_kept c [] = refl
  any_kept c (r ∷ rs) = ground (arith, any_kept c rs)

  -- The published assessment has a `pass` for a control exactly when the reference knows it for the
  -- provider, its contract does not declare it not applicable, no finding names it, the contract
  -- confirms its data, a resource that it reads is there, its deciding attributes were collected,
  -- and no unit of collection that it reads failed.
  pub assessed_pass_iff :
      (c : String)
      → any_by (gives_pass c) (assessed i).0.results ≡ (
          has (keys i.scope.controls) c
          && (not (has (failed_controls i.findings) c)
              && (index "" i.scope.na_reasons c == ""
                  && (has (index no_control i.scope.controls c).fournisseurs i.scope.provider
                      && (can_pass i.scope c && not (is_degraded c))))))
  assessed_pass_iff c =
      any_by-Each₂ (Published i) (gives_pass c) (kept_pass c) (gives_pass-Published c)
        (built i).results _ (assessed-Published i)
      ∙ any_kept c (built i).results
      ∙ rw (build_pass_iff i.scope c i.findings) (ground arith)

  sets_aside-Collected :
      (x y : Result)
      → Collected i x y
      → sets_aside i.parse i.now (keys i.scope.controls) (known i) i.exemptions y
        ≡ (is_fail (collected_status i x) && is_found (exemption_of i x))
  sets_aside-Collected x y p = ground (arith, p.status, p.same.control, p.same.subject)

  abbrev is_covered : Result → Bool
  is_covered x = is_fail (collected_status i x) && is_found (exemption_of i x)

  is_waived-Published :
      (x y : Result) → Published i x y → is_waived y ≡ (is_covered x || is_waived x)
  is_waived-Published x y p = ground (arith, p.status)

  any_or :
      (rs : List Result)
      → any_by (λ x. is_covered x || is_waived x) rs ≡ (any_by is_covered rs || any_by is_waived rs)
  any_or [] = refl
  any_or (r ∷ rs) = ground (arith, any_or rs)

  published_waived : any_by is_waived (assessed i).0.results ≡ any_by is_covered (built i).results
  published_waived =
      any_by-Each₂ (Published i) is_waived (λ x. is_covered x || is_waived x) is_waived-Published
        (built i).results _ (assessed-Published i)
      ∙ any_or (built i).results
      ∙ ground (arith, exempted-build i.scope i.findings)

  applied_covered : is_applied (assessed i).1 ≡ any_by is_covered (built i).results
  unfolding assessed exempted
  applied_covered =
      is_applied-apply i.scope.lang i.parse i.sha256 (collected i) i.exemptions i.now i.subjects
        (keys i.scope.controls)
      ∙ rw
          (known-Each₂ i i.subjects (built i).results (collected i).results (collected-Collected i))
          (any_by-Each₂ (Collected i)
            (sets_aside i.parse i.now (keys i.scope.controls) (known i) i.exemptions) is_covered
            sets_aside-Collected (built i).results (collected i).results (collected-Collected i))

  -- The report says that an exemption was applied exactly when some result of the published
  -- assessment is `exempted`.
  pub assessed_applied_iff : is_applied (assessed i).1 ≡ any_by is_waived (assessed i).0.results
  assessed_applied_iff = applied_covered ∙ sym published_waived
