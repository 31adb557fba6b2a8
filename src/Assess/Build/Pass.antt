-- ===== src/Assess/Build/Pass.antt =====
-- When `Build` asserts a `pass`, and when it asserts a `fail`.
use pepin.Prelude.{
  ◌≡◌, refl, ◌∙◌, String, Bool, true, false, not, ◌&&◌, none, some, List, [], ◌∷◌, arith, ◌==◌,
  index, keys, has, any_by,
}
use pepin.Scankit.{Finding, is_pass, is_fail}
use pepin.Assess.Build.Defs.{
  Scope, no_control, broken, is_inconclusive, can_pass, failed_controls, build,
}
use pepin.Assess.Build.Verdicts.{gives, meets_finding, any_by-build}

module _ (s : Scope) where
  no_pass_of_findings :
      (c : String) (fs : List Finding) → any_by (meets_finding s is_pass c) fs ≡ false
  no_pass_of_findings c [] = refl
  no_pass_of_findings c (f ∷ fs) = ground (arith, no_pass_of_findings c fs)

  -- A control has a `pass` in the assessment exactly when the reference knows it, no finding names
  -- it, the contract does not declare it not applicable, it is implemented for the provider, and the
  -- three locks are open: the contract confirms the data, a resource that it reads is present, and
  -- its deciding attributes were collected.
  pub build_pass_iff :
      (c : String) (fs : List Finding)
      → any_by (gives s is_pass c) (build s fs).results ≡ (
          has (keys s.controls) c
          && (not (has (failed_controls fs) c)
              && (index "" s.na_reasons c == ""
                  && (has (index no_control s.controls c).fournisseurs s.provider
                      && can_pass s c))))
  build_pass_iff c fs = any_by-build s is_pass c fs ∙ ground (arith, no_pass_of_findings c fs)

  -- An observed deviation: the rule concluded, and the data that links the types was collected.
  abbrev pub is_deviation : String → Finding → Bool
  is_deviation c f =
      c == f.code
      && (not (is_inconclusive f) && elim (broken s f.code) [ none ↦ true | some _ ↦ false ])

  fails_of_findings :
      (c : String) (fs : List Finding)
      → any_by (meets_finding s is_fail c) fs ≡ any_by (is_deviation c) fs
  fails_of_findings c [] = refl
  fails_of_findings c (f ∷ fs) = ground (arith, fails_of_findings c fs)

  -- A control has a `fail` in the assessment exactly when some finding of it is conclusive and its
  -- correlation is not broken.
  pub build_fail_iff :
      (c : String) (fs : List Finding)
      → any_by (gives s is_fail c) (build s fs).results ≡ any_by (is_deviation c) fs
  build_fail_iff c fs = any_by-build s is_fail c fs ∙ ground (arith, fails_of_findings c fs)
