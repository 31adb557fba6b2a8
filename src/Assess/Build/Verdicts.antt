-- ===== src/Assess/Build/Verdicts.antt =====
-- Which verdicts `Build` gives, and when.
use pepin.Prelude.{
  ◌≡◌, refl, ◌∙◌, String, Bool, true, false, not, ◌&&◌, ◌||◌, Option, none, some, List, [], ◌∷◌,
  map, arith, inl, inr, Option-cases, if◌then◌else◌, ◌==◌, Dict, lookup, index, lookup-insert, keys,
  has, any_by, any_by-append, has-sort_strings, sort_strings,
}
use pepin.Scankit.{Status, Result, Finding}
use pepin.Assess.Build.Defs.{
  Scope, no_control, broken, broken_map, broken_step, finding_status, is_inconclusive,
  finding_result, can_pass, control_result, control_results, failed_controls, build,
}

module _ (s : Scope) where
  abbrev or_broken : Option String → Bool → Option String → Option String
  or_broken (some m) named b = some m
  or_broken none named b = if named then b else none

  lookup-broken_step :
      (c : String) (f : Finding) (rompu : Dict String)
      → lookup c (broken_step s f rompu) ≡ or_broken (lookup c rompu) (c == f.code) (broken s c)
  lookup-broken_step c f rompu = elim (Option-cases (lookup f.code rompu)) [
    | inr (m, old) ↦ rw (old, broken_step) (ground arith)
    | inl new ↦ elim (Option-cases (broken s f.code)) [
      | inl sound ↦ rw (new, sound, broken_step) (ground arith)
      | inr (m, motif) ↦
          rw (new, motif, broken_step) (ground (arith, lookup-insert c f.code m rompu))
    ]
  ]

  lookup-broken_map :
      (c : String) (fs : List Finding) (rompu : Dict String)
      → lookup c (broken_map s fs rompu)
        ≡ or_broken (lookup c rompu) (has (failed_controls fs) c) (broken s c)
  unfolding broken_map
  lookup-broken_map c [] rompu = ground arith
  lookup-broken_map c (f ∷ fs) rompu =
      lookup-broken_map c fs (broken_step s f rompu) ∙ rw lookup-broken_step (ground arith)

  -- The status of the result of one finding, without the map.
  abbrev pub verdict_of : Finding → Status
  verdict_of f = elim (broken s f.code) [
    | some _ ↦ Status.not_evaluated
    | none ↦ if is_inconclusive f then Status.not_evaluated else Status.fail
  ]

  finding_status-eq_verdict_of :
      (f : Finding) (fs : List Finding)
      → has (failed_controls fs) f.code ≡ true
      → finding_status (broken_map s fs []) f ≡ verdict_of f
  finding_status-eq_verdict_of f fs h = ground (arith, lookup-broken_map f.code fs [])

  -- The status of the result of one control, without its texts; `none` where it has no result.
  abbrev pub control_status : String → Option Status
  control_status code =
      if not (index "" s.na_reasons code == "")
      then some Status.not_applicable
      else if has (index no_control s.controls code).fournisseurs s.provider
      then some (if can_pass s code then Status.pass else Status.not_evaluated)
      else none

  module _ (p : Status → Bool) where
    -- A result of the control with a status of interest.
    abbrev pub gives : String → Result → Bool
    gives code r = code == r.control && p r.status

    abbrev pub meets : Option Status → Bool
    meets none = false
    meets (some st) = p st

    abbrev pub meets_result : String → Option Result → Bool
    meets_result code none = false
    meets_result code (some r) = gives code r

    meets-control_result :
        (c code : String)
        → meets_result c (control_result s code) ≡ (c == code && meets (control_status code))
    unfolding control_result
    meets-control_result c code = ground arith

    any_by-control_results :
        (c : String) (failed codes : List String)
        → any_by (gives c) (control_results s failed codes)
          ≡ (has codes c && (not (has failed c) && meets (control_status c)))
    unfolding control_results
    any_by-control_results c failed [] = refl
    any_by-control_results c failed (code ∷ codes) =
        ground (arith, any_by-control_results c failed codes, meets-control_result c code)

    abbrev pub meets_finding : String → Finding → Bool
    meets_finding c f = c == f.code && p (verdict_of f)

    any_by-finding_results :
        (c : String) (m : Dict String) (fs : List Finding)
        → ((k : String) → has (failed_controls fs) k ≡ true → lookup k m ≡ broken s k)
        → any_by (gives c) (map (finding_result s m) fs) ≡ any_by (meets_finding c) fs
    unfolding finding_result
    any_by-finding_results c m [] h = refl
    any_by-finding_results c m (f ∷ fs) h =
        ground (arith, any_by-finding_results c m fs (λ k e. h k (ground arith)), h f.code)

    -- Which statuses a control has in the assessment: those of its findings, and where it has none,
    -- and the reference knows it, the one of its own result.
    pub any_by-build :
        (c : String) (fs : List Finding)
        → any_by (gives c) (build s fs).results ≡ (
            any_by (meets_finding c) fs
            || has (keys s.controls) c
              && (not (has (failed_controls fs) c) && meets (control_status c)))
    unfolding build
    any_by-build c fs =
        any_by-append (gives c) (map (finding_result s (broken_map s fs [])) fs) _
        ∙ ground (
          arith,
          any_by-finding_results c (broken_map s fs []) fs
              (λ k e. lookup-broken_map k fs [] ∙ ground arith),
          any_by-control_results c (failed_controls fs) (sort_strings (keys s.controls)),
          has-sort_strings (keys s.controls) c,
        )
