-- ===== src/Scan/Defs.antt =====
-- cmd/scan.go: the passes over the assessment, in their order, and the exit code (cmd/surface.go).
-- Not modelled of the command: what it prints, the bundle that it seals, and its errors, which are
-- exit code 2 before any of this.
use pepin.Prelude.{
  ℕ, ◌+◌, String, ◌<>◌, Bool, not, ◌&&◌, ◌||◌, Option, List, [], ◌∷◌, if◌then◌else◌, ltb, nat_eq,
  Dict, keys, has, starts_with, filter_by, count_by,
}
use pepin.Model.Collection.{CollectionUnit}
use pepin.Scankit.{Result, Assessment, Finding, is_pass, is_fail, is_exempted}
use pepin.Policy.{Relaxation}
use pepin.Exempt.{Exemption, Report, apply, is_applied, is_stale}
use pepin.Assess.Attributes.{is_nil}
use pepin.Assess.Build.{Scope, build}
use pepin.Assess.Provenance.{ProvenanceIndex, with_provenance}
use pepin.Assess.AttestedAbsence.{with_attested_absence}
use pepin.Assess.Degrade.{degrade}
use pepin.Assess.Relaxations.{with_relaxations}
use pepin.Assess.Inconclusive.{split_inconclusive}
use pepin.Scoring.{summarize}
use pepin.Profile.{split, set_aside}

-- What the passes read: the inventory's provenance, the controls that its collection degrades, the
-- exemptions of the policy with the instant of the scan, and the relaxed settings.
pub record Inputs : Type 0 where
  pub scope : Scope
  pub findings : List Finding
  pub provenance : ProvenanceIndex
  pub degraded : Dict CollectionUnit
  pub grants : Dict String
  pub exemptions : List Exemption
  pub parse : String → String → Option ℕ
  pub sha256 : String → String
  pub now : ℕ
  pub subjects : List String
  pub relaxations : Dict (List Relaxation)

-- The passes behind `Build` and before the exemptions.
unfoldable pub collected : Inputs → Assessment
collected i =
    let s = i.scope in
    let asmt = build s i.findings in
    let asmt = with_provenance i.provenance s.types_of asmt in
    let asmt = with_attested_absence s.lang i.provenance asmt in
    (degrade s.lang i.degraded i.grants asmt).0

-- The exemptions; `knownControls` is the keys of the reference.
unfoldable pub exempted : Inputs → Assessment × Report
unfolding collected
exempted i =
    apply i.scope.lang i.parse i.sha256 (collected i) i.exemptions i.now i.subjects
      (keys i.scope.controls)

unfoldable pub assessed : Inputs → Assessment × Report
unfolding exempted
assessed i =
    let (asmt, report) = exempted i in (with_relaxations i.scope.lang i.relaxations asmt, report)

abbrev pub key_of : String → String → String
key_of control subject = control <> "\0" <> subject

-- `exemptedKeys`, the keys of the map.
unfoldable pub exempted_keys : List Result → List String
exempted_keys [] = []
exempted_keys (r ∷ rs) =
    let rest = exempted_keys rs in
    if is_exempted r.status then key_of r.control r.subject ∷ rest else rest

abbrev pub is_open : List String → Finding → Bool
is_open exempted f = not (has exempted (key_of f.code f.subject))

-- `openFindings`
unfoldable pub open_findings : List Finding → List String → List Finding
open_findings findings exempted =
    if is_nil exempted then findings else filter_by (is_open exempted) findings

abbrev pub is_measured : Result → Bool
is_measured r = not (starts_with r.control "governance_") && (is_pass r.status || is_fail r.status)

-- `evaluatedNonGov`
unfoldable pub evaluated_non_gov : List Result → ℕ
evaluated_non_gov rs = count_by is_measured rs

pub record Flags : Type 0 where
  pub gate : String
  pub strict : Bool

-- What the tests at the end of the command read.
pub record Gate : Type 0 where
  pub conforme : Bool
  pub minor : ℕ
  pub measured : ℕ
  pub aside_severe : Bool
  pub degraded : Bool
  pub applied : Bool
  pub stale : Bool
  pub relaxed : Bool

unfoldable pub gate_of : Flags → Inputs → Gate
unfolding assessed exempted_keys open_findings evaluated_non_gov split_inconclusive
gate_of flags i =
    let (asmt, report) = assessed i in
    let (deviations, _) = split_inconclusive i.findings in
    let (deviations, aside) = split flags.gate deviations in
    let open_ = open_findings deviations (exempted_keys asmt.results) in
    let res = summarize deviations in
    record {
      conforme = (summarize open_).conforme;
      minor = res.medium + res.low;
      measured = evaluated_non_gov asmt.results;
      aside_severe = (set_aside aside).1;
      degraded = not (is_nil i.degraded);
      applied = is_applied report;
      stale = is_stale report;
      relaxed = not (is_nil i.relaxations);
    }

-- The constants of cmd/surface.go.
abbrev pub exit_conforme : ℕ
exit_conforme = 0

abbrev pub exit_non_conformite : ℕ
exit_non_conformite = 1

abbrev pub exit_strict : ℕ
exit_strict = 3

abbrev pub exit_derogation : ℕ
exit_derogation = 4

-- The tests, in their order.
unfoldable pub exit_of : Bool → Gate → ℕ
exit_of strict g =
    if not g.conforme
    then exit_non_conformite
    else if nat_eq g.measured 0
    then exit_strict
    else if g.aside_severe
    then exit_strict
    else if g.degraded
    then exit_strict
    else if g.applied
    then exit_derogation
    else if strict && ltb 0 g.minor
    then exit_strict
    else if strict && g.stale
    then exit_strict
    else if strict && g.relaxed
    then exit_strict
    else exit_conforme

unfoldable pub exit_code : Flags → Inputs → ℕ
unfolding gate_of exit_of
exit_code flags i = exit_of flags.strict (gate_of flags i)
