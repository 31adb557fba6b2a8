-- ===== src/Assess/Build/Defs.antt =====
-- internal/assess/assess.go: `Build`, one result for each finding, then one for each control of the
-- provider that no finding names. referentiel/referentiel.go: the controls.
use pepin.I18n.{Lang, pick_in}
use pepin.Prelude.{
  String, Bool, not, ◌&&◌, Option, none, some, List, [], ◌∷◌, ◌++◌, map, if◌then◌else◌, ◌==◌, Dict,
  lookup, index, insert, keys, has, sort_strings, trim_space, after_colon,
}
use pepin.Scankit
use pepin.Scankit.{Status, Reference, Evidence, Result, Run, Assessment, Finding}
use pepin.Assess.Attributes.{applicable, attr_collected, correlation_broken}
use pepin.Assess.Reasons.{not_evaluated_reason, pass_reason}

pub record Control : Type 0 where
  pub titre : String
  pub titre_en : String
  pub severite : String
  pub fournisseurs : List String
  pub scsl : List String
  pub frameworks : Dict (List String)
  pub remediation : String
  pub remediation_en : String

-- The zero value, read where the reference does not know a code.
abbrev pub no_control : Control
no_control = record {
  titre = "";
  titre_en = "";
  severite = "";
  fournisseurs = [];
  scsl = [];
  frameworks = [];
  remediation = "";
  remediation_en = "";
}

unfoldable pub framework_slug : Dict String
framework_slug =
    ("secnumcloud_3_2", "secnumcloud-3.2")
    ∷ ("cis_controls_v8", "cis-v8")
    ∷ ("iso_27001_2022", "iso-27001")
    ∷ ("iso_27017", "iso-27017")
    ∷ []

abbrev refs_in : String → List String → List Reference
refs_in framework [] = []
refs_in framework (id ∷ ids) = record { framework = framework; id = id } ∷ refs_in framework ids

abbrev slug_of : String → String
slug_of fw = let slug = index "" framework_slug fw in if slug == "" then fw else slug

abbrev framework_refs : Dict (List String) → List String → List Reference
framework_refs frameworks [] = []
framework_refs frameworks (fw ∷ fws) =
    refs_in (slug_of fw) (index [] frameworks fw) ++ framework_refs frameworks fws

-- `References`
unfoldable pub references_of : Control → List Reference
references_of c =
    refs_in "scsl" c.scsl ++ framework_refs c.frameworks (sort_strings (keys c.frameworks))

-- `first`, of two values.
abbrev pub first : String → String → String
first a b = if not (a == "") then a else b

unfoldable pub strip_subject : String → String
strip_subject msg = elim (after_colon msg) [ none ↦ msg | some rest ↦ trim_space rest ]

-- `IsInconclusive`, internal/assess/inconclusive.go
abbrev pub is_inconclusive : Finding → Bool
is_inconclusive f = index "" f.labels "inconclusive" == "true"

-- What `Build` is given, but for the findings.
pub record Scope : Type 0 where
  pub lang : Lang
  pub provider : String
  pub controls : Dict Control
  pub resource_types : List String
  pub na_reasons : Dict String
  pub verified : List String
  pub types_of : Dict String
  pub attrs_by_type : Dict (List String)
  pub run : Run

abbrev pub broken : Scope → String → Option String
broken s code = correlation_broken s.lang code s.resource_types s.attrs_by_type

-- The body of the first loop.
abbrev pub broken_step : Scope → Finding → Dict String → Dict String
broken_step s f rompu = elim (lookup f.code rompu) [
  | some _ ↦ rompu
  | none ↦ elim (broken s f.code) [ some motif ↦ insert f.code motif rompu | none ↦ rompu ]
]

-- The first loop: the motive of each code whose correlation is broken.
unfoldable pub broken_map : Scope → List Finding → Dict String → Dict String
broken_map s [] rompu = rompu
broken_map s (f ∷ fs) rompu = broken_map s fs (broken_step s f rompu)

abbrev pub finding_status : Dict String → Finding → Status
finding_status rompu f = elim (lookup f.code rompu) [
  | some _ ↦ Status.not_evaluated
  | none ↦ if is_inconclusive f then Status.not_evaluated else Status.fail
]

abbrev pub finding_evidence : Dict String → Finding → String
finding_evidence rompu f = elim (lookup f.code rompu) [
  | some motif ↦ motif
  | none ↦ strip_subject f.message
]

-- The body of the second loop.
unfoldable pub finding_result : Scope → Dict String → Finding → Result
unfolding strip_subject
finding_result s rompu f =
    let c = index no_control s.controls f.code in
    record {
      control = f.code;
      title = first (pick_in s.lang c.titre c.titre_en) f.title;
      status = finding_status rompu f;
      severity = first f.severity c.severite;
      subject = f.subject;
      evidence = record {
        observed = finding_evidence rompu f;
        attribute = "";
        source = s.run.source;
      };
      references = references_of c;
      remediation = first f.remediation (pick_in s.lang c.remediation c.remediation_en);
      labels = f.labels;
      waiver = none;
    }

-- The three locks of a `pass`.
abbrev pub can_pass : Scope → String → Bool
can_pass s code =
    has s.verified code
    && applicable code s.types_of s.resource_types
    && attr_collected code (index "" s.types_of code) s.resource_types s.attrs_by_type

-- The body of the last loop, behind its first test; `none` is `continue`.
unfoldable pub control_result : Scope → String → Option Result
control_result s code =
    let c = index no_control s.controls code in
    let typ = index "" s.types_of code in
    let reason = index "" s.na_reasons code in
    let base = λ (status : Status) (observed : String) (waiver : Option Scankit.Waiver).
      let r : Result = record {
        control = code;
        title = pick_in s.lang c.titre c.titre_en;
        status = status;
        severity = c.severite;
        subject = s.run.target.id;
        evidence = record { observed = observed; attribute = ""; source = s.run.source };
        references = references_of c;
        remediation = "";
        labels = [];
        waiver = waiver;
      } in
      r in
    if not (reason == "")
    then some
        (base Status.not_applicable reason (some (record { justification = reason; until = "" })))
    else if has c.fournisseurs s.provider
    then (if can_pass s code
        then some (base Status.pass (pass_reason s.lang code typ s.resource_types) none)
        else some (
            base Status.not_evaluated
              (not_evaluated_reason s.lang code typ (has s.verified code) s.resource_types
                s.attrs_by_type)
              none))
    else none

abbrev pub finding_code : Finding → String
finding_code f = f.code

abbrev pub failed_controls : List Finding → List String
failed_controls fs = map finding_code fs

unfoldable pub control_results : Scope → List String → List String → List Result
unfolding control_result
control_results s failed [] = []
control_results s failed (code ∷ codes) =
    let rest = control_results s failed codes in
    if has failed code
    then rest
    else elim (control_result s code) [ none ↦ rest | some r ↦ r ∷ rest ]

unfoldable pub build : Scope → List Finding → Assessment
unfolding broken_map finding_result control_results
build s fs = record {
  run = s.run;
  results =
      map (finding_result s (broken_map s fs [])) fs
      ++ control_results s (failed_controls fs) (sort_strings (keys s.controls));
}
