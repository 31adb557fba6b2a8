-- ===== src/Examples/Passes.antt =====
-- Each pass over an assessment, at the tenant of the example.
use pepin.I18n.{Lang}
use pepin.Prelude.{
  ◌+◌, ◌≡◌, refl, true, List, [], ◌∷◌, map, any_by, count_by, all_by, Each₂, str_dec, sort_strings,
}
use pepin.Assess.Attributes.{correlation_broken}
use pepin.Assess.Tables.{required_attr}
use pepin.Scankit.{Assessment, Finding}
use pepin.Assess.Build.{build}
use pepin.Assess.Provenance.{Annotated, with_provenance, with_provenance-Annotated}
use pepin.Assess.Degrade.{degrade}
use pepin.Assess.Degrade.Direction.{degrade_counts, passes}
use pepin.Assess.Relaxations.{Relaxed, with_relaxations, with_relaxations-Relaxed}
use pepin.Exempt.{apply, is_applied, known_subjects, exempted_result, first_covering, is_expired}
use pepin.Exempt.Statuses.{apply-results}
use pepin.Exempt.Effect.{is_applied-apply}
use pepin.Policy.{RequiredTag, at_least_as_strict}
use pepin.Policy.Holds.{at_least_as_strict_sound, satisfies}
use pepin.Profile.{split, set_aside, weighing, aside, is_grave, split-keeps_all}
use pepin.Scoring.{Counted, summarize, summarize-Counted, is_severe}
use pepin.Examples.Data.{
  scope, volume_code, open_volume, lasting_key, provenance, servers_refused, relaxations, exemption,
  parse, sha256,
}

abbrev findings : List Finding
findings = open_volume ∷ lasting_key ∷ []

abbrev assessment : Assessment
assessment = build scope findings

with_provenance-Annotated_example :
    Each₂ Annotated assessment.results
      (with_provenance provenance scope.types_of assessment).results
with_provenance-Annotated_example = with_provenance-Annotated provenance scope.types_of assessment

degrade_counts_example :
    count_by (passes Lang.en servers_refused []) assessment.results
    ≡ count_by
        (passes Lang.en servers_refused [])
        (degrade Lang.en servers_refused [] assessment).0.results
      + (degrade Lang.en servers_refused [] assessment).1
degrade_counts_example = degrade_counts Lang.en servers_refused [] assessment

with_relaxations-Relaxed_example :
    Each₂
      (Relaxed Lang.en relaxations)
      assessment.results
      (with_relaxations Lang.en relaxations assessment).results
with_relaxations-Relaxed_example = with_relaxations-Relaxed Lang.en relaxations assessment

apply-results_example :
    (apply Lang.en parse sha256 assessment (exemption ∷ []) 7 [] (volume_code ∷ [])).0.results
    ≡ map
        (exempted_result parse 7
          (volume_code ∷ [])
          (known_subjects [] assessment.results)
          (exemption ∷ []))
        assessment.results
apply-results_example =
    apply-results Lang.en parse sha256 assessment (exemption ∷ []) 7 [] (volume_code ∷ [])

is_applied-apply_example :
    is_applied (apply Lang.en parse sha256 assessment (exemption ∷ []) 7 [] (volume_code ∷ [])).1
    ≡ true
unfolding str_dec build correlation_broken sort_strings required_attr first_covering known_subjects
    is_expired
is_applied-apply_example =
    is_applied-apply Lang.en parse sha256 assessment (exemption ∷ []) 7 [] (volume_code ∷ [])

abbrev owner : RequiredTag
owner = record { name = "Owner"; tag_keys = "owner" ∷ "team" ∷ [] }

abbrev strict_owner : RequiredTag
strict_owner = record { name = "Owner"; tag_keys = "owner" ∷ [] }

at_least_as_strict_sound_example : all_by (satisfies ("owner" ∷ [])) (owner ∷ []) ≡ true
unfolding str_dec at_least_as_strict
at_least_as_strict_sound_example =
    at_least_as_strict_sound ("owner" ∷ []) (strict_owner ∷ []) (owner ∷ []) refl refl

split-keeps_all_example :
    (count_by is_severe (split "compliance" findings).0
        + count_by is_severe (split "compliance" findings).1
      ≡ count_by is_severe findings)
    × (any_by is_severe (split "compliance" findings).0
        ≡ any_by (weighing "compliance" is_severe) findings)
    × ((set_aside (split "compliance" findings).1).1
        ≡ any_by (aside "compliance" is_grave) findings)
split-keeps_all_example = split-keeps_all "compliance" is_severe findings

summarize-Counted_example : Counted findings (summarize findings)
summarize-Counted_example = summarize-Counted findings
