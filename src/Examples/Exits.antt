-- ===== src/Examples/Exits.antt =====
-- `pepin scan` at the tenant of the example.
use pepin.Prelude.{
  ◌≡◌, refl, true, false, [], ◌∷◌, any_by, nat_eq, str_dec, sort_strings, Each₂, lower_is,
}
use pepin.Assess.Attributes.{is_nil, applicable, attr_collected, correlation_broken}
use pepin.Assess.Tables.{required_attr, require_all}
use pepin.Assess.Build.{build}
use pepin.Assess.Provenance.{with_provenance}
use pepin.Assess.AttestedAbsence.{absence_must_be_attested, with_attested_absence}
use pepin.Assess.Degrade.{degrade}
use pepin.Assess.Relaxations.{with_relaxations}
use pepin.Profile.{retains, defs, split, set_aside}
use pepin.Assess.Inconclusive.{concludes}
use pepin.Exempt.{is_applied, apply}
use pepin.Scoring.{is_severe, summarize}
use pepin.Scan.{Inputs, assessed, exit_code, is_measured}
use pepin.Scan.Stages.{Published, built, assessed-Published}
use pepin.Scan.Verdicts.{gives_pass, is_waived, assessed_pass_iff, assessed_applied_iff}
use pepin.Scan.Open.{final}
use pepin.Scan.Exit.{exit_zero_iff, exit_one_iff, exit_four_iff, exit_zero_sound}
use pepin.Examples.Data.{
  flags, inputs_of, server_code, open_volume, unprotected_server, lasting_key, exemption,
  servers_refused,
}

-- One medium deviation.
abbrev green : Inputs
green = inputs_of (unprotected_server ∷ []) [] []

abbrev red : Inputs
red = inputs_of (open_volume ∷ unprotected_server ∷ []) [] []

-- The severe deviation is waived.
abbrev waived : Inputs
waived = inputs_of (open_volume ∷ unprotected_server ∷ []) (exemption ∷ []) []

-- The key's deviation rests on a field that nobody looked for, and the servers were refused.
abbrev unread : Inputs
unread = inputs_of (lasting_key ∷ []) [] servers_refused

assessed-Published_example :
    Each₂ (Published waived) (built waived).results (assessed waived).0.results
assessed-Published_example = assessed-Published waived

assessed_pass_iff_example :
    any_by (gives_pass unread server_code) (assessed unread).0.results ≡ false
unfolding str_dec applicable attr_collected required_attr require_all
assessed_pass_iff_example = assessed_pass_iff unread server_code

assessed_applied_iff_example :
    is_applied (assessed waived).1 ≡ any_by is_waived (assessed waived).0.results
assessed_applied_iff_example = assessed_applied_iff waived

green-exits : exit_code flags green ≡ 0
unfolding str_dec sort_strings required_attr require_all correlation_broken absence_must_be_attested
    applicable attr_collected build with_provenance with_attested_absence degrade apply
    with_relaxations assessed retains defs exit_code summarize split set_aside lower_is is_applied
green-exits = refl

exit_zero_sound_example :
    (any_by (concludes is_severe) green.findings ≡ false)
    × (any_by is_measured (final flags green) ≡ true)
    × (is_nil green.degraded ≡ true)
exit_zero_sound_example = exit_zero_sound flags green green-exits

exit_one_iff_example : nat_eq (exit_code flags red) 1 ≡ true
unfolding str_dec sort_strings required_attr require_all correlation_broken absence_must_be_attested
    applicable attr_collected build with_provenance with_attested_absence degrade apply
    with_relaxations assessed retains defs
exit_one_iff_example = exit_one_iff flags red

exit_four_iff_example : nat_eq (exit_code flags waived) 4 ≡ true
unfolding str_dec sort_strings required_attr require_all correlation_broken absence_must_be_attested
    applicable attr_collected build with_provenance with_attested_absence degrade apply
    with_relaxations assessed retains defs
exit_four_iff_example = exit_four_iff flags waived

exit_zero_iff_example : nat_eq (exit_code flags green) 0 ≡ true
unfolding str_dec sort_strings required_attr require_all correlation_broken absence_must_be_attested
    applicable attr_collected build with_provenance with_attested_absence degrade apply
    with_relaxations assessed retains defs
exit_zero_iff_example = exit_zero_iff flags green
