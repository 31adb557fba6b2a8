-- ===== src/Examples/Building.antt =====
-- `Build` at the tenant of the example.
use pepin.Prelude.{◌≡◌, true, [], ◌∷◌, any_by, str_dec, sort_strings}
use pepin.Scankit.{is_pass, is_fail}
use pepin.Assess.Attributes.{applicable, attr_collected, correlation_broken}
use pepin.Assess.Tables.{required_attr, require_all}
use pepin.Assess.Build.{build}
use pepin.Assess.Build.Verdicts.{gives}
use pepin.Assess.Build.Pass.{build_pass_iff, build_fail_iff}
use pepin.Examples.Data.{scope, volume_code, server_code, open_volume}

build_pass_iff_example :
    any_by (gives scope is_pass server_code) (build scope (open_volume ∷ [])).results ≡ true
unfolding str_dec applicable attr_collected required_attr require_all
build_pass_iff_example = build_pass_iff scope server_code (open_volume ∷ [])

build_fail_iff_example :
    any_by (gives scope is_fail volume_code) (build scope (open_volume ∷ [])).results ≡ true
unfolding str_dec correlation_broken sort_strings required_attr
build_fail_iff_example = build_fail_iff scope volume_code (open_volume ∷ [])
