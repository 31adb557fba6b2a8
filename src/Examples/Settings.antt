-- ===== src/Examples/Settings.antt =====
-- A policy that asks for two tags and a fresher snapshot.
use pepin.Prelude.{◌≡◌, refl, String, none, some, [], ◌∷◌, str_dec, trim_space}
use pepin.Policy.Resolve.{Controls, problems, resolve_policy}
use pepin.Policy.Usable.{IsUsable, resolve_policy-IsUsable}

abbrev same_case : String → String
same_case s = s

abbrev controls : Controls
controls = record {
  tagging = some (record {
    required_tags = some ("owner" ∷ "cost-center" ∷ []);
    network_required_tags = none;
    aliases = none;
    resource_types = some ("load_balancer" ∷ "compute_instance" ∷ "load_balancer" ∷ []);
    production_values = none;
  });
  snapshots = some (record { max_age_days = some 3; accepted_states = none });
  iam = none;
  secrets = none;
}

no_problem : problems (some controls) ≡ []
unfolding problems trim_space str_dec
no_problem = refl

resolve_policy-IsUsable_example : IsUsable (resolve_policy same_case (some controls))
resolve_policy-IsUsable_example = resolve_policy-IsUsable same_case (some controls) no_problem
