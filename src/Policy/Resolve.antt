-- ===== src/Policy/Resolve.antt =====
-- internal/policy/policy.go and resolved.go: the section `controls` of a policy, what is wrong with it,
-- and the configuration that it gives. `strings.ToLower` is a parameter. A number of days below 1, which
-- no policy that loads has, is 0.
use Prim.Native.Char.{code}
use pepin.Prelude.{
  ℕ, String, Bool, ◌||◌, Option, none, some, List, [], ◌∷◌, ◌++◌, map, if◌then◌else◌, ◌==◌, nat_eq,
  leb, Dict, index, insert, sort_strings, distinct_onto, trim_space,
}
use pepin.Policy.Defs.{RequiredTag, Resolved, legacy_confidence, rank_of_confidence}

-- `none` is a section, a list or a number that the file does not have.
pub record Tagging : Type 0 where
  pub required_tags : Option (List String)
  pub network_required_tags : Option (List String)
  pub aliases : Option (Dict (List String))
  pub resource_types : Option (List String)
  pub production_values : Option (List String)

pub record Snapshots : Type 0 where
  pub max_age_days : Option ℕ
  pub accepted_states : Option (List String)

pub record Iam : Type 0 where
  pub key_max_age_days : Option ℕ

pub record Secrets : Type 0 where
  pub min_confidence : String

pub record Controls : Type 0 where
  pub tagging : Option Tagging
  pub snapshots : Option Snapshots
  pub iam : Option Iam
  pub secrets : Option Secrets

pub data Problem : Type 0 where
  empty_tag empty_network_tag empty_type : Problem
  short_age empty_state short_key_age unknown_confidence : Problem

unfoldable pub default_billable_tags : List String
default_billable_tags = "CostCenter" ∷ "Project" ∷ "Env" ∷ "Owner" ∷ []

unfoldable pub default_production_values : List String
default_production_values = "prod" ∷ "production" ∷ "prd" ∷ "live" ∷ []

unfoldable pub default_network_tags : List String
default_network_tags = "Owner" ∷ "Project" ∷ "Env" ∷ []

unfoldable pub default_tag_aliases : Dict (List String)
default_tag_aliases =
    ("CostCenter", "CostCenter" ∷ "cost-center" ∷ "cc" ∷ "billing-code" ∷ "billing" ∷ [])
    ∷ ("Project", "Project" ∷ "app" ∷ "application" ∷ "service" ∷ [])
    ∷ ("Env", "Env" ∷ "environment" ∷ "stage" ∷ [])
    ∷ ("Owner", "Owner" ∷ "team" ∷ "responsible" ∷ "contact" ∷ [])
    ∷ []

unfoldable pub default_tagged_types : List String
default_tagged_types =
    "compute_instance" ∷ "blockstorage_volume" ∷ "blockstorage_snapshot" ∷ "compute_image"
    ∷ "load_balancer" ∷ "object_storage_bucket" ∷ "managed_database" ∷ "kubernetes_cluster" ∷ []

unfoldable pub default_snapshot_states : List String
default_snapshot_states = "completed" ∷ "created" ∷ []

abbrev pub or_default {ℓ} : {A : Type ℓ} → Option A → A → A
or_default none d = d
or_default (some a) d = a

abbrev or_none {ℓ} : {A : Type ℓ} → Option (List A) → List A
or_none none = []
or_none (some as_) = as_

-- `sortedUnique`
unfoldable pub sorted_unique : List String → List String
sorted_unique values = sort_strings (distinct_onto [] values)

abbrev is_separator : ℕ → Bool
is_separator c =
    nat_eq c b'-'
    || (nat_eq c b'_' || (nat_eq c b'.' || (nat_eq c b' ' || (nat_eq c b'/' || nat_eq c b':'))))

unfoldable pub without_separators : String → String
without_separators String.[] = ""
without_separators (String.◌∷◌ c s) =
    let rest = without_separators s in if is_separator (code c) then rest else String.◌∷◌ c rest

module _ (to_lower : String → String) where
  -- `normalizeTagKey`
  unfoldable pub normalize_tag_key : String → String
  unfolding without_separators
  normalize_tag_key s = without_separators (to_lower (trim_space s))

  -- The first loop of `resolveTags`.
  unfoldable pub aliases_by_name : Dict (List String) → Dict (List String) → Dict (List String)
  unfolding normalize_tag_key
  aliases_by_name [] out = out
  aliases_by_name ((name, values) ∷ aliases) out =
      aliases_by_name aliases (insert (normalize_tag_key name) values out)

  unfoldable pub alias_keys : List String → List String
  unfolding normalize_tag_key
  alias_keys [] = []
  alias_keys (a ∷ as_) =
      let rest = alias_keys as_ in
      if normalize_tag_key a == "" then rest else normalize_tag_key a ∷ rest

  abbrev pub required_tag : Dict (List String) → String → RequiredTag
  required_tag by_name name = record {
    name = name;
    tag_keys =
        sorted_unique
          (normalize_tag_key name ∷ alias_keys (index [] by_name (normalize_tag_key name)));
  }

  unfoldable pub required_tags_of : Dict (List String) → List String → List RequiredTag
  unfolding sorted_unique normalize_tag_key alias_keys
  required_tags_of by_name [] = []
  required_tags_of by_name (name ∷ names) =
      let rest = required_tags_of by_name names in
      if trim_space name == "" then rest else required_tag by_name (trim_space name) ∷ rest

  -- `resolveTags`
  unfoldable pub resolve_tags : List String → Dict (List String) → List RequiredTag
  unfolding required_tags_of aliases_by_name
  resolve_tags names aliases = required_tags_of (aliases_by_name aliases []) names

  -- `Defaults`
  unfoldable pub defaults : Resolved
  unfolding resolve_tags
  defaults = record {
    resource_types = sorted_unique default_tagged_types;
    required = resolve_tags default_billable_tags default_tag_aliases;
    network_required = resolve_tags default_network_tags default_tag_aliases;
    production_values = sorted_unique default_production_values;
    max_age_days = 7;
    accepted_states = sorted_unique default_snapshot_states;
    key_max_age_days = 90;
    min_confidence = "heuristic";
  }

  abbrev pub lower_trimmed : String → String
  lower_trimmed s = to_lower (trim_space s)

  abbrev pub sorted_or : Option (List String) → List String → List String
  sorted_or none d = d
  sorted_or (some values) d = sorted_unique values

  abbrev pub lowered : Option (List String) → Option (List String)
  lowered none = none
  lowered (some values) = some (map lower_trimmed values)

  abbrev pub resolve_tagging : Option Tagging → Resolved → Resolved
  resolve_tagging none out = out
  resolve_tagging (some t) out =
      let aliases = or_default t.aliases default_tag_aliases in
      record out {
        required = resolve_tags (or_default t.required_tags default_billable_tags) aliases;
        network_required =
            resolve_tags (or_default t.network_required_tags default_network_tags) aliases;
        production_values = sorted_or (lowered t.production_values) out.production_values;
        resource_types = sorted_or t.resource_types out.resource_types;
      }

  abbrev pub resolve_snapshots : Option Snapshots → Resolved → Resolved
  resolve_snapshots none out = out
  resolve_snapshots (some s) out = record out {
    max_age_days = or_default s.max_age_days out.max_age_days;
    accepted_states = sorted_or s.accepted_states out.accepted_states;
  }

  abbrev pub resolve_iam : Option Iam → Resolved → Resolved
  resolve_iam none out = out
  resolve_iam (some i) out = record out {
    key_max_age_days = or_default i.key_max_age_days out.key_max_age_days;
  }

  abbrev current_level : String → String
  current_level level = index level legacy_confidence level

  abbrev pub resolve_secrets : Option Secrets → Resolved → Resolved
  resolve_secrets none out = out
  resolve_secrets (some s) out =
      if s.min_confidence == ""
      then out
      else record out { min_confidence = current_level (lower_trimmed s.min_confidence) }

  -- `Resolve`; `none` is a file without the section.
  unfoldable pub resolve_policy : Option Controls → Resolved
  unfolding defaults
  resolve_policy none = defaults
  resolve_policy (some c) =
      resolve_secrets c.secrets
        (resolve_iam c.iam (resolve_snapshots c.snapshots (resolve_tagging c.tagging defaults)))

-- One problem for each empty text.
unfoldable pub empty_texts : Problem → List String → List Problem
empty_texts p [] = []
empty_texts p (s ∷ ss) =
    let rest = empty_texts p ss in if trim_space s == "" then p ∷ rest else rest

abbrev pub tagging_problems : Option Tagging → List Problem
tagging_problems none = []
tagging_problems (some t) =
    empty_texts Problem.empty_tag (or_none t.required_tags)
    ++ empty_texts Problem.empty_network_tag (or_none t.network_required_tags)
    ++ empty_texts Problem.empty_type (or_none t.resource_types)

abbrev pub short_days : Problem → Option ℕ → List Problem
short_days p none = []
short_days p (some n) = if leb 1 n then [] else p ∷ []

abbrev pub snapshots_problems : Option Snapshots → List Problem
snapshots_problems none = []
snapshots_problems (some s) =
    short_days Problem.short_age s.max_age_days
    ++ empty_texts Problem.empty_state (or_none s.accepted_states)

abbrev pub iam_problems : Option Iam → List Problem
iam_problems none = []
iam_problems (some i) = short_days Problem.short_key_age i.key_max_age_days

abbrev pub secrets_problems : Option Secrets → List Problem
secrets_problems none = []
secrets_problems (some s) =
    if s.min_confidence == "" then [] else elim (rank_of_confidence s.min_confidence) [
      | none ↦ Problem.unknown_confidence ∷ []
      | some rank ↦ []
    ]

-- `problems`
unfoldable pub problems : Option Controls → List Problem
unfolding empty_texts
problems none = []
problems (some c) =
    tagging_problems c.tagging
    ++ (snapshots_problems c.snapshots ++ (iam_problems c.iam ++ secrets_problems c.secrets))
