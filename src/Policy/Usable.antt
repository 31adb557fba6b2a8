-- ===== src/Policy/Usable.antt =====
-- internal/policy/resolved.go and policy.go: the configuration that a policy without a problem gives.
use pepin.Prelude.{
  ℕ, ◌≤◌, ◌≡◌, refl, ◌∙◌, String, Option, none, some, List, [], ◌∷◌, ◌++◌, ◌==◌, Dict, All,
  sort_strings-IsSorted, sort_strings-NoRepeat, distinct_onto-NoRepeat, has-sort_strings,
  has-distinct_onto, arith, inl, inr, Bool-cases, trim_space,
}
use pepin.Model.Collection.Invariant.{IsCanonical}
use pepin.Policy.Defs.{RequiredTag, Resolved}
use pepin.Policy.Resolve.{
  Controls, Tagging, Snapshots, Iam, Secrets, Problem, sorted_unique, required_tags_of,
  resolve_tags, defaults, sorted_or, lowered, or_default, resolve_tagging, resolve_snapshots,
  resolve_iam, resolve_secrets, resolve_policy, short_days, problems, tagging_problems,
  snapshots_problems, iam_problems, secrets_problems, default_tag_aliases,
}

abbrev pub HasCanonicalKeys : RequiredTag → Type 0
HasCanonicalKeys tag = IsCanonical tag.tag_keys

-- The configuration is in its canonical form, on which the digest rests, and asks for a day at least.
pub record IsUsable (r : Resolved) : Type 0 where
  pub resource_types : IsCanonical r.resource_types
  pub production_values : IsCanonical r.production_values
  pub accepted_states : IsCanonical r.accepted_states
  pub required : All HasCanonicalKeys r.required
  pub network_required : All HasCanonicalKeys r.network_required
  pub max_age_days : 1 ≤ r.max_age_days
  pub key_max_age_days : 1 ≤ r.key_max_age_days

sorted_unique-IsCanonical : (values : List String) → IsCanonical (sorted_unique values)
unfolding sorted_unique
sorted_unique-IsCanonical values = record {
  sorted = sort_strings-IsSorted _;
  distinct = sort_strings-NoRepeat _ (distinct_onto-NoRepeat [] values tt);
  nonempty = has-sort_strings _ "" ∙ has-distinct_onto [] values "" ∙ ground arith;
}

sorted_or-IsCanonical :
    (to_lower : String → String) (o : Option (List String)) (d : List String)
    → IsCanonical d
    → IsCanonical (sorted_or to_lower o d)
sorted_or-IsCanonical to_lower none d h = h
sorted_or-IsCanonical to_lower (some values) d h = sorted_unique-IsCanonical values

no_short_days :
    (p : Problem) (o : Option ℕ) (d : ℕ) → short_days p o ≡ [] → 1 ≤ d → 1 ≤ or_default o d
no_short_days p none d h k = k
no_short_days p (some n) d h k = ground (arith, h)

nil_left : (a b : List Problem) → a ++ b ≡ [] → (a ≡ []) × (b ≡ [])
nil_left [] b h = (refl, h)
nil_left (x ∷ a) b h = absurd (ground (arith, h))

module _ (to_lower : String → String) where
  required_tags_of-HasCanonicalKeys :
      (by_name : Dict (List String)) (names : List String)
      → All HasCanonicalKeys (required_tags_of to_lower by_name names)
  unfolding required_tags_of
  required_tags_of-HasCanonicalKeys by_name [] = tt
  required_tags_of-HasCanonicalKeys by_name (name ∷ names) =
      elim (Bool-cases (trim_space name == "")) [
        | inl e ↦ rw e (required_tags_of-HasCanonicalKeys by_name names)
        | inr e ↦
            rw e (sorted_unique-IsCanonical _, required_tags_of-HasCanonicalKeys by_name names)
      ]

  resolve_tags-HasCanonicalKeys :
      (names : List String) (aliases : Dict (List String))
      → All HasCanonicalKeys (resolve_tags to_lower names aliases)
  unfolding resolve_tags
  resolve_tags-HasCanonicalKeys names aliases = required_tags_of-HasCanonicalKeys _ names

  defaults-IsUsable : IsUsable (defaults to_lower)
  unfolding defaults
  defaults-IsUsable = record {
    resource_types = sorted_unique-IsCanonical _;
    production_values = sorted_unique-IsCanonical _;
    accepted_states = sorted_unique-IsCanonical _;
    required = resolve_tags-HasCanonicalKeys _ default_tag_aliases;
    network_required = resolve_tags-HasCanonicalKeys _ default_tag_aliases;
    max_age_days = omega arith;
    key_max_age_days = omega arith;
  }

  resolve_tagging-IsUsable :
      (t : Option Tagging) (r : Resolved) → IsUsable r → IsUsable (resolve_tagging to_lower t r)
  resolve_tagging-IsUsable none r h = h
  resolve_tagging-IsUsable (some t) r h = record {
    resource_types = sorted_or-IsCanonical to_lower t.resource_types _ h.resource_types;
    production_values =
        sorted_or-IsCanonical to_lower (lowered to_lower t.production_values) _ h.production_values;
    required = resolve_tags-HasCanonicalKeys _ _;
    network_required = resolve_tags-HasCanonicalKeys _ _;
    accepted_states = h.accepted_states;
    max_age_days = h.max_age_days;
    key_max_age_days = h.key_max_age_days;
  }

  resolve_snapshots-IsUsable :
      (s : Option Snapshots) (r : Resolved)
      → snapshots_problems s ≡ []
      → IsUsable r
      → IsUsable (resolve_snapshots to_lower s r)
  resolve_snapshots-IsUsable none r k h = h
  resolve_snapshots-IsUsable (some s) r k h = record {
    accepted_states = sorted_or-IsCanonical to_lower s.accepted_states _ h.accepted_states;
    max_age_days =
        no_short_days Problem.short_age s.max_age_days _ (nil_left _ _ k).0 h.max_age_days;
    resource_types = h.resource_types;
    production_values = h.production_values;
    required = h.required;
    network_required = h.network_required;
    key_max_age_days = h.key_max_age_days;
  }

  resolve_iam-IsUsable :
      (i : Option Iam) (r : Resolved)
      → iam_problems i ≡ []
      → IsUsable r
      → IsUsable (resolve_iam to_lower i r)
  resolve_iam-IsUsable none r k h = h
  resolve_iam-IsUsable (some i) r k h = record {
    key_max_age_days =
        no_short_days Problem.short_key_age i.key_max_age_days _ k h.key_max_age_days;
    resource_types = h.resource_types;
    production_values = h.production_values;
    accepted_states = h.accepted_states;
    required = h.required;
    network_required = h.network_required;
    max_age_days = h.max_age_days;
  }

  resolve_secrets-IsUsable :
      (s : Option Secrets) (r : Resolved) → IsUsable r → IsUsable (resolve_secrets to_lower s r)
  resolve_secrets-IsUsable none r h = h
  resolve_secrets-IsUsable (some s) r h = elim (Bool-cases (s.min_confidence == "")) [
    | inl e ↦ rw e h
    | inr e ↦ rw e (record {
      resource_types = h.resource_types;
      production_values = h.production_values;
      accepted_states = h.accepted_states;
      required = h.required;
      network_required = h.network_required;
      max_age_days = h.max_age_days;
      key_max_age_days = h.key_max_age_days;
    })
  ]

  -- A policy that has no problem gives a usable configuration, whichever sections and settings it has:
  -- the types, the states, the values of production and the spellings of each required tag are
  -- sorted, without repetition and without an empty text, and both ages are a day at least.
  pub resolve_policy-IsUsable :
      (c : Option Controls) → problems c ≡ [] → IsUsable (resolve_policy to_lower c)
  unfolding resolve_policy problems
  resolve_policy-IsUsable none h = defaults-IsUsable
  resolve_policy-IsUsable (some c) h =
      let rest =
        (nil_left (tagging_problems c.tagging)
          (snapshots_problems c.snapshots ++ (iam_problems c.iam ++ secrets_problems c.secrets))
          h).1 in
      let snapshots =
        nil_left (snapshots_problems c.snapshots) (iam_problems c.iam ++ secrets_problems c.secrets)
          rest in
      let iam = nil_left (iam_problems c.iam) (secrets_problems c.secrets) snapshots.1 in
      resolve_secrets-IsUsable c.secrets _ (
        resolve_iam-IsUsable c.iam _ iam.0 (
          resolve_snapshots-IsUsable c.snapshots _ snapshots.0
            (resolve_tagging-IsUsable c.tagging _ defaults-IsUsable)))
