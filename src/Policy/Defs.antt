-- ===== src/Policy/Defs.antt =====
-- internal/policy/resolved.go and relaxation.go; referentiel/config.go: the constraints.
use pepin.I18n.{Lang, t_in}
use pepin.Prelude.{
  ℕ, suc, String, ◌<>◌, Bool, false, not, ◌&&◌, Option, none, some, List, [], ◌∷◌, map,
  if◌then◌else◌, ◌==◌, leb, Dict, index, keys, has, all_by, any_by, join, sort_strings, trim_space,
  itoa, equal_fold,
}
use pepin.Assess.Attributes.{is_nil}

pub record RequiredTag : Type 0 where
  pub name : String
  pub tag_keys : List String

-- The effective configuration, its four sections in one record. A number of days is at least 1 in
-- every policy that loads.
pub record Resolved : Type 0 where
  pub resource_types : List String
  pub required : List RequiredTag
  pub network_required : List RequiredTag
  pub production_values : List String
  pub max_age_days : ℕ
  pub accepted_states : List String
  pub key_max_age_days : ℕ
  pub min_confidence : String

pub record ConfigConstraint : Type 0 where
  pub parametre : String
  pub contrainte : String

pub record Relaxation : Type 0 where
  pub control : String
  pub parameter : String
  pub constraint : String
  pub default : String
  pub effective : String
  pub dropped_references : List String

unfoldable pub confidence_levels : List String
confidence_levels = "heuristic" ∷ "probable" ∷ "confirmed" ∷ []

unfoldable pub legacy_confidence : Dict String
legacy_confidence = ("low", "heuristic") ∷ ("medium", "probable") ∷ ("high", "confirmed") ∷ []

abbrev rank_in : String → List String → ℕ → Option ℕ
rank_in level [] i = none
rank_in level (l ∷ ls) i =
    let rest = rank_in level ls (suc i) in if equal_fold (trim_space level) l then some i else rest

-- `rankOfConfidence`, `none` being -1.
unfoldable pub rank_of_confidence : String → Option ℕ
unfolding confidence_levels legacy_confidence equal_fold trim_space
rank_of_confidence level = rank_in (index level legacy_confidence level) confidence_levels 0

unfoldable pub ordinal : Resolved → String → Option ℕ
ordinal r param =
    if param == "snapshots.max_age_days"
    then some r.max_age_days
    else if param == "iam.key_max_age_days"
    then some r.key_max_age_days
    else if param == "secrets.min_confidence"
    then rank_of_confidence r.min_confidence
    else none

-- The set is the list of its members.
unfoldable pub members : Resolved → String → Option (List String)
members r param =
    if param == "tagging.resource_types"
    then some r.resource_types
    else if param == "tagging.production_values"
    then some r.production_values
    else if param == "snapshots.accepted_states"
    then some r.accepted_states
    else none

unfoldable pub requirements : Resolved → String → Option (List RequiredTag)
requirements r param =
    if param == "tagging.required_tags"
    then some r.required
    else if param == "tagging.network_required_tags"
    then some r.network_required
    else none

-- `contains`
abbrev pub superset : List String → List String → Bool
superset super sub = all_by (has super) sub

-- A requirement whose spellings are not empty and all accepted by `want`.
abbrev pub narrows : RequiredTag → RequiredTag → Bool
narrows want g = not (is_nil g.tag_keys) && superset want.tag_keys g.tag_keys

unfoldable pub covered_by : RequiredTag → List RequiredTag → Bool
covered_by want got = any_by (narrows want) got

abbrev covered_in : List RequiredTag → RequiredTag → Bool
covered_in got w = covered_by w got

unfoldable pub at_least_as_strict : List RequiredTag → List RequiredTag → Bool
unfolding covered_by
at_least_as_strict got want = all_by (covered_in got) want

abbrev pub on_both {ℓ} : {A : Type ℓ} → (A → A → Bool) → Option A → Option A → Bool
on_both p none y = false
on_both p (some x) none = false
on_both p (some x) (some y) = p x y

abbrev subset : List String → List String → Bool
subset got want = superset want got

unfoldable pub holds : Resolved → Resolved → ConfigConstraint → Bool
unfolding ordinal members requirements at_least_as_strict
holds res def c =
    if c.contrainte == "au_plus_le_defaut"
    then on_both leb (ordinal res c.parametre) (ordinal def c.parametre)
    else if c.contrainte == "superset_du_defaut"
    then on_both superset (members res c.parametre) (members def c.parametre)
    else if c.contrainte == "sous_ensemble_du_defaut"
    then on_both subset (members res c.parametre) (members def c.parametre)
    else if c.contrainte == "au_moins_aussi_strict_que_le_defaut"
    then on_both at_least_as_strict (requirements res c.parametre) (requirements def c.parametre)
    else false

abbrev show_tag : RequiredTag → String
show_tag t = t.name <> "{" <> join t.tag_keys "|" <> "}"

abbrev bracketed : List String → String
bracketed xs = "[" <> join (sort_strings xs) ", " <> "]"

abbrev show_collection : Lang → Resolved → String → String
show_collection l r param = elim (requirements r param) [
  | some reqs ↦ bracketed (map show_tag reqs)
  | none ↦ elim (members r param) [
    | some m ↦ bracketed m
    | none ↦ t_in l "(réglage inconnu)" "(unknown setting)"
  ]
]

-- `render`. The members of a resolved setting are distinct, so the list is the set.
unfoldable pub render : Lang → Resolved → String → String
render l r param = elim (ordinal r param) [
  | none ↦ show_collection l r param
  | some n ↦
      if param == "secrets.min_confidence"
      then r.min_confidence
      else itoa n <> t_in l " jours" " days"
]

unfoldable pub relaxations_of :
    Lang → Resolved → Resolved → List String → String → List ConfigConstraint → List Relaxation
unfolding holds render
relaxations_of l res def refs code [] = []
relaxations_of l res def refs code (c ∷ cs) =
    let rest = relaxations_of l res def refs code cs in
    if holds res def c
    then rest
    else record {
      control = code;
      parameter = c.parametre;
      constraint = c.contrainte;
      default = render l def c.parametre;
      effective = render l res c.parametre;
      dropped_references = refs;
    }
      ∷ rest

unfoldable pub relaxations_from :
    Lang
    → Resolved
    → Resolved
    → Dict (List ConfigConstraint)
    → Dict (List String)
    → List String
    → Dict (List Relaxation)
unfolding relaxations_of
relaxations_from l res def constraints refs [] = []
relaxations_from l res def constraints refs (code ∷ codes) =
    let rest = relaxations_from l res def constraints refs codes in
    let rs = relaxations_of l res def (index [] refs code) code (index [] constraints code) in
    if is_nil rs then rest else (code, rs) ∷ rest

-- `Relaxations`; `def` is the result of `Defaults`.
unfoldable pub relaxations :
    Lang
    → Resolved
    → Resolved
    → Dict (List ConfigConstraint)
    → Dict (List String)
    → Dict (List Relaxation)
unfolding relaxations_from
relaxations l res def constraints refs =
    relaxations_from l res def constraints refs (sort_strings (keys constraints))

-- `constraintLossIn` and `SentenceIn`
unfoldable pub constraint_loss_in : Lang → String → String
constraint_loss_in l kind =
    if kind == "au_plus_le_defaut"
    then t_in l "une valeur au-delà du défaut tait ce que l'exigence demandait de voir"
        "a value beyond the default silences what the requirement asked to see"
    else if kind == "superset_du_defaut"
    then t_in l "retirer un membre du défaut, c'est cesser de vérifier ce que l'exigence demande"
        "dropping a member of the default means no longer checking what the requirement asks"
    else if kind == "sous_ensemble_du_defaut"
    then t_in l "élargir au-delà du défaut, c'est accepter ce que l'exigence rejette"
        "widening beyond the default means accepting what the requirement rejects"
    else if kind == "au_moins_aussi_strict_que_le_defaut"
    then t_in l
        "une exigence du profil par défaut n'est plus tenue : elle a été retirée, ou ce qu'elle accepte a été élargi"
        "a requirement of the default profile is no longer held: it was dropped, or what it accepts was widened"
    else t_in l "contrainte non tenue" "constraint not met"

unfoldable pub sentence_in : Lang → Relaxation → String
unfolding constraint_loss_in
sentence_in l r =
    t_in l
      (r.parameter
        <> " : "
        <> r.effective
        <> " au lieu de "
        <> r.default
        <> " (défaut) — "
        <> constraint_loss_in l r.constraint)
      (r.parameter
        <> ": "
        <> r.effective
        <> " instead of "
        <> r.default
        <> " (default) — "
        <> constraint_loss_in l r.constraint)
