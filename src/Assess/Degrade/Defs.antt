-- ===== src/Assess/Degrade/Defs.antt =====
-- internal/assess/collection.go: `DegradedControls`, `Degrade` and the reasons that they give.
use pepin.I18n.{Lang, t_in}
use pepin.Prelude.{
  ℕ, suc, String, ◌<>◌, Bool, not, ◌&&◌, Option, none, some, List, [], ◌∷◌, if◌then◌else◌, ◌==◌,
  Dict, lookup, index, keys, sort_strings,
}
use pepin.Model.Collection.{CollectionOutcome, CollectionUnit, Collection, incomplete_types}
use pepin.Provider.{control_types}
use pepin.Scankit.{Status, Result, Assessment}
use pepin.Assess.Attributes.{is_nil}

-- The types that a control reads; for the tagging control, those of the policy.
abbrev pub types_read : List String → String → List String
types_read tagged_types code =
    if code == "governance_resource_required_tags" then tagged_types else control_types code

-- The inner loop: the unit of the first type that has one.
unfoldable pub first_incomplete : Dict CollectionUnit → List String → Option CollectionUnit
first_incomplete incomplete [] = none
first_incomplete incomplete (t ∷ ts) =
    let rest = first_incomplete incomplete ts in
    elim (lookup t incomplete) [ some unit ↦ some unit | none ↦ rest ]

unfoldable pub degraded_from : Dict CollectionUnit → List String → List String → Dict CollectionUnit
unfolding first_incomplete
degraded_from incomplete tagged_types [] = []
degraded_from incomplete tagged_types (code ∷ codes) =
    let rest = degraded_from incomplete tagged_types codes in
    elim (first_incomplete incomplete (types_read tagged_types code)) [
      | some unit ↦ (code, unit) ∷ rest
      | none ↦ rest
    ]

-- `scope` holds each code once, with the value true.
unfoldable pub degraded_controls : Collection → List String → List String → Dict CollectionUnit
unfolding degraded_from
degraded_controls coll scope tagged_types =
    let incomplete = incomplete_types coll in
    if is_nil incomplete then [] else degraded_from incomplete tagged_types scope

-- The published identifier of a class.
abbrev pub outcome_name : CollectionOutcome → String
outcome_name CollectionOutcome.unset = ""
outcome_name CollectionOutcome.permission_denied = "permission_denied"
outcome_name CollectionOutcome.not_found = "not_found"
outcome_name CollectionOutcome.rate_limited = "rate_limited"
outcome_name CollectionOutcome.timeout = "timeout"
outcome_name CollectionOutcome.truncated = "truncated"
outcome_name CollectionOutcome.unreadable = "unreadable"
outcome_name CollectionOutcome.unauthenticated = "unauthenticated"
outcome_name CollectionOutcome.rejected = "rejected"
outcome_name CollectionOutcome.unavailable = "unavailable"
outcome_name (CollectionOutcome.other s) = s

unfoldable pub outcome_label : Lang → CollectionOutcome → String
outcome_label l CollectionOutcome.permission_denied =
    t_in l "privilège insuffisant du compte de scan"
      "insufficient privilege on the scanning account"
outcome_label l CollectionOutcome.not_found =
    t_in l "service absent de ce tenant ou de cette région"
      "service absent from this tenant or region"
outcome_label l CollectionOutcome.rate_limited =
    t_in l "débit plafonné par l'API (inventaire tronqué)"
      "rate limited by the API (truncated inventory)"
outcome_label l CollectionOutcome.timeout = t_in l "délai dépassé" "the request timed out"
outcome_label l CollectionOutcome.truncated =
    t_in l "pagination interrompue (inventaire tronqué)"
      "pagination interrupted (truncated inventory)"
outcome_label l CollectionOutcome.unreadable = t_in l "réponse illisible" "unreadable response"
outcome_label l CollectionOutcome.unauthenticated =
    t_in l "identifiants non reconnus par l'API" "credentials not recognized by the API"
outcome_label l CollectionOutcome.rejected =
    t_in l "requête refusée par l'API (le service, lui, répond)"
      "request refused by the API (the service itself is answering)"
outcome_label l CollectionOutcome.unavailable = t_in l "service indisponible" "service unavailable"
outcome_label l o = outcome_name o

abbrev is_permission_denied : CollectionOutcome → Bool
is_permission_denied CollectionOutcome.permission_denied = Bool.true
is_permission_denied _ = Bool.false

unfoldable pub incomplete_reason : Lang → CollectionUnit → String → String
unfolding outcome_label
incomplete_reason l u grant =
    t_in l
      ("collecte incomplète de « "
        <> u.unit
        <> " » : "
        <> outcome_label l u.error
        <> " — aucune conclusion possible sur ce périmètre")
      ("incomplete collection of \""
        <> u.unit
        <> "\": "
        <> outcome_label l u.error
        <> " — no conclusion is possible on this scope")
    <> (if not (grant == "") && is_permission_denied u.error
        then t_in l (" (droit requis : " <> grant <> ")") (" (required grant: " <> grant <> ")")
        else "")

-- The body of the loop of `Degrade` at a degraded control: the result, and whether a pass went.
abbrev pub withdraw : String → Result → Result × Bool
withdraw reason r =
    let e = record (r.evidence) { observed = reason } in
    elim r.status [
      | Status.pass ↦ (record r { status = Status.not_evaluated; evidence = e }, Bool.true)
      | Status.not_evaluated ↦ (record r { evidence = e }, Bool.false)
      | _ ↦ (r, Bool.false)
    ]

abbrev pub degrade_one : Lang → Dict CollectionUnit → Dict String → Result → Result × Bool
degrade_one l degraded grants r = elim (lookup r.control degraded) [
  | none ↦ (r, Bool.false)
  | some unit ↦ withdraw (incomplete_reason l unit (index "" grants unit.unit)) r
]

-- The loop, with its counter.
unfoldable pub degrade_from :
    Lang → Dict CollectionUnit → Dict String → List Result → ℕ → List Result × ℕ
degrade_from l degraded grants [] withdrawn = ([], withdrawn)
degrade_from l degraded grants (r ∷ rs) withdrawn =
    let (r', gone) = degrade_one l degraded grants r in
    let (rs', n) = degrade_from l degraded grants rs (if gone then suc withdrawn else withdrawn) in
    (r' ∷ rs', n)

unfoldable pub degrade : Lang → Dict CollectionUnit → Dict String → Assessment → Assessment × ℕ
unfolding degrade_from
degrade l degraded grants a =
    if is_nil degraded
    then (a, 0)
    else let (rs, n) = degrade_from l degraded grants a.results 0 in (record a { results = rs }, n)

-- `SortedCodes`
unfoldable pub sorted_codes : Dict CollectionUnit → List String
sorted_codes degraded = sort_strings (keys degraded)
