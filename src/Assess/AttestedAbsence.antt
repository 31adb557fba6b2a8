-- ===== src/Assess/AttestedAbsence.antt =====
-- internal/assess/attested_absence.go: a deviation that rests on a field that nobody looked for.
use pepin.I18n.{Lang, t_in}
use pepin.Prelude.{
  ◌≡◌, String, ◌<>◌, Bool, true, false, not, ◌&&◌, Option, none, some, List, [], ◌∷◌, ◌++◌, map,
  arith, if◌then◌else◌, Dict, lookup, index, keys, join, sort_strings, Each₂, Each₂-refl, Each₂-map,
  Bool-cases, inl, inr,
}
use pepin.Scankit.{Status, Result, Assessment, is_fail}
use pepin.Assess.Attributes.{is_nil}
use pepin.Assess.Provenance.{AttrOrigin, ProvenanceIndex}
use pepin.Assess.Same.{SameResult}

unfoldable pub absence_must_be_attested : Dict (Dict (List String))
absence_must_be_attested =
    ("iam_accesskey_expiration_set", ("access_key", "expiration_date" ∷ []) ∷ []) ∷ []

-- The attributes of a type that have no attestation, as clauses of the motive.
unfoldable pub never_sought : Lang → String → Dict AttrOrigin → List String → List String
never_sought l t by_attr [] = []
never_sought l t by_attr (attr ∷ attrs) =
    let rest = never_sought l t by_attr attrs in
    elim (lookup attr by_attr) [
      | some _ ↦ rest
      | none ↦
          t_in l ("« " <> attr <> " » sur les ressources de type « " <> t <> " »")
            ("\"" <> attr <> "\" on the resources of type \"" <> t <> "\"")
          ∷ rest
    ]

unfoldable pub never_sought_in :
    Lang → Dict (List String) → ProvenanceIndex → List String → List String
unfolding never_sought
never_sought_in l rows idx [] = []
never_sought_in l rows idx (t ∷ ts) =
    let rest = never_sought_in l rows idx ts in
    let by_attr = index [] idx t in
    if is_nil by_attr
    then rest
    else never_sought l t by_attr (sort_strings (index [] rows t)) ++ rest

-- `some` is the pair of a motive and `true`.
unfoldable pub unattested_absence : Lang → Dict (List String) → ProvenanceIndex → Option String
unfolding never_sought_in
unattested_absence l rows idx = elim (never_sought_in l rows idx (sort_strings (keys rows))) [
  | [] ↦ none
  | c ∷ cs ↦ some (
      t_in l
        ("écart déduit d'une absence NON attestée : "
          <> join (c ∷ cs) ", "
          <> " n'a jamais été cherché par le collecteur — l'absence ne vaut donc pas observation, et l'écart ne peut être affirmé")
        ("deviation inferred from an UNATTESTED absence: "
          <> join (c ∷ cs) ", "
          <> " was never sought by the collector — the absence is therefore not an observation, and the deviation cannot be asserted"))
]

abbrev pub motive_of : Lang → ProvenanceIndex → String → Option String
motive_of l idx code = elim (lookup code absence_must_be_attested) [
  | none ↦ none
  | some rows ↦ unattested_absence l rows idx
]

-- The body of the loop of `WithAttestedAbsence`.
unfoldable pub requalify : Lang → ProvenanceIndex → Result → Result
unfolding unattested_absence
requalify l idx r = if not (is_fail r.status) then r else elim (motive_of l idx r.control) [
  | none ↦ r
  | some motif ↦ record r {
    status = Status.not_evaluated;
    evidence = record (r.evidence) { observed = motif };
  }
]

unfoldable pub with_attested_absence : Lang → ProvenanceIndex → Assessment → Assessment
unfolding requalify
with_attested_absence l idx a =
    if is_nil idx then a else record a { results = map (requalify l idx) a.results }

abbrev pub is_motive : Option String → Bool
is_motive none = false
is_motive (some m) = true

-- A deviation that rests on an absence, where the index shows that the field was never sought.
abbrev pub is_unattested : Lang → ProvenanceIndex → Result → Bool
is_unattested l idx r =
    is_fail r.status && (not (is_nil idx) && is_motive (motive_of l idx r.control))

pub record Requalified (l : Lang) (idx : ProvenanceIndex) (old new : Result) : Type 0 where
  pub same : SameResult old new
  pub status : new.status ≡ (if is_unattested l idx old then Status.not_evaluated else old.status)
  pub references : new.references ≡ old.references
  pub labels : new.labels ≡ old.labels
  pub waiver : new.waiver ≡ old.waiver

requalify-Requalified :
    (l : Lang) (idx : ProvenanceIndex) (r : Result)
    → is_nil idx ≡ false
    → Requalified l idx r (requalify l idx r)
unfolding requalify
requalify-Requalified l idx r e = ground arith

pub with_attested_absence-Requalified :
    (l : Lang) (idx : ProvenanceIndex) (a : Assessment)
    → Each₂ (Requalified l idx) a.results (with_attested_absence l idx a).results
unfolding with_attested_absence
with_attested_absence-Requalified l idx a = elim (Bool-cases (is_nil idx)) [
  | inl e ↦
      rw (e, with_attested_absence) (Each₂-refl (Requalified l idx) (λ r. ground arith) a.results)
  | inr e ↦
      rw (e, with_attested_absence)
        (Each₂-map (Requalified l idx) (requalify l idx) (λ r. requalify-Requalified l idx r e)
          a.results)
]
