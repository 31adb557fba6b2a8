-- ===== src/Assess/Relaxations.antt =====
-- internal/assess/relaxation.go: what a relaxed setting does to the results of its control.
use pepin.I18n.{Lang, t_in}
use pepin.Prelude.{
  ◌≡◌, refl, String, ◌<>◌, Bool, true, false, Option, some, List, [], map, arith, if◌then◌else◌,
  Dict, lookup, lookup-insert, index, insert, join, sort_strings, trim_space, Each₂, Each₂-refl,
  Each₂-map, Bool-cases, inl, inr, str_dec,
}
use pepin.Scankit.{Reference, Result, Assessment}
use pepin.Policy.{Relaxation, sentence_in}
use pepin.Assess.Attributes.{is_nil, index_of_nil}
use pepin.Assess.Same.{SameResult}

abbrev reference_name : Reference → String
reference_name r = r.framework <> ":" <> r.id

-- `ReferencesOf`
abbrev pub names_of_references : List Reference → List String
names_of_references refs = map reference_name refs

-- The labels of a result under a setting that lowers its control.
unfoldable pub relaxed_labels : String → List String → Dict String → Dict String
relaxed_labels details dropped labels =
    let relaxed = insert "config_relaxed_detail" details (insert "config_relaxed" "true" labels) in
    if is_nil dropped
    then relaxed
    else insert "references_dropped" (join (sort_strings dropped) ", ") relaxed

unfoldable pub relaxed_observed : Lang → String → String → String
unfolding trim_space
relaxed_observed l observed details = trim_space (
    observed
    <> " "
    <> t_in l
        ("— CONFIGURATION ASSOUPLIE : " <> details
          <> ". La correspondance normative de ce contrôle n'est plus tenue.")
        ("— RELAXED CONFIGURATION: " <> details
          <> ". This control's normative mapping no longer holds."))

abbrev pub sentences : Lang → List Relaxation → List String
sentences l rs = map (sentence_in l) rs

-- The body of the loop of `WithRelaxations`.
unfoldable pub relax : Lang → Dict (List Relaxation) → Result → Result
unfolding relaxed_labels relaxed_observed
relax l relaxations r =
    let rs = index [] relaxations r.control in
    if is_nil rs
    then r
    else let details = join (sentences l rs) " · " in
      record r {
        references = [];
        labels = relaxed_labels details (names_of_references r.references) r.labels;
        evidence = record (r.evidence) {
          observed = relaxed_observed l r.evidence.observed details;
        };
      }

unfoldable pub with_relaxations : Lang → Dict (List Relaxation) → Assessment → Assessment
unfolding relax
with_relaxations l relaxations a =
    if is_nil relaxations then a else record a { results = map (relax l relaxations) a.results }

abbrev pub is_relaxed : Dict (List Relaxation) → Result → Bool
is_relaxed relaxations r = if is_nil (index [] relaxations r.control) then false else true

-- The value that a label takes on a relaxed control.
abbrev pub marked : Bool → Option String → Option String
marked true old = some "true"
marked false old = old

module _ (l : Lang) (relaxations : Dict (List Relaxation)) where
  pub record Relaxed (old new : Result) : Type 0 where
    pub same : SameResult old new
    pub status : new.status ≡ old.status
    pub waiver : new.waiver ≡ old.waiver
    pub references : new.references ≡ (if is_relaxed relaxations old then [] else old.references)
    pub label :
        lookup "config_relaxed" new.labels
        ≡ marked (is_relaxed relaxations old) (lookup "config_relaxed" old.labels)
    pub attribute : new.evidence.attribute ≡ old.evidence.attribute
    pub source : new.evidence.source ≡ old.evidence.source

  lookup-relaxed_labels :
      (details : String) (dropped : List String) (labels : Dict String)
      → lookup "config_relaxed" (relaxed_labels details dropped labels) ≡ some "true"
  unfolding relaxed_labels str_dec
  lookup-relaxed_labels details dropped labels = elim (Bool-cases (is_nil dropped)) [
    | inl e ↦ rw (e, lookup-insert, lookup-insert) refl
    | inr e ↦ rw (e, lookup-insert, lookup-insert, lookup-insert) refl
  ]

  relax-Relaxed : (r : Result) → Relaxed r (relax l relaxations r)
  unfolding relax
  relax-Relaxed r = elim (Bool-cases (is_nil (index [] relaxations r.control))) [
    | inl e ↦ ground (arith, e)
    | inr e ↦ ground (
      arith,
      e,
      lookup-relaxed_labels (join (sentences l (index [] relaxations r.control)) " · ")
          (names_of_references r.references) r.labels,
    )
  ]

  -- A relaxed setting keeps every verdict and takes the normative mapping: each result keeps its
  -- place, its status and its waiver; a result of a relaxed control loses all its references and
  -- carries the label, and a result of any other control keeps both.
  pub with_relaxations-Relaxed :
      (a : Assessment) → Each₂ Relaxed a.results (with_relaxations l relaxations a).results
  unfolding with_relaxations
  with_relaxations-Relaxed a = elim (Bool-cases (is_nil relaxations)) [
    | inl e ↦
        rw (e, with_relaxations)
          (Each₂-refl Relaxed (λ r. ground (arith, index_of_nil [] relaxations r.control e))
            a.results)
    | inr e ↦
        rw (e, with_relaxations) (Each₂-map Relaxed (relax l relaxations) relax-Relaxed a.results)
  ]
