-- ===== src/Assess/Provenance.antt =====
-- internal/assess/provenance.go: where the deciding data of a control is from.
use pepin.Prelude.{
  ℕ, suc, ◌≡◌, String, ◌<>◌, not, ◌&&◌, ◌||◌, none, some, List, [], ◌∷◌, ◌++◌, map, arith,
  if◌then◌else◌, ◌==◌, Dict, lookup, index, insert, keys, has, join, sort_strings, itoa, Each₂,
  Each₂-refl, Each₂-map, Bool-cases, inl, inr,
}
use pepin.Model.Resource.{Attestation, Resource}
use pepin.Scankit.{Result, Assessment}
use pepin.Assess.Tables.{required_attr}
use pepin.Assess.Attributes.{is_nil}
use pepin.Assess.Same.{SameResult}

pub record AttrOrigin : Type 0 where
  pub sources : List String
  pub observed : ℕ
  pub total : ℕ

abbrev pub no_origin : AttrOrigin
no_origin = record { sources = []; observed = 0; total = 0 }

abbrev pub ProvenanceIndex : Type 0
ProvenanceIndex = Dict (Dict AttrOrigin)

-- `AttrOrigin.Label`
unfoldable pub origin_label : AttrOrigin → String
unfolding itoa
origin_label o = join o.sources " + " <> " observed=" <> itoa o.observed <> "/" <> itoa o.total

unfoldable pub attestation_label : Attestation → String
attestation_label a =
    if a.origin == ""
    then ""
    else a.origin
      <> (if a.source == "" then "" else ":" <> a.source)
      <> (if a.derived && not (a.origin == "derived") then " (derived)" else "")

-- The body of the inner loop of `add`.
abbrev pub attest : Attestation → AttrOrigin → AttrOrigin
attest att o =
    let label = attestation_label att in
    record {
      sources =
          if not (label == "") && not (has o.sources label)
          then o.sources ++ label ∷ []
          else o.sources;
      observed = if att.observed then suc o.observed else o.observed;
      total = suc o.total;
    }

unfoldable pub attest_all : Dict Attestation → Dict AttrOrigin → Dict AttrOrigin
unfolding attestation_label
attest_all [] by_attr = by_attr
attest_all ((attr, att) ∷ prov) by_attr =
    attest_all prov (insert attr (attest att (index no_origin by_attr attr)) by_attr)

-- `add`
unfoldable pub add_provenance : String → Dict Attestation → ProvenanceIndex → ProvenanceIndex
unfolding attest_all
add_provenance typ prov idx =
    if typ == "" || is_nil prov then idx else insert typ (attest_all prov (index [] idx typ)) idx

unfoldable pub add_resources : List Resource → ProvenanceIndex → ProvenanceIndex
unfolding add_provenance
add_resources [] idx = idx
add_resources (r ∷ rs) idx = add_resources rs (add_provenance r.type r.provenance idx)

abbrev sort_sources : Dict AttrOrigin → Dict AttrOrigin
sort_sources [] = []
sort_sources ((a, o) ∷ m) = (a, record o { sources = sort_strings o.sources }) ∷ sort_sources m

abbrev sort_index : ProvenanceIndex → ProvenanceIndex
sort_index [] = []
sort_index ((t, m) ∷ idx) = (t, sort_sources m) ∷ sort_index idx

-- `ProvenanceOf`, of typed resources.
unfoldable pub provenance_of : List Resource → ProvenanceIndex
unfolding add_resources sort_strings
provenance_of rs = sort_index (add_resources rs [])

-- The attributes of one row of the table that have an attestation, with their labels.
unfoldable pub attested_in : Dict AttrOrigin → List String → List (String × String)
unfolding origin_label
attested_in by_attr [] = []
attested_in by_attr (attr ∷ attrs) =
    let rest = attested_in by_attr attrs in
    elim (lookup attr by_attr) [
      | none ↦ rest
      | some o ↦ (attr, attr <> "=" <> origin_label o) ∷ rest
    ]

unfoldable pub attested_rows :
    ProvenanceIndex → String → Dict (List String) → List String → List (String × String)
unfolding attested_in
attested_rows idx primary rows [] = []
attested_rows idx primary rows (t ∷ ts) =
    attested_in (index [] idx (if t == "" then primary else t)) (sort_strings (index [] rows t))
    ++ attested_rows idx primary rows ts

abbrev names_of : List (String × String) → List String
names_of [] = []
names_of ((a, _) ∷ xs) = a ∷ names_of xs

abbrev labels_of : List (String × String) → List String
labels_of [] = []
labels_of ((_, b) ∷ xs) = b ∷ labels_of xs

-- The body of the loop of `WithProvenance`.
unfoldable pub annotate : ProvenanceIndex → Dict String → Result → Result
unfolding attested_rows
annotate idx types_of r =
    let rows = index [] required_attr r.control in
    let found = attested_rows idx (index "" types_of r.control) rows (sort_strings (keys rows)) in
    if is_nil found then r else record r {
      evidence = record (r.evidence) {
        attribute = join (names_of found) " / ";
        source = join (labels_of found) " ; ";
      };
    }

unfoldable pub with_provenance : ProvenanceIndex → Dict String → Assessment → Assessment
unfolding annotate
with_provenance idx types_of a =
    if is_nil idx then a else record a { results = map (annotate idx types_of) a.results }

-- Nothing but the attribute and the source of the evidence moves.
pub record Annotated (old new : Result) : Type 0 where
  pub same : SameResult old new
  pub status : new.status ≡ old.status
  pub observed : new.evidence.observed ≡ old.evidence.observed
  pub references : new.references ≡ old.references
  pub labels : new.labels ≡ old.labels
  pub waiver : new.waiver ≡ old.waiver

annotate-Annotated :
    (idx : ProvenanceIndex) (types_of : Dict String) (r : Result)
    → Annotated r (annotate idx types_of r)
unfolding annotate
annotate-Annotated idx types_of r = ground arith

-- The provenance pass moves no verdict: it writes the attribute and the source of the evidence of
-- some results, and every other field of every result stays, in the same order.
pub with_provenance-Annotated :
    (idx : ProvenanceIndex) (types_of : Dict String) (a : Assessment)
    → Each₂ Annotated a.results (with_provenance idx types_of a).results
unfolding with_provenance
with_provenance-Annotated idx types_of a = elim (Bool-cases (is_nil idx)) [
  | inl e ↦ rw e (Each₂-refl Annotated (λ r. ground arith) a.results)
  | inr e ↦
      rw e (Each₂-map Annotated (annotate idx types_of) (annotate-Annotated idx types_of) a.results)
]
