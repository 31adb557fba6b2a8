-- ===== src/Scan/Open.antt =====
-- The deviations that the gate of `pepin scan` still sees.
use pepin.Prelude.{
  ◌≡◌, refl, sym, ◌∙◌, ap, String, Bool, false, not, ◌&&◌, List, [], ◌∷◌, arith, ◌==◌, has, any_by,
  count_by, filter_by, ltb, nat_eq, Bool-cases, inl, inr,
}
use pepin.Scankit.{Result, Finding, is_exempted}
use pepin.Scoring.{summarize-Counted, is_severe, is_minor}
use pepin.Assess.Attributes.{is_nil}
use pepin.Assess.Inconclusive.{split_inconclusive, any_by-split_inconclusive, concludes}
use pepin.Profile.{split, split-weighing, set_aside-grave, split-aside, aside, weighing, is_grave}
use pepin.Scan.Defs.{
  Inputs, Flags, assessed, key_of, exempted_keys, is_open, open_findings, gate_of, is_measured,
  evaluated_non_gov,
}
use pepin.Scan.Verdicts.{is_waived}

-- A result that an exemption set aside, at the control and the subject of a finding.
abbrev pub waives : String → Result → Bool
waives key r = is_exempted r.status && key == key_of r.control r.subject

abbrev pub is_covered : List Result → Finding → Bool
is_covered rs f = any_by (waives (key_of f.code f.subject)) rs

has-exempted_keys :
    (k : String) (rs : List Result) → has (exempted_keys rs) k ≡ any_by (waives k) rs
unfolding exempted_keys
has-exempted_keys k [] = refl
has-exempted_keys k (r ∷ rs) = ground (arith, has-exempted_keys k rs)

pub is_nil-exempted_keys :
    (rs : List Result) → is_nil (exempted_keys rs) ≡ not (any_by is_waived rs)
unfolding exempted_keys
is_nil-exempted_keys [] = refl
is_nil-exempted_keys (r ∷ rs) = ground (arith, is_nil-exempted_keys rs)

abbrev stays : (Finding → Bool) → List Result → Finding → Bool
stays p rs f = p f && not (is_covered rs f)

any_by-filter_open :
    (p : Finding → Bool) (rs : List Result) (fs : List Finding)
    → any_by p (filter_by (is_open (exempted_keys rs)) fs) ≡ any_by (stays p rs) fs
any_by-filter_open p rs [] = refl
any_by-filter_open p rs (f ∷ fs) =
    ground (arith, has-exempted_keys (key_of f.code f.subject) rs, any_by-filter_open p rs fs)

pub covered_of_none :
    (k : String) (rs : List Result) → any_by is_waived rs ≡ false → any_by (waives k) rs ≡ false
covered_of_none k [] h = refl
covered_of_none k (r ∷ rs) h = ground (arith, covered_of_none k rs)

pub stays_of_none :
    (p : Finding → Bool) (rs : List Result) (fs : List Finding)
    → any_by is_waived rs ≡ false
    → any_by (stays p rs) fs ≡ any_by p fs
stays_of_none p rs [] h = refl
stays_of_none p rs (f ∷ fs) h =
    ground (arith, covered_of_none (key_of f.code f.subject) rs h, stays_of_none p rs fs h)

any_by-open_findings :
    (p : Finding → Bool) (rs : List Result) (fs : List Finding)
    → any_by p (open_findings fs (exempted_keys rs)) ≡ any_by (stays p rs) fs
unfolding open_findings
any_by-open_findings p rs fs = elim (Bool-cases (is_nil (exempted_keys rs))) [
  | inl e ↦ rw e (sym (stays_of_none p rs fs (ground (arith, is_nil-exempted_keys rs))))
  | inr e ↦ rw e (any_by-filter_open p rs fs)
]

-- A conclusive finding that the profile of the gate keeps.
abbrev pub weighs : Flags → (Finding → Bool) → Finding → Bool
weighs flags p f = concludes (weighing flags.gate p) f

-- A conclusive finding that the profile of the gate sets aside.
abbrev pub put_aside : Flags → (Finding → Bool) → Finding → Bool
put_aside flags p f = concludes (aside flags.gate p) f

measured_of_count :
    (rs : List Result) → nat_eq (count_by is_measured rs) 0 ≡ not (any_by is_measured rs)
measured_of_count [] = refl
measured_of_count (r ∷ rs) = ground (arith, measured_of_count rs)

module _ (flags : Flags) (i : Inputs) where
  abbrev pub final : List Result
  final = (assessed i).0.results

  -- Severe, and not set aside by an exemption.
  abbrev pub is_open_severe : Finding → Bool
  is_open_severe f = is_severe f && not (is_covered final f)

  any_weighs :
      (p : Finding → Bool)
      → any_by p (split flags.gate (split_inconclusive i.findings).0).0
        ≡ any_by (weighs flags p) i.findings
  any_weighs p =
      split-weighing flags.gate p (split_inconclusive i.findings).0
      ∙ any_by-split_inconclusive (weighing flags.gate p) i.findings

  any_put_aside :
      (p : Finding → Bool)
      → any_by p (split flags.gate (split_inconclusive i.findings).0).1
        ≡ any_by (put_aside flags p) i.findings
  any_put_aside p =
      split-aside flags.gate p (split_inconclusive i.findings).0
      ∙ any_by-split_inconclusive (aside flags.gate p) i.findings

  pub gate-conforme :
      (gate_of flags i).conforme ≡ not (any_by (weighs flags is_open_severe) i.findings)
  unfolding gate_of
  gate-conforme =
      let deviations = (split flags.gate (split_inconclusive i.findings).0).0 in
      (summarize-Counted (open_findings deviations (exempted_keys final))).conforme
      ∙ ap not (any_by-open_findings is_severe final deviations ∙ any_weighs is_open_severe)

  pub gate-minor : ltb 0 (gate_of flags i).minor ≡ any_by (weighs flags is_minor) i.findings
  unfolding gate_of
  gate-minor =
      (summarize-Counted (split flags.gate (split_inconclusive i.findings).0).0).minor
      ∙ any_weighs is_minor

  pub gate-aside_severe :
      (gate_of flags i).aside_severe ≡ any_by (put_aside flags is_grave) i.findings
  unfolding gate_of
  gate-aside_severe =
      set_aside-grave (split flags.gate (split_inconclusive i.findings).0).1
      ∙ any_put_aside is_grave

  pub gate-measured : nat_eq (gate_of flags i).measured 0 ≡ not (any_by is_measured final)
  unfolding gate_of evaluated_non_gov
  gate-measured = measured_of_count final
