-- ===== src/Scan/Exit.antt =====
-- When `pepin scan` exits with which code.
use pepin.Prelude.{
  ◌≡◌, refl, ◌∙◌, Bool, true, false, not, ◌&&◌, ◌||◌, List, [], ◌∷◌, arith, any_by, ltb, nat_eq,
  lower_is,
}
use pepin.Scankit.{Finding}
use pepin.Scoring.{is_severe, is_minor}
use pepin.Exempt.{is_stale}
use pepin.Assess.Attributes.{is_nil}
use pepin.Assess.Inconclusive.{concludes}
use pepin.Profile.{is_grave}
use pepin.Scan.Defs.{
  key_of, Inputs, Flags, Gate, assessed, gate_of, is_measured, exit_of, exit_code,
}
use pepin.Scan.Verdicts.{is_waived, assessed_applied_iff}
use pepin.Scan.Open.{
  covered_of_none, weighs, put_aside, is_open_severe, final, gate-conforme, gate-minor,
  gate-aside_severe, gate-measured,
}

-- Every test passes.
abbrev passes_all : Bool → Gate → Bool
passes_all strict g =
    g.conforme
    && (not (nat_eq g.measured 0)
        && (not g.aside_severe
            && (not g.degraded
                && (not g.applied
                    && (not strict || not (ltb 0 g.minor) && (not g.stale && not g.relaxed))))))

exit_of_zero : (strict : Bool) (g : Gate) → nat_eq (exit_of strict g) 0 ≡ passes_all strict g
unfolding exit_of
exit_of_zero strict g = ground arith

exit_of_one : (strict : Bool) (g : Gate) → nat_eq (exit_of strict g) 1 ≡ not g.conforme
unfolding exit_of
exit_of_one strict g = ground arith

exit_of_four :
    (strict : Bool) (g : Gate)
    → nat_eq (exit_of strict g) 4 ≡ (
        g.conforme
        && (not (nat_eq g.measured 0) && (not g.aside_severe && (not g.degraded && g.applied))))
unfolding exit_of
exit_of_four strict g = ground arith

module _ (flags : Flags) (i : Inputs) where
  gate-applied : (gate_of flags i).applied ≡ any_by is_waived (final flags i)
  unfolding gate_of
  gate-applied = assessed_applied_iff i

  gate-stale : (gate_of flags i).stale ≡ is_stale (assessed i).1
  unfolding gate_of
  gate-stale = refl

  gate-degraded : (gate_of flags i).degraded ≡ not (is_nil i.degraded)
  unfolding gate_of
  gate-degraded = refl

  gate-relaxed : (gate_of flags i).relaxed ≡ not (is_nil i.relaxations)
  unfolding gate_of
  gate-relaxed = refl

  open_of_unwaived :
      (fs : List Finding)
      → any_by is_waived (final flags i) ≡ false
      → any_by (weighs flags (is_open_severe flags i)) fs ≡ any_by (weighs flags is_severe) fs
  open_of_unwaived [] h = refl
  open_of_unwaived (f ∷ fs) h =
      ground
        (arith, covered_of_none (key_of f.code f.subject) (final flags i) h, open_of_unwaived fs h)

  -- What `--strict` asks for on top.
  abbrev pub strict_passes : Bool
  strict_passes =
      not flags.strict
      || not (any_by (weighs flags is_minor) i.findings)
        && (not (is_stale (assessed i).1) && is_nil i.relaxations)

  -- The code is 0 exactly when no conclusive finding that the profile keeps is critical or high, no
  -- conclusive finding that it sets aside is, some control other than the governance ones has a
  -- `pass` or a `fail`, no control is degraded, no result is `exempted`, and, under `--strict`,
  -- no kept finding is medium or low, no exemption is expired or orphan and no setting is relaxed.
  pub exit_zero_iff : nat_eq (exit_code flags i) 0 ≡ (
      not (any_by (weighs flags is_severe) i.findings)
      && (not (any_by (put_aside flags is_grave) i.findings)
          && (any_by is_measured (final flags i)
              && (is_nil i.degraded && (not (any_by is_waived (final flags i)) && strict_passes)))))
  unfolding exit_code
  exit_zero_iff =
      exit_of_zero flags.strict (gate_of flags i)
      ∙ ground (
        arith,
        gate-conforme flags i,
        gate-measured flags i,
        gate-aside_severe flags i,
        gate-degraded,
        gate-applied,
        gate-minor flags i,
        gate-stale,
        gate-relaxed,
        open_of_unwaived i.findings,
      )

  -- The code is 1 exactly when some finding is conclusive, kept by the profile of the gate, critical
  -- or high, and no `exempted` result has its control and its subject. No other test comes first.
  pub exit_one_iff :
      nat_eq (exit_code flags i) 1 ≡ any_by (weighs flags (is_open_severe flags i)) i.findings
  unfolding exit_code
  exit_one_iff = exit_of_one flags.strict (gate_of flags i) ∙ ground (arith, gate-conforme flags i)

  -- The code is 4 exactly when some result is `exempted`, no severe conclusive finding is left open
  -- or set aside by the profile, something was measured, and no control is degraded.
  pub exit_four_iff : nat_eq (exit_code flags i) 4 ≡ (
      not (any_by (weighs flags (is_open_severe flags i)) i.findings)
      && (any_by is_measured (final flags i)
          && (not (any_by (put_aside flags is_grave) i.findings)
              && (is_nil i.degraded && any_by is_waived (final flags i)))))
  unfolding exit_code
  exit_four_iff =
      exit_of_four flags.strict (gate_of flags i)
      ∙ ground (
        arith,
        gate-conforme flags i,
        gate-measured flags i,
        gate-aside_severe flags i,
        gate-degraded,
        gate-applied,
      )

  lowers : (lower_is "critical" "critical" ≡ true) × (lower_is "high" "high" ≡ true)
  unfolding lower_is
  lowers = (refl, refl)

  grave_of_severe : (f : Finding) → is_severe f ≡ true → is_grave f ≡ true
  grave_of_severe f h = ground (arith, lowers)

  no_severe_of_sides :
      (fs : List Finding)
      → any_by (weighs flags is_severe) fs ≡ false
      → any_by (put_aside flags is_grave) fs ≡ false
      → any_by (concludes is_severe) fs ≡ false
  no_severe_of_sides [] h k = refl
  no_severe_of_sides (f ∷ fs) h k = ground (arith, grave_of_severe f, no_severe_of_sides fs)

  -- Where the exit code is 0, no rule concluded to a deviation whose severity is written `critical` or
  -- `high`, whatever the profile and the exemptions, some control other than the governance ones has
  -- a `pass` or a `fail`, and no control is degraded.
  pub exit_zero_sound :
      exit_code flags i ≡ 0
      → (any_by (concludes is_severe) i.findings ≡ false)
        × (any_by is_measured (final flags i) ≡ true)
        × (is_nil i.degraded ≡ true)
  exit_zero_sound h =
      let e = exit_zero_iff in
      let z : nat_eq (exit_code flags i) 0 ≡ true = rw h refl in
      (
        no_severe_of_sides i.findings (ground (arith, e, z)) (ground (arith, e, z)),
        ground (arith, e, z),
        ground (arith, e, z),
      )
