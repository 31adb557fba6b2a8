-- ===== src/Assess/Degrade/Direction.antt =====
-- `Degrade` only ever makes a verdict less affirmative.
use pepin.I18n.{Lang}
use pepin.Prelude.{
  ℕ, suc, ◌+◌, ◌≡◌, refl, String, Bool, true, false, ◌&&◌, Option, none, some, List, [], ◌∷◌, arith,
  inl, inr, Bool-cases, ◌==◌, Dict, lookup, any_by, count_by, Each₂, Each₂-refl,
}
use pepin.Model.Collection.{CollectionUnit}
use pepin.Scankit.{Status, Result, Assessment, is_pass}
use pepin.Assess.Attributes.{is_nil, lookup_of_nil}
use pepin.Assess.Same.{SameResult}
use pepin.Assess.Degrade.Defs.{degrade_one, degrade_from, degrade}

abbrev pub is_known : Option CollectionUnit → Bool
is_known none = false
is_known (some u) = true

-- The one transition that a degraded control makes.
abbrev pub degraded_status : Bool → Status → Status
degraded_status true Status.pass = Status.not_evaluated
degraded_status b st = st

module _ (l : Lang) (degraded : Dict CollectionUnit) (grants : Dict String) where
  -- The new result says what the old one said, but for the transition and the reason.
  pub record Degraded (old new : Result) : Type 0 where
    pub same : SameResult old new
    pub references : new.references ≡ old.references
    pub labels : new.labels ≡ old.labels
    pub waiver : new.waiver ≡ old.waiver
    pub status : new.status ≡ degraded_status (is_known (lookup old.control degraded)) old.status

  degrade_one-Degraded : (r : Result) → Degraded r (degrade_one l degraded grants r).0
  degrade_one-Degraded r = ground arith

  degrade_from-Degraded :
      (rs : List Result) (n : ℕ) → Each₂ Degraded rs (degrade_from l degraded grants rs n).0
  unfolding degrade_from
  degrade_from-Degraded [] n = tt
  degrade_from-Degraded (r ∷ rs) n = (degrade_one-Degraded r, degrade_from-Degraded rs _)

  pub degrade-Degraded :
      (a : Assessment) → Each₂ Degraded a.results (degrade l degraded grants a).0.results
  unfolding degrade
  degrade-Degraded a = elim (Bool-cases (is_nil degraded)) [
    | inl e ↦
        rw e
          (Each₂-refl Degraded (λ r. ground (arith, lookup_of_nil degraded r.control e)) a.results)
    | inr e ↦ rw e (degrade_from-Degraded a.results 0)
  ]

  abbrev pub passes : Result → Bool
  passes r = is_pass r.status

  degrade_from_counts :
      (rs : List Result) (n : ℕ)
      → count_by passes rs + n
        ≡ count_by passes (degrade_from l degraded grants rs n).0
          + (degrade_from l degraded grants rs n).1
  unfolding degrade_from
  degrade_from_counts [] n = refl
  degrade_from_counts (r ∷ rs) n =
      ground (arith, degrade_from_counts rs n, degrade_from_counts rs (suc n))

  -- The number that `Degrade` returns is the number of `pass` that it withdrew: those before are
  -- those after, and those that it counts.
  pub degrade_counts :
      (a : Assessment)
      → count_by passes a.results
        ≡ count_by passes (degrade l degraded grants a).0.results + (degrade l degraded grants a).1
  unfolding degrade
  degrade_counts a = ground (arith, degrade_from_counts a.results 0)

  abbrev pub passes_on : String → Result → Bool
  passes_on code r = code == r.control && is_pass r.status

  no_pass_degrade_from :
      (code : String) (rs : List Result) (n : ℕ)
      → is_known (lookup code degraded) ≡ true
      → any_by (passes_on code) (degrade_from l degraded grants rs n).0 ≡ false
  unfolding degrade_from
  no_pass_degrade_from code [] n h = refl
  no_pass_degrade_from code (r ∷ rs) n h =
      ground (arith, no_pass_degrade_from code rs n, no_pass_degrade_from code rs (suc n))

  -- No `pass` is left on a degraded control.
  pub no_pass-degrade :
      (a : Assessment) (code : String)
      → is_known (lookup code degraded) ≡ true
      → any_by (passes_on code) (degrade l degraded grants a).0.results ≡ false
  unfolding degrade
  no_pass-degrade a code h =
      ground (arith, no_pass_degrade_from code a.results 0, lookup_of_nil degraded code)
