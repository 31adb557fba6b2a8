-- ===== src/Scoring.antt =====
-- internal/scoring/scoring.go: the counts by severity, and the verdict that the exit code reads.
use pepin.Prelude.{
  ℕ, suc, ◌+◌, ◌≡◌, refl, String, Bool, false, not, ◌&&◌, ◌||◌, List, [], ◌∷◌, arith, if◌then◌else◌,
  ◌==◌, length, ltb, nat_eq, str_dec, any_by, count_by,
}
use pepin.Scankit.{Finding}

-- `Result` of the package.
pub record Summary : Type 0 where
  pub total : ℕ
  pub critical : ℕ
  pub high : ℕ
  pub medium : ℕ
  pub low : ℕ
  pub conforme : Bool

-- The body of the loop.
abbrev pub tally : Summary → Finding → Summary
tally r f =
    if f.severity == "critical"
    then record r { critical = suc r.critical }
    else if f.severity == "high"
    then record r { high = suc r.high }
    else if f.severity == "medium"
    then record r { medium = suc r.medium }
    else if f.severity == "low"
    then record r { low = suc r.low }
    else r

unfoldable pub tally_all : Summary → List Finding → Summary
tally_all r [] = r
tally_all r (f ∷ fs) = tally_all (tally r f) fs

abbrev start : ℕ → Summary
start n = record { total = n; critical = 0; high = 0; medium = 0; low = 0; conforme = false }

unfoldable pub summarize : List Finding → Summary
unfolding tally_all
summarize fs =
    let r = tally_all (start (length fs)) fs in
    record r { conforme = nat_eq r.critical 0 && nat_eq r.high 0 }

abbrev pub has_severity : String → Finding → Bool
has_severity s f = f.severity == s

abbrev pub is_severe : Finding → Bool
is_severe f = f.severity == "critical" || f.severity == "high"

abbrev pub is_minor : Finding → Bool
is_minor f = f.severity == "medium" || f.severity == "low"

-- The counters of a loop that started from `r`.
record Tallied (r out : Summary) (fs : List Finding) : Type 0 where
  total : out.total ≡ r.total
  critical : out.critical ≡ count_by (has_severity "critical") fs + r.critical
  high : out.high ≡ count_by (has_severity "high") fs + r.high
  medium : out.medium ≡ count_by (has_severity "medium") fs + r.medium
  low : out.low ≡ count_by (has_severity "low") fs + r.low

differ :
    (("critical" == "high") ≡ false)
    × (("critical" == "medium") ≡ false)
    × (("critical" == "low") ≡ false)
    × (("high" == "medium") ≡ false)
    × (("high" == "low") ≡ false)
    × (("medium" == "low") ≡ false)
unfolding str_dec
differ = (refl, refl, refl, refl, refl, refl)

tally_all-Tallied : (r : Summary) (fs : List Finding) → Tallied r (tally_all r fs) fs
unfolding tally_all
tally_all-Tallied r [] = ground arith
tally_all-Tallied r (f ∷ fs) =
    let t = tally_all-Tallied (tally r f) fs in
    ground (arith, t.total, t.critical, t.high, t.medium, t.low, differ)

conforme_of_counts :
    (fs : List Finding)
    → (nat_eq (count_by (has_severity "critical") fs) 0
        && nat_eq (count_by (has_severity "high") fs) 0)
      ≡ not (any_by is_severe fs)
conforme_of_counts [] = refl
conforme_of_counts (f ∷ fs) = ground (arith, conforme_of_counts fs)

minor_of_counts :
    (fs : List Finding)
    → ltb 0 (count_by (has_severity "medium") fs + count_by (has_severity "low") fs)
      ≡ any_by is_minor fs
minor_of_counts [] = refl
minor_of_counts (f ∷ fs) = ground (arith, minor_of_counts fs)

-- A summary against its findings.
pub record Counted (fs : List Finding) (r : Summary) : Type 0 where
  pub total : r.total ≡ length fs
  pub critical : r.critical ≡ count_by (has_severity "critical") fs
  pub high : r.high ≡ count_by (has_severity "high") fs
  pub medium : r.medium ≡ count_by (has_severity "medium") fs
  pub low : r.low ≡ count_by (has_severity "low") fs
  pub conforme : r.conforme ≡ not (any_by is_severe fs)
  pub minor : ltb 0 (r.medium + r.low) ≡ any_by is_minor fs

-- `Summarize` counts every finding, and each of the four severities on its own, whatever the order;
-- the verdict is positive exactly when no finding is critical or high, and the two minor counts are
-- not both zero exactly when some finding is medium or low.
pub summarize-Counted : (fs : List Finding) → Counted fs (summarize fs)
unfolding summarize
summarize-Counted fs =
    let t = tally_all-Tallied (start (length fs)) fs in
    ground (
      arith,
      t.total,
      t.critical,
      t.high,
      t.medium,
      t.low,
      conforme_of_counts fs,
      minor_of_counts fs,
    )
