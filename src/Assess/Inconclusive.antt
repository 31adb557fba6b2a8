-- ===== src/Assess/Inconclusive.antt =====
-- internal/assess/inconclusive.go: the findings that a rule issued without being able to conclude.
use pepin.Prelude.{◌≡◌, refl, Bool, not, ◌&&◌, List, [], ◌∷◌, arith, if◌then◌else◌, any_by}
use pepin.Scankit.{Finding}
use pepin.Assess.Build.{is_inconclusive}

-- `SplitInconclusive`: the deviations, and the findings that do not conclude.
unfoldable pub split_inconclusive : List Finding → List Finding × List Finding
split_inconclusive [] = ([], [])
split_inconclusive (f ∷ fs) =
    let (deviations, inconclusive) = split_inconclusive fs in
    if is_inconclusive f then (deviations, f ∷ inconclusive) else (f ∷ deviations, inconclusive)

abbrev pub concludes : (Finding → Bool) → Finding → Bool
concludes p f = not (is_inconclusive f) && p f

pub any_by-split_inconclusive :
    (p : Finding → Bool) (fs : List Finding)
    → any_by p (split_inconclusive fs).0 ≡ any_by (concludes p) fs
unfolding split_inconclusive
any_by-split_inconclusive p [] = refl
any_by-split_inconclusive p (f ∷ fs) = ground (arith, any_by-split_inconclusive p fs)
