-- ===== src/Profile.antt =====
-- internal/profile/profile.go: what a gate profile weighs in the exit code.
use pepin.Prelude.{
  ◌+◌, ◌≡◌, refl, ◌∙◌, String, Bool, true, false, not, ◌&&◌, ◌||◌, none, some, List, [], ◌∷◌, ◌++◌,
  arith, if◌then◌else◌, ◌==◌, Dict, lookup, index, has, any_by, count_by, sort_strings, lower_is,
}
use pepin.Scankit.{Finding}
use pepin.Assess.Attributes.{is_nil}

-- `def`, its two sets as lists.
pub record Retention : Type 0 where
  pub categories : List String
  pub confidences : List String

unfoldable pub defs : Dict Retention
defs =
    ("all", record { categories = []; confidences = [] })
    ∷ (
      "security",
      record { categories = "security" ∷ []; confidences = "confirmed" ∷ "probable" ∷ [] },
    )
    ∷ ("compliance", record { categories = "compliance" ∷ "hygiene" ∷ []; confidences = [] })
    ∷ ("sovereignty", record { categories = "sovereignty" ∷ []; confidences = [] })
    ∷ []

-- `Valid`
unfoldable pub is_valid : String → Bool
is_valid name = elim (lookup name defs) [ none ↦ false | some d ↦ true ]

-- One of the two tests of `Retains`: a label that is there and that the set does not hold.
abbrev pub rejects : List String → String → Bool
rejects kept label = not (is_nil kept) && (not (label == "") && not (has kept label))

abbrev pub retained_by : Retention → Finding → Bool
retained_by d f =
    if rejects d.categories (index "" f.labels "category")
    then false
    else if rejects d.confidences (index "" f.labels "confidence")
    then false
    else true

-- `Retains`
unfoldable pub retains : String → Finding → Bool
retains name f = elim (lookup name defs) [ none ↦ true | some d ↦ retained_by d f ]

-- `Split`: those that weigh, and those set aside.
unfoldable pub split : String → List Finding → List Finding × List Finding
split name [] = ([], [])
split name (f ∷ fs) =
    let (kept, aside) = split name fs in
    if retains name f then (f ∷ kept, aside) else (kept, f ∷ aside)

-- The comparison of `SetAside`, in lower case.
abbrev pub is_grave : Finding → Bool
is_grave f = lower_is f.severity "critical" || lower_is f.severity "high"

-- The loop of `SetAside`, with the codes seen and the flag.
unfoldable pub set_aside_from : List Finding → List String → Bool → List String × Bool
unfolding lower_is
set_aside_from [] codes grave = (codes, grave)
set_aside_from (f ∷ fs) codes grave =
    set_aside_from fs (if has codes f.code then codes else codes ++ f.code ∷ [])
      (if is_grave f then true else grave)

-- `SetAside`
unfoldable pub set_aside : List Finding → List String × Bool
unfolding set_aside_from sort_strings
set_aside fs = let (codes, grave) = set_aside_from fs [] false in (sort_strings codes, grave)

set_aside_from-grave :
    (fs : List Finding) (codes : List String) (grave : Bool)
    → (set_aside_from fs codes grave).1 ≡ (grave || any_by is_grave fs)
unfolding set_aside_from
set_aside_from-grave [] codes grave = ground arith
set_aside_from-grave (f ∷ fs) codes grave =
    set_aside_from-grave fs (if has codes f.code then codes else codes ++ f.code ∷ [])
      (if is_grave f then true else grave)
    ∙ ground arith

pub set_aside-grave : (fs : List Finding) → (set_aside fs).1 ≡ any_by is_grave fs
unfolding set_aside
set_aside-grave fs = set_aside_from-grave fs [] false

module _ (name : String) where
  -- What weighs, and what is set aside.
  abbrev pub weighing : (Finding → Bool) → Finding → Bool
  weighing p f = retains name f && p f

  abbrev pub aside : (Finding → Bool) → Finding → Bool
  aside p f = not (retains name f) && p f

  split-counts :
      (p : Finding → Bool) (fs : List Finding)
      → count_by p (split name fs).0 + count_by p (split name fs).1 ≡ count_by p fs
  unfolding split
  split-counts p [] = refl
  split-counts p (f ∷ fs) = ground (arith, split-counts p fs)

  pub split-weighing :
      (p : Finding → Bool) (fs : List Finding) → any_by p (split name fs).0 ≡ any_by (weighing p) fs
  unfolding split
  split-weighing p [] = refl
  split-weighing p (f ∷ fs) = ground (arith, split-weighing p fs)

  pub split-aside :
      (p : Finding → Bool) (fs : List Finding) → any_by p (split name fs).1 ≡ any_by (aside p) fs
  unfolding split
  split-aside p [] = refl
  split-aside p (f ∷ fs) = ground (arith, split-aside p fs)

  -- A profile hides no finding: a count over its two sides is the count over the findings, whatever
  -- is counted. What weighs is what `Retains` keeps, and the flag on what is set aside says that
  -- some critical or high finding, in any case of letters, is among the others.
  pub split-keeps_all :
      (p : Finding → Bool) (fs : List Finding)
      → (count_by p (split name fs).0 + count_by p (split name fs).1 ≡ count_by p fs)
        × (any_by p (split name fs).0 ≡ any_by (weighing p) fs)
        × ((set_aside (split name fs).1).1 ≡ any_by (aside is_grave) fs)
  split-keeps_all p fs = (
    split-counts p fs,
    split-weighing p fs,
    set_aside-grave (split name fs).1 ∙ split-aside is_grave fs,
  )
