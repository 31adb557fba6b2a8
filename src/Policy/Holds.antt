-- ===== src/Policy/Holds.antt =====
-- On which side of the default a mapping survives.
use pepin.Prelude.{
  ◌≡◌, refl, String, Bool, true, List, [], ◌∷◌, arith, inl, inr, Bool-cases, has, any_by, all_by,
}
use pepin.Policy.Defs.{RequiredTag, narrows, superset, covered_by, at_least_as_strict}

-- A resource satisfies a requirement if it carries one of its spellings.
abbrev pub satisfies : List String → RequiredTag → Bool
satisfies tags t = any_by (has tags) t.tag_keys

satisfies_of_superset :
    (tags super sub : List String)
    → superset super sub ≡ true
    → any_by (has tags) sub ≡ true
    → any_by (has tags) super ≡ true
satisfies_of_superset tags super [] h k = absurd (ground arith)
satisfies_of_superset tags super (x ∷ sub) h k = elim (Bool-cases (has tags x)) [
  | inl hit ↦ any_by_of_has super x (ground arith) hit
  | inr miss ↦ satisfies_of_superset tags super sub (ground arith) (ground arith)
]
  where
    any_by_of_has :
        (ys : List String) (x : String)
        → has ys x ≡ true
        → has tags x ≡ true
        → any_by (has tags) ys ≡ true
    any_by_of_has [] x h k = absurd (ground arith)
    any_by_of_has (y ∷ ys) x h k = ground (arith, any_by_of_has ys x)

covered_by_sound :
    (tags : List String) (w : RequiredTag) (got : List RequiredTag)
    → covered_by w got ≡ true
    → all_by (satisfies tags) got ≡ true
    → satisfies tags w ≡ true
unfolding covered_by
covered_by_sound tags w [] h k = absurd (ground arith)
covered_by_sound tags w (g ∷ got) h k = elim (Bool-cases (narrows w g)) [
  | inl hit ↦ satisfies_of_superset tags w.tag_keys g.tag_keys (ground arith) (ground arith)
  | inr miss ↦ covered_by_sound tags w got (ground arith) (ground arith)
]

-- "At least as strict" means it: where the check accepts an effective profile, whatever set of tags
-- satisfies every requirement of that profile also satisfies every requirement of the default one.
pub at_least_as_strict_sound :
    (tags : List String) (got want : List RequiredTag)
    → at_least_as_strict got want ≡ true
    → all_by (satisfies tags) got ≡ true
    → all_by (satisfies tags) want ≡ true
unfolding at_least_as_strict
at_least_as_strict_sound tags got [] h k = refl
at_least_as_strict_sound tags got (w ∷ want) h k =
    ground
      (arith, covered_by_sound tags w got, at_least_as_strict_sound tags got want (ground arith) k)
